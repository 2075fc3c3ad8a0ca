-- ===== src/Tests/Reading.antt =====
-- Rooms, histories and faults in the small database.
use mathlib.Core.List.{Perm, filter_map}
use terminal_social.Common.{
  ℕ, ◌≡◌, ◌≢◌, ◌≤◌, refl, true, false, List, [], ◌∷◌, reverse, take, length, any_row, select,
}
use terminal_social.Common.Records.Order.{All, IsDescending}
use terminal_social.Text.{codes}
use terminal_social.Domain.{Message, member, dm_key}
use terminal_social.Domain.Sanitize.{sanitize_user_text}
use terminal_social.Store.Schema.{empty_db, is_member_row}
use terminal_social.Store.Exec.{db_error, ok, err, quiet, pure, query, fail, statement, ◌>>=◌}
use terminal_social.Store.Rooms.{join_room, add_member, is_member, require_member}
use terminal_social.Store.Rooms.Tables.{join_room-db}
use terminal_social.Store.Rooms.Separation.{IsSeparated}
use terminal_social.Store.Rooms.History.{
  RoomOp, creates, joins, bans, registers, history, history-IsSeparated,
}
use terminal_social.Store.Messages.{room_message, clip, message_of, insert_room_message}
use terminal_social.Store.Messages.Send.{posted, next_message}
use terminal_social.Store.History.{
  in_room, with_authors, room_history, room_history_for_user, dm_history, dm_history_for_user,
}
use terminal_social.Store.History.Access.{
  IsInRoom, IsBetween, room_history_for_user-guard, dm_history_for_user-guard,
}
use terminal_social.Store.History.Order.{message_id, room_history-recent}
use terminal_social.Store.Faults.{
  ban_query_fails, read_back_fails, join_room-unchecked, insert_room_message-stored_yet_failed,
}
use terminal_social.Tests.World.{hello, world}
use terminal_social.Tests.Sending.{hello-text, bob-CanSend}

abbrev some_history : List RoomOp
some_history =
    registers 1 (codes "alice") (codes "fp1") (codes "key1")
    ∷ registers 2 (codes "mallory") (codes "fp2") (codes "key2")
    ∷ creates 3 (codes "general") false 1
    ∷ joins 4 1 2
    ∷ bans 5 1 2 1 (codes "spam")
    ∷ joins 6 1 2
    ∷ []

history-IsSeparated_example : IsSeparated (history empty_db some_history)
history-IsSeparated_example = history-IsSeparated some_history

mallory-stays_out : (join_room 200 1 4 (quiet world)).1.db ≡ world
mallory-stays_out = join_room-db 200 1 4 world

abbrev bobs_history : List Message
bobs_history = reverse (message_of (room_message 1 2 hello 100 1) (codes "bob") ∷ [])

bob-reads : room_history_for_user 2 1 10 (quiet world) ≡ (ok bobs_history, quiet world)
unfolding room_history_for_user room_history with_authors require_member is_member ◌>>=◌ pure fail
    query statement filter_map
bob-reads = refl

bob-history : room_history 1 10 (quiet world) ≡ (ok bobs_history, quiet world)
unfolding room_history with_authors ◌>>=◌ pure fail query statement filter_map
bob-history = refl

room_history_for_user-guard_example :
    (any_row (is_member_row 1 2) world.room_members ≡ true)
    × All (IsInRoom 1) bobs_history
    × (length bobs_history ≤ 10)
room_history_for_user-guard_example =
    room_history_for_user-guard 2 1 10 (quiet world) (quiet world) bobs_history bob-reads

room_history-recent_example :
    (all : List Message) × IsDescending message_id all
    × Perm all (with_authors world (select (in_room 1) world.messages))
    × (bobs_history ≡ reverse (take 10 all))
room_history-recent_example =
    room_history-recent 1 10 (quiet world) (quiet world) bobs_history bob-history

no_dms : dm_history_for_user 1 2 10 (quiet world) ≡ (ok (reverse []), quiet world)
unfolding dm_history_for_user dm_history dm_key with_authors ◌>>=◌ pure fail query statement
    filter_map
no_dms = refl

dm_history_for_user-guard_example :
    (◌≢◌ {A = ℕ} 1 2) × All (IsBetween 1 2) (reverse []) × (length {A = Message} (reverse []) ≤ 10)
dm_history_for_user-guard_example =
    dm_history_for_user-guard 1 2 10 (quiet world) (quiet world) (reverse []) no_dms

-- Mallory, who is banned, joins while the query of the bans fails.
join_room-unchecked_example :
    join_room 200 1 4 (ban_query_fails world) ≡ (ok tt, quiet (add_member 200 1 4 member world))
join_room-unchecked_example = join_room-unchecked 200 1 4 world refl refl refl

insert_room_message-stored_yet_failed_example :
    insert_room_message 200 1 2 hello [] (read_back_fails world) ≡ (
      err db_error,
      quiet (
          posted
            (room_message 1 2 (clip (sanitize_user_text hello)) 200 (next_message world))
            world),
    )
insert_room_message-stored_yet_failed_example =
    insert_room_message-stored_yet_failed 200 1 2 hello world bob-CanSend hello-text
