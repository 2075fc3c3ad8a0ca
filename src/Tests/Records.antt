-- ===== src/Tests/Records.antt =====
-- Notifications, reports, purges and peers in the small database.
use terminal_social.Common.{
  ℕ, ◌+◌, ◌≡◌, refl, true, false, List, [], ◌∷◌, some, ◌==◌, any_row, length, arith,
}
use terminal_social.Common.Sets.{mem, at, is_distinct}
use terminal_social.Text.{codes, bytes_eq}
use terminal_social.Domain.{Message}
use terminal_social.Domain.Sanitize.{sanitize_user_text}
use terminal_social.Store.Schema.{Db, message_target, next_id}
use terminal_social.Store.Exec.{ok, quiet, pure, fail, query, statement, ◌>>=◌}
use terminal_social.Store.Rooms.{is_member, require_member}
use terminal_social.Store.Messages.{
  room_message, dm_message, delete_row, message_of, stored_message, message_by_id, can_read_message,
  message_by_id_for_user,
}
use terminal_social.Store.Notifications.{
  unread_counts, mark_room_read, insert_report, report, parse_target, report_message_for_user,
}
use terminal_social.Store.Notifications.Unread.{
  unread_in, unread_counts-rooms, mark_room_read-unread,
}
use terminal_social.Store.Notifications.Reports.{CanRead, report_message_for_user-guard}
use terminal_social.Store.Maintenance.{purge_deleted, dm_peers}
use terminal_social.Store.Maintenance.Purge.{IsReferring, IsPurged, purge_deleted_lem}
use terminal_social.Store.Maintenance.Peers.{is_between, dm_peers_lem}
use terminal_social.Store.Messages.Marks.{mark_one}
use terminal_social.Tests.World.{hello, world}

-- Alice has been mentioned in bob's message.
mentioned : Db
mentioned = mark_one 150 1 1 world 1

unread_counts-rooms_example :
    (rooms dms : List (ℕ × ℕ)) × (unread_counts 1 (quiet mentioned)
      ≡ (ok (rooms, dms), quiet mentioned))
    × ((rid : ℕ) → at 0 rid rooms ≡ unread_in 1 rid mentioned)
unread_counts-rooms_example = unread_counts-rooms 1 mentioned

mark_room_read-unread_example :
    (db' : Db) × (mark_room_read 200 1 1 (quiet mentioned) ≡ (ok tt, quiet db'))
    × (unread_in 1 1 db' ≡ 0)
    × ((r : ℕ) → (r == 1) ≡ false → unread_in 1 r db' ≡ unread_in 1 r mentioned)
mark_room_read-unread_example = mark_room_read-unread 200 1 1 mentioned

abbrev bobs_message : Message
bobs_message = message_of (room_message 1 2 hello 100 1) (codes "bob")

alice-fetches : message_by_id_for_user 1 1 (quiet world) ≡ (ok bobs_message, quiet world)
unfolding message_by_id_for_user message_by_id can_read_message require_member is_member ◌>>=◌ pure
    fail query statement
alice-fetches = refl

abbrev reported : Db
reported = record world {
  reports =
      record {
        id = 1;
        reporter_id = 1;
        target_kind = message_target;
        target_id = 1;
        reason = sanitize_user_text hello;
        created_at = 200;
      }
      ∷ [];
}

alice-reports : report_message_for_user 200 1 1 hello (quiet world) ≡ (ok tt, quiet reported)
unfolding report_message_for_user report parse_target bytes_eq message_by_id can_read_message
    require_member is_member ◌>>=◌ pure fail query statement next_id
alice-reports = refl

report_message_for_user-guard_example :
    (m : Message) × (stored_message 1 world ≡ some m)
    × CanRead 1 m world
    × (insert_report 200 1 message_target 1 (sanitize_user_text hello) world ≡ ok (tt, reported))
report_message_for_user-guard_example =
    report_message_for_user-guard 200 1 1 hello (quiet world) (quiet reported) tt alice-reports

-- Bob's message was deleted at 150, and he has written to carol.
abbrev aged : Db
aged = record world {
  messages = delete_row 150 1 (room_message 1 2 hello 100 1) ∷ dm_message 2 3 2 hello 160 2 ∷ [];
}

aged-IsReferring : IsReferring aged
aged-IsReferring = record {
  mentions = λ mid h. absurd (ground (arith, h));
  notifications = λ mid h. absurd (ground (arith, h));
}

purge_deleted_lem_example :
    (n : ℕ) × (db' : Db) × (purge_deleted 200 (quiet aged) ≡ (ok n, quiet db'))
    × (2 ≡ n + length db'.messages)
    × IsPurged 200 db'.messages aged.messages
    × IsReferring db'
purge_deleted_lem_example = purge_deleted_lem 200 aged aged-IsReferring

dm_peers_lem_example :
    (peers : List ℕ) × (dm_peers 2 (quiet aged) ≡ (ok peers, quiet aged))
    × (is_distinct peers ≡ true)
    × ((p : ℕ) → mem p peers ≡ any_row (is_between 2 p) aged.messages)
dm_peers_lem_example = dm_peers_lem 2 aged
