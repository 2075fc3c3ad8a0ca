-- ===== src/Tests/Sending.antt =====
-- Messages between the users of the small database.
use terminal_social.Common.{
  take, ℕ, ◌≡◌, ◌≢◌, refl, ap, true, false, [], ◌∷◌, some, any_row, update_rows, arith,
}
use terminal_social.Text.{codes}
use terminal_social.Text.Utf8.{encode, encode_rune}
use terminal_social.Domain.{Message}
use terminal_social.Domain.Sanitize.{sanitize_user_text}
use terminal_social.Store.Schema.{Db, user_exists, is_member_row, is_ban_row, is_block_row}
use terminal_social.Store.Exec.{
  not_member, not_allowed, ok, err, quiet, pure, fail, statement, query, ◌>>=◌,
}
use terminal_social.Store.Rooms.{is_member, require_member}
use terminal_social.Store.Messages.{
  room_message, clip, is_empty, message_of, insert_room_message, insert_dm, message_by_id,
  ask_moderator, may_delete, delete_message, delete_message_for_user, is_undeleted, delete_row,
  stored_message,
}
use terminal_social.Store.Messages.Marks.{mark_all}
use terminal_social.Store.Messages.Send.{CanSend, posted, next_message, insert_room_message_lem}
use terminal_social.Store.Messages.Guards.{
  insert_room_message-guard, insert_room_message-refused, insert_dm-guard,
}
use terminal_social.Store.Messages.Direct.{dm_row, delivered, insert_dm_lem}
use terminal_social.Store.Messages.Delete.{
  MayDelete, delete_message_for_user-guard, delete_message_for_user-failed,
}
use terminal_social.Tests.World.{bob, carol, hello, world}
use terminal_social.Tests.Texts.{sanitize_user_text-hello}

sanitized-hello : sanitize_user_text hello ≡ hello
unfolding encode encode_rune
sanitized-hello = sanitize_user_text-hello

pub hello-text : is_empty (sanitize_user_text hello) ≡ false
hello-text = ap is_empty sanitized-hello

-- A member of the room is a user.
member-known :
    (uid : ℕ)
    → any_row (is_member_row 1 uid) world.room_members ≡ true
    → user_exists uid world ≡ true
member-known uid h = ground (arith, h)

pub bob-CanSend : CanSend 1 2 world
bob-CanSend = record { joined = refl; free = refl; members = member-known; room = refl }

-- Bob greets alice, who is the only one notified: carol is no member and bob is the author.
insert_room_message_lem_example :
    insert_room_message 200 1 2 hello (3 ∷ 2 ∷ 1 ∷ []) (quiet world) ≡ (
      ok (
        message_of
            (room_message 1 2 (clip (sanitize_user_text hello)) 200 (next_message world))
            (codes "bob"),
        1 ∷ [],
      ),
      quiet (
          mark_all 200 1
            (next_message world)
            (posted
              (room_message 1 2 (clip (sanitize_user_text hello)) 200 (next_message world))
              world)
            (1 ∷ [])),
    )
insert_room_message_lem_example =
    insert_room_message_lem 200 1 2 hello (3 ∷ 2 ∷ 1 ∷ []) world bob bob-CanSend refl hello-text

insert_room_message-guard_example :
    (any_row (is_member_row 1 2) world.room_members ≡ true)
    × (any_row (is_ban_row 1 2) world.room_bans ≡ false)
    × (is_empty (sanitize_user_text hello) ≡ false)
insert_room_message-guard_example =
    insert_room_message-guard 200 1 2 hello [] (quiet world) _ _
      (insert_room_message_lem 200 1 2 hello [] world bob bob-CanSend refl hello-text)

-- Carol is no member of the room.
carol-refused : insert_room_message 200 1 3 hello [] (quiet world) ≡ (err not_member, quiet world)
unfolding insert_room_message require_member is_member ◌>>=◌ pure fail query statement
carol-refused = refl

insert_room_message-refused_example : world ≡ world
insert_room_message-refused_example =
    insert_room_message-refused 200 1 3 hello [] (quiet world) (quiet world) not_member
      carol-refused (ground arith)

insert_dm_lem_example : insert_dm 200 2 3 hello (quiet world) ≡ (
  ok (
      message_of
        (dm_row 2 3 (take 2000 (sanitize_user_text hello)) 200 (next_message world))
        (codes "bob")),
  quiet (delivered 200 2 3 (take 2000 (sanitize_user_text hello)) world),
)
insert_dm_lem_example =
    insert_dm_lem 200 2 3 hello world bob carol (ground arith) refl refl refl hello-text

insert_dm-guard_example :
    (◌≢◌ {A = ℕ} 2 3)
    × (user_exists 3 world ≡ true)
    × (any_row (is_block_row 3 2) world.blocks ≡ false)
    × (is_empty (sanitize_user_text hello) ≡ false)
insert_dm-guard_example =
    insert_dm-guard 200 2 3 hello (quiet world) _ _
      (insert_dm_lem 200 2 3 hello world bob carol (ground arith) refl refl refl hello-text)

-- Alice, the owner of the room, deletes bob's message.
abbrev without_message : Db
without_message = record world {
  messages = update_rows (is_undeleted 1) (delete_row 200 1) world.messages;
}

alice-deletes : delete_message_for_user 200 1 1 false (quiet world) ≡ (ok tt, quiet without_message)
unfolding delete_message_for_user message_by_id may_delete ask_moderator is_member delete_message
    ◌>>=◌ pure fail query statement
alice-deletes = refl

delete_message_for_user-guard_example :
    (m : Message) × (stored_message 1 world ≡ some m)
    × MayDelete 1 false m.room_id m.author_id world
    × (without_message ≡ without_message)
delete_message_for_user-guard_example =
    delete_message_for_user-guard 200 1 1 false (quiet world) (quiet without_message) tt
      alice-deletes

-- Carol may not.
carol-may_not : delete_message_for_user 200 1 3 false (quiet world) ≡ (err not_allowed, quiet world)
unfolding delete_message_for_user message_by_id may_delete ask_moderator is_member ◌>>=◌ pure fail
    query statement
carol-may_not = refl

delete_message_for_user-failed_example : (quiet world).db ≡ world
delete_message_for_user-failed_example =
    delete_message_for_user-failed 200 1 3 false (quiet world) (quiet world) not_allowed
      carol-may_not
