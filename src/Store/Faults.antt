-- ===== src/Store/Faults.antt =====
-- What the methods do when the driver fails at an inconvenient call.
use terminal_social.Common.{ℕ, ◌≡◌, true, false, [], ◌∷◌, arith, any_row}
use terminal_social.Common.Records.Laws.{length-select}
use terminal_social.Text.{Bytes}
use terminal_social.Domain.{member}
use terminal_social.Domain.Sanitize.{sanitize_user_text}
use terminal_social.Store.Schema.{Db, user_exists, room_exists, is_member_row, is_ban_row}
use terminal_social.Store.Exec.{
  db_error, ok, err, Conn, quiet, pure, fail, statement, query, transaction, attempt, ◌>>=◌,
}
use terminal_social.Store.Rooms.{join_room, count_bans, add_member, is_member, require_member}
use terminal_social.Store.Rooms.Tables.{known_member-find_row}
use terminal_social.Store.Messages.{
  room_message, clip, is_empty, insert_room_message, store_room_message, room_message_tx,
  notify_mentions, message_by_id,
}
use terminal_social.Store.Messages.Send.{CanSend, next_message, posted}

-- The query that counts the bans fails and the next statement does not.
abbrev pub ban_query_fails : Db → Conn
ban_query_fails db = record { db = db; faults = true ∷ [] }

-- If the query that counts the bans fails, the join goes on as if there were none: any user, banned or
-- not, who is not yet a member becomes a member of the room.
pub join_room-unchecked :
    (now rid uid : ℕ) (db : Db)
    → any_row (is_member_row rid uid) db.room_members ≡ false
    → room_exists rid db ≡ true
    → user_exists uid db ≡ true
    → join_room now rid uid (ban_query_fails db) ≡ (ok tt, quiet (add_member now rid uid member db))
unfolding join_room count_bans attempt ◌>>=◌ pure fail query statement
join_room-unchecked now rid uid db new there known = ground (arith, new, there, known)

-- The last call of a send, which reads the stored message back, fails.
abbrev pub read_back_fails : Db → Conn
read_back_fails db = record { db = db; faults = false ∷ false ∷ false ∷ false ∷ false ∷ true ∷ [] }

-- If a user who may send to the room sends a text that names nobody and is not empty once it is
-- sanitized, and of the calls of the driver only the sixth fails, the read behind the commit, the
-- sender gets the error of the driver although his message is stored.
pub insert_room_message-stored_yet_failed :
    (now rid author : ℕ) (body : Bytes) (db : Db)
    → CanSend rid author db
    → is_empty (sanitize_user_text body) ≡ false
    → insert_room_message now rid author body [] (read_back_fails db) ≡ (
      err db_error,
      quiet (
          posted
            (room_message rid author (clip (sanitize_user_text body)) now (next_message db))
            db),
    )
unfolding insert_room_message store_room_message room_message_tx notify_mentions message_by_id
    require_member is_member count_bans transaction attempt ◌>>=◌ pure fail query statement
insert_room_message-stored_yet_failed now rid author body db h text = ground (
  arith,
  h.joined,
  h.free,
  h.room,
  h.members author,
  text,
  known_member-find_row rid author db.room_members,
  length-select (is_ban_row rid author) db.room_bans,
)
