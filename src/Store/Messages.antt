-- ===== src/Store/Messages.antt =====
-- The methods of store.go under "Messages" that write or fetch one message. `now` is
-- `time.Now().Unix()`.
mod Rows
pub mod Marks
pub mod Send
pub mod Guards
pub mod Direct
pub mod Delete
pub use Rows.*
use terminal_social.Common.{
  ℕ, Bool, true, false, not, ◌&&◌, ◌||◌, List, [], ◌∷◌, ◌++◌, Option, none, some, ltb, ◌==◌, length,
  take, any_row, select, find_row, delete_rows, update_rows, if◌then◌else◌,
}
use terminal_social.Text.{Bytes}
use terminal_social.Domain.{
  User, Role, owner, moderator, member, Message, MessageKind, room, dm, NotificationKind,
  mention_kind, dm_kind, max_body, dm_key,
}
use terminal_social.Domain.Sanitize.{sanitize_user_text}
use terminal_social.Store.Schema.{
  Db, MessageRow, MentionRow, NotificationRow, next_id, holds, user_exists, room_exists,
  is_mention_row,
}
use terminal_social.Store.Exec.{
  Error, constraint, no_rows, banned_from_room, not_member, empty_message, dm_to_self,
  recipient_not_found, dm_blocked, invalid_room_message, invalid_dm, not_allowed, Result, ok, err,
  Action, pure, fail, statement, query, transaction, attempt, ◌>>=◌, ◌>>◌, reject, or_no_rows, done,
}
use terminal_social.Store.Users.{user_by_id}
use terminal_social.Store.Rooms.{is_member, require_member, count_bans}
use terminal_social.Store.Blocks.{is_blocked}

unfoldable pub message_by_id : ℕ → Action Message
message_by_id mid = query (λ db. or_no_rows (stored_message mid db))

-- `len(body) > domain.MaxBody` counts bytes, and `body[:domain.MaxBody]` cuts at a byte.
abbrev pub clip : Bytes → Bytes
clip body = if ltb max_body (length body) then take max_body body else body

-- `body == ""`.
abbrev pub is_empty : Bytes → Bool
is_empty [] = true
is_empty (b ∷ bs) = false

-- `err != nil || !ok`.
abbrev pub known_member : Result (Option Role) → Bool
known_member (ok (some r)) = true
known_member (ok none) = false
known_member (err e) = false

-- The mention and the notification of one user.
unfoldable pub notify_one : ℕ → ℕ → ℕ → ℕ → Action (Unit {0})
notify_one now rid mid uid = do
  statement (insert_mention mid uid)
  statement (insert_notification now uid mention_kind mid (some rid))

-- The loop over `mentions`: the author and those who are no members are passed over. The source asks
-- `IsMember` outside the transaction, which does not write to the members.
unfoldable pub notify_mentions : ℕ → ℕ → ℕ → ℕ → List ℕ → Action (List ℕ)
notify_mentions now rid author mid [] = pure []
notify_mentions now rid author mid (uid ∷ uids) =
    let rest = notify_mentions now rid author mid uids in
    if uid == author then rest else do
      joined ← attempt (is_member rid uid)
      if known_member joined
          then (do notify_one now rid mid uid; notified ← rest; pure (uid ∷ notified))
          else rest

unfoldable pub room_message_tx : ℕ → ℕ → ℕ → Bytes → List ℕ → Action (ℕ × List ℕ)
room_message_tx now rid author body mentions = do
  mid ← statement (insert_message (room_message rid author body now))
  notified ← notify_mentions now rid author mid mentions
  pure (mid, notified)

-- What `InsertRoomMessage` does once the author may write.
unfoldable pub store_room_message : ℕ → ℕ → ℕ → Bytes → List ℕ → Action (Message × List ℕ)
store_room_message now rid author body mentions = do
  (mid, notified) ← transaction (room_message_tx now rid author body mentions)
  msg ← message_by_id mid
  pure (msg, notified)

unfoldable pub insert_room_message : ℕ → ℕ → ℕ → Bytes → List ℕ → Action (Message × List ℕ)
insert_room_message now rid author body mentions = do
  require_member rid author
  banned ← count_bans rid author
  reject (ltb 0 banned) banned_from_room
  reject (is_empty (sanitize_user_text body)) empty_message
  store_room_message now rid author (clip (sanitize_user_text body)) mentions

unfoldable pub dm_tx : ℕ → ℕ → ℕ → Bytes → Action ℕ
dm_tx now author peer body = do
  let key = dm_key author peer
  mid ← statement (insert_message (dm_message key.0 key.1 author body now))
  statement (insert_notification now peer dm_kind mid none)
  pure mid

unfoldable pub store_dm : ℕ → ℕ → ℕ → Bytes → Action Message
store_dm now author peer body = do mid ← transaction (dm_tx now author peer body); message_by_id mid

-- Any error of `UserByID` is reported as a missing recipient.
abbrev pub is_error {ℓ} : {A : Type ℓ} → Result A → Bool
is_error (ok a) = false
is_error (err e) = true

unfoldable pub insert_dm : ℕ → ℕ → ℕ → Bytes → Action Message
insert_dm now author peer body = do
  reject (author == peer) dm_to_self
  recipient ← attempt (user_by_id peer)
  reject (is_error recipient) recipient_not_found
  blocked ← is_blocked peer author
  reject blocked dm_blocked
  reject (is_empty (sanitize_user_text body)) empty_message
  store_dm now author peer (clip (sanitize_user_text body))

abbrev pub read_room : ℕ → Option ℕ → Action (Unit {0})
read_room uid none = fail invalid_room_message
read_room uid (some rid) = require_member rid uid

abbrev pub read_dm : ℕ → Option ℕ → Option ℕ → Action (Unit {0})
read_dm uid none b = fail invalid_dm
read_dm uid (some a) none = fail invalid_dm
read_dm uid (some a) (some b) = reject (not (a == uid) && not (b == uid)) not_allowed

-- `canReadMessage`. The schema admits the two kinds alone, so `invalid message kind` has no case.
unfoldable pub can_read_message : ℕ → Message → Action (Unit {0})
can_read_message uid msg = elim msg.kind [
  | room ↦ read_room uid msg.room_id
  | dm ↦ read_dm uid msg.dm_peer_a msg.dm_peer_b
]

unfoldable pub message_by_id_for_user : ℕ → ℕ → Action Message
message_by_id_for_user uid mid = do msg ← message_by_id mid; can_read_message uid msg; pure msg

abbrev pub delete_row : ℕ → ℕ → MessageRow → MessageRow
delete_row now by m = record m { deleted_at = some now; deleted_by = some by }

-- `WHERE id=? AND deleted_at IS NULL`.
abbrev pub is_undeleted : ℕ → MessageRow → Bool
is_undeleted mid m = m.id == mid && (elim m.deleted_at [ none ↦ true | some _ ↦ false ])

-- `UPDATE messages`; the foreign key `deleted_by` is looked at if a row is changed.
unfoldable pub delete_message : ℕ → ℕ → ℕ → Action (Unit {0})
delete_message now mid by = statement (λ db.
    if any_row (is_undeleted mid) db.messages && not (user_exists by db)
    then err constraint
    else done
        (record db { messages = update_rows (is_undeleted mid) (delete_row now by) db.messages }))

-- `role != domain.RoleOwner && role != domain.RoleModerator`.
abbrev pub no_moderator : Option Role → Bool
no_moderator (some owner) = false
no_moderator (some moderator) = false
no_moderator (some member) = true
no_moderator none = true

-- The owner and the moderators of the message's room; a direct message has no room.
unfoldable pub ask_moderator : ℕ → Option ℕ → Action (Unit {0})
ask_moderator by none = fail not_allowed
ask_moderator by (some rid) = do role ← is_member rid by; reject (no_moderator role) not_allowed

-- The author and an admin are not asked for a role.
unfoldable pub may_delete : ℕ → Bool → Message → Action (Unit {0})
may_delete by is_admin msg =
    if not (msg.author_id == by) && not is_admin then ask_moderator by msg.room_id else pure tt

unfoldable pub delete_message_for_user : ℕ → ℕ → ℕ → Bool → Action (Unit {0})
delete_message_for_user now mid by is_admin = do
  msg ← message_by_id mid
  may_delete by is_admin msg
  delete_message now mid by
