-- ===== src/Store/Messages/Rows.antt =====
-- The statements of store.go under "Messages" that insert a row, and how a message is read back.
use terminal_social.Common.{
  ℕ, Bool, true, false, ◌&&◌, [], ◌∷◌, ◌++◌, Option, none, some, ◌==◌, any_row, find_row,
  if◌then◌else◌,
}
use terminal_social.Text.{Bytes}
use terminal_social.Domain.{Message, room, dm, NotificationKind}
use terminal_social.Store.Schema.{
  Db, MessageRow, MentionRow, NotificationRow, next_id, user_exists, room_exists, is_mention_row,
}
use terminal_social.Store.Exec.{constraint, Result, ok, err, done}

-- A column that is a foreign key and may be NULL.
abbrev pub refers : (ℕ → Db → Bool) → Option ℕ → Db → Bool
refers target none db = true
refers target (some n) db = target n db

-- `INSERT INTO messages`, with its foreign keys.
abbrev pub insert_message : (ℕ → MessageRow) → Db → Result (ℕ × Db)
insert_message row db =
    let mid = next_id (λ (m : MessageRow). m.id) db.messages in
    let m = row mid in
    if refers room_exists m.room_id db
      && refers user_exists m.dm_peer_a db
      && refers user_exists m.dm_peer_b db
      && user_exists m.author_id db
    then ok (mid, record db { messages = db.messages ++ m ∷ [] })
    else err constraint

abbrev pub room_message : ℕ → ℕ → Bytes → ℕ → ℕ → MessageRow
room_message rid author body now mid = record {
  id = mid;
  kind = room;
  room_id = some rid;
  dm_peer_a = none;
  dm_peer_b = none;
  author_id = author;
  body = body;
  created_at = now;
  deleted_at = none;
  deleted_by = none;
}

abbrev pub dm_message : ℕ → ℕ → ℕ → Bytes → ℕ → ℕ → MessageRow
dm_message a b author body now mid = record {
  id = mid;
  kind = dm;
  room_id = none;
  dm_peer_a = some a;
  dm_peer_b = some b;
  author_id = author;
  body = body;
  created_at = now;
  deleted_at = none;
  deleted_by = none;
}

-- `INSERT OR IGNORE INTO mentions`.
abbrev pub insert_mention : ℕ → ℕ → Db → Result (Unit {0} × Db)
insert_mention mid uid db =
    let row : MentionRow = record { message_id = mid; user_id = uid } in
    if any_row (is_mention_row mid uid) db.mentions
    then done db
    else if any_row (λ m. m.id == mid) db.messages && user_exists uid db
    then done (record db { mentions = db.mentions ++ row ∷ [] })
    else err constraint

abbrev pub new_notification : ℕ → ℕ → NotificationKind → ℕ → Option ℕ → ℕ → NotificationRow
new_notification nid uid kind mid rid now = record {
  id = nid;
  user_id = uid;
  kind = kind;
  message_id = some mid;
  room_id = rid;
  created_at = now;
  read_at = none;
}

-- `INSERT INTO notifications`.
abbrev pub insert_notification :
    ℕ → ℕ → NotificationKind → ℕ → Option ℕ → Db → Result (Unit {0} × Db)
insert_notification now uid kind mid rid db =
    let nid = next_id (λ (n : NotificationRow). n.id) db.notifications in
    if user_exists uid db && any_row (λ m. m.id == mid) db.messages && refers room_exists rid db
    then done (record db {
      notifications = db.notifications ++ new_notification nid uid kind mid rid now ∷ [];
    })
    else err constraint

-- A row of `messages JOIN users`.
abbrev pub message_of : MessageRow → Bytes → Message
message_of m handle = record {
  id = m.id;
  kind = m.kind;
  room_id = m.room_id;
  dm_peer_a = m.dm_peer_a;
  dm_peer_b = m.dm_peer_b;
  author_id = m.author_id;
  author = handle;
  body = m.body;
  created_at = m.created_at;
  deleted = elim m.deleted_at [ none ↦ false | some _ ↦ true ];
}

abbrev pub with_author : Db → MessageRow → Option Message
with_author db m = elim (find_row (λ u. u.id == m.author_id) db.users) [
  | none ↦ none
  | some u ↦ some (message_of m u.handle)
]

abbrev pub stored_message : ℕ → Db → Option Message
stored_message mid db = elim (find_row (λ m. m.id == mid) db.messages) [
  | none ↦ none
  | some m ↦ with_author db m
]
