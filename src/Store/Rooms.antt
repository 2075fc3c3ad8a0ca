-- ===== src/Store/Rooms.antt =====
-- The methods of store.go under "Rooms". `now` is `time.Now().Unix()`.
pub mod Tables
pub mod Separation
pub mod History
use terminal_social.Common.{
  ℕ, ◌≡◌, Bool, true, false, not, ◌&&◌, ◌||◌, List, [], ◌∷◌, ◌++◌, Option, none, some, map, ltb,
  leb, ◌==◌, length, any_row, select, find_row, delete_rows, update_rows, sort_by, if◌then◌else◌,
}
use terminal_social.Text.{Bytes, codes, bytes_eq, nocase_eq, nocase_le}
use terminal_social.Domain.{User, Room, Role, owner, moderator, member, Member, parse_role}
use terminal_social.Domain.Sanitize.{sanitize_user_text}
use terminal_social.Store.Schema.{
  Db, RoomRow, MemberRow, BanRow, next_id, user_exists, room_exists, is_member_row, is_ban_row,
}
use terminal_social.Store.Exec.{
  Error, db_error, constraint, no_rows, banned_from_room, not_member, invalid_role, Result, ok, err,
  Action, pure, fail, statement, query, transaction, attempt, ◌>>=◌, ◌>>◌, reject, or_no_rows, done,
}

-- `deleted_at IS NULL`.
abbrev pub is_live : RoomRow → Bool
is_live r = elim r.deleted_at [ none ↦ true | some _ ↦ false ]

abbrev room_of : Option RoomRow → Option Room
room_of none = none
room_of (some r) = some r.room

unfoldable pub room_by_name : Bytes → Action Room
room_by_name name =
    query (λ db.
      or_no_rows (room_of (find_row (λ r. nocase_eq r.room.name name && is_live r) db.rooms)))

unfoldable pub room_by_id : ℕ → Action Room
room_by_id rid =
    query (λ db. or_no_rows (room_of (find_row (λ r. r.room.id == rid && is_live r) db.rooms)))

abbrev pub new_room : ℕ → Bytes → Bool → ℕ → ℕ → RoomRow
new_room rid name private creator now = record {
  room = record {
    id = rid;
    name = name;
    topic = [];
    is_private = private;
    created_by = creator;
    created_at = now;
  };
  deleted_at = none;
}

-- `INSERT INTO rooms`; the name is unique up to case, also among rooms that are marked as deleted.
abbrev insert_room : ℕ → Bytes → Bool → ℕ → Db → Result (ℕ × Db)
insert_room now name private creator db =
    let rid = next_id (λ (r : RoomRow). r.room.id) db.rooms in
    if any_row (λ r. nocase_eq r.room.name name) db.rooms
    then err constraint
    else if user_exists creator db
    then ok (rid, record db { rooms = db.rooms ++ new_room rid name private creator now ∷ [] })
    else err constraint

abbrev pub new_member : ℕ → ℕ → Role → ℕ → MemberRow
new_member rid uid role now = record { room_id = rid; user_id = uid; role = role; joined_at = now }

abbrev pub add_member : ℕ → ℕ → ℕ → Role → Db → Db
add_member now rid uid role db = record db {
  room_members = db.room_members ++ new_member rid uid role now ∷ [];
}

-- `INSERT INTO room_members`.
abbrev insert_member : ℕ → ℕ → ℕ → Role → Db → Result (Unit {0} × Db)
insert_member now rid uid role db =
    if any_row (is_member_row rid uid) db.room_members
    then err constraint
    else if room_exists rid db && user_exists uid db
    then done (add_member now rid uid role db)
    else err constraint

-- `INSERT OR IGNORE INTO room_members`: a second membership is passed over, a foreign key that does
-- not hold is still an error.
abbrev insert_member_or_ignore : ℕ → ℕ → ℕ → Role → Db → Result (Unit {0} × Db)
insert_member_or_ignore now rid uid role db =
    if any_row (is_member_row rid uid) db.room_members
    then done db
    else if room_exists rid db && user_exists uid db
    then done (add_member now rid uid role db)
    else err constraint

unfoldable pub create_room_tx : ℕ → Bytes → Bool → ℕ → Action ℕ
create_room_tx now name private creator = do
  rid ← statement (insert_room now name private creator)
  statement (insert_member now rid creator owner)
  pure rid

unfoldable pub create_room : ℕ → Bytes → Bool → ℕ → Action Room
create_room now name private creator = do
  rid ← transaction (create_room_tx now name private creator)
  room_by_id rid

abbrev rooms_of : List RoomRow → List Room
rooms_of rs = map (λ r. r.room) (sort_by (λ a b. nocase_le a.room.name b.room.name) rs)

unfoldable pub list_public_rooms : Action (List Room)
list_public_rooms =
    query (λ db. ok (rooms_of (select (λ r. not r.room.is_private && is_live r) db.rooms)))

unfoldable pub list_user_rooms : ℕ → Action (List Room)
list_user_rooms uid = query (λ db. ok (
    rooms_of
      (select (λ r. any_row (is_member_row r.room.id uid) db.room_members && is_live r) db.rooms)))

-- `SELECT COUNT(*) FROM room_bans`.
unfoldable pub count_bans : ℕ → ℕ → Action ℕ
count_bans rid uid = query (λ db. ok (length (select (is_ban_row rid uid) db.room_bans)))

-- `err == nil && banned > 0`.
abbrev known_banned : Result ℕ → Bool
known_banned (ok n) = ltb 0 n
known_banned (err e) = false

unfoldable pub join_room : ℕ → ℕ → ℕ → Action (Unit {0})
join_room now rid uid = do
  banned ← attempt (count_bans rid uid)
  reject (known_banned banned) banned_from_room
  statement (insert_member_or_ignore now rid uid member)

abbrev delete_member : ℕ → ℕ → Db → Result (Unit {0} × Db)
delete_member rid uid db =
    done (record db { room_members = delete_rows (is_member_row rid uid) db.room_members })

unfoldable pub leave_room : ℕ → ℕ → Action (Unit {0})
leave_room rid uid = statement (delete_member rid uid)

abbrev pub role_of : Option MemberRow → Option Role
role_of none = none
role_of (some m) = some m.role

-- `(true, role, nil)` is `some role`, and `(false, "", nil)` is `none`.
unfoldable pub is_member : ℕ → ℕ → Action (Option Role)
is_member rid uid = query (λ db. ok (role_of (find_row (is_member_row rid uid) db.room_members)))

-- A row of `room_members JOIN users`.
abbrev joined_member : Db → MemberRow → List Member
joined_member db m = elim (find_row (λ u. u.id == m.user_id) db.users) [
  | none ↦ []
  | some u ↦
      record { user_id = m.user_id; handle = u.handle; role = m.role; joined_at = m.joined_at } ∷ []
]

abbrev joined_members : Db → List MemberRow → List Member
joined_members db [] = []
joined_members db (m ∷ ms) = joined_member db m ++ joined_members db ms

unfoldable pub room_members : ℕ → Action (List Member)
room_members rid = query (λ db. ok (
    sort_by (λ a b. nocase_le a.handle b.handle)
      (joined_members db (select (λ m. m.room_id == rid) db.room_members))))

abbrev pub has_role : Option Role → Bool
has_role none = false
has_role (some r) = true

-- `if ok, _, err := s.IsMember(…); err != nil { … } else if !ok { … }`.
unfoldable pub require_member : ℕ → ℕ → Action (Unit {0})
require_member rid uid = do role ← is_member rid uid; reject (not (has_role role)) not_member

unfoldable pub room_members_for_user : ℕ → ℕ → Action (List Member)
room_members_for_user uid rid = do require_member rid uid; room_members rid

unfoldable pub set_topic : ℕ → Bytes → Action (Unit {0})
set_topic rid topic = statement (λ db. done (record db {
  rooms =
      update_rows (λ r. r.room.id == rid)
        (λ r. record r { room = record (r.room) { topic = sanitize_user_text topic } }) db.rooms;
}))

unfoldable pub delete_room : ℕ → ℕ → Action (Unit {0})
delete_room now rid = statement (λ db. done (record db {
  rooms = update_rows (λ r. r.room.id == rid) (λ r. record r { deleted_at = some now }) db.rooms;
}))

-- The role that is asked for, if it is one of the three.
unfoldable pub set_role : ℕ → ℕ → Option Role → Action (Unit {0})
set_role rid uid none = fail invalid_role
set_role rid uid (some r) = statement (λ db. done (record db {
  room_members = update_rows (is_member_row rid uid) (λ m. record m { role = r }) db.room_members;
}))

-- `Promote` takes the role as a text.
unfoldable pub promote : ℕ → ℕ → Bytes → Action (Unit {0})
promote rid uid role = set_role rid uid (parse_role role)

abbrev pub new_ban : ℕ → ℕ → ℕ → Bytes → ℕ → BanRow
new_ban rid uid by reason now = record {
  room_id = rid;
  user_id = uid;
  banned_by = by;
  reason = reason;
  banned_at = now;
}

-- `INSERT OR REPLACE INTO room_bans`.
abbrev replace_ban : ℕ → ℕ → ℕ → ℕ → Bytes → Db → Result (Unit {0} × Db)
replace_ban now rid uid by reason db =
    if room_exists rid db && user_exists uid db && user_exists by db
    then done (record db {
      room_bans =
          delete_rows (is_ban_row rid uid) db.room_bans ++ new_ban rid uid by reason now ∷ [];
    })
    else err constraint

unfoldable pub ban_tx : ℕ → ℕ → ℕ → ℕ → Bytes → Action (Unit {0})
ban_tx now rid uid by reason = do
  statement (replace_ban now rid uid by (sanitize_user_text reason))
  statement (delete_member rid uid)

unfoldable pub ban_from_room : ℕ → ℕ → ℕ → ℕ → Bytes → Action (Unit {0})
ban_from_room now rid uid by reason = transaction (ban_tx now rid uid by reason)

unfoldable pub kick_from_room : ℕ → ℕ → Action (Unit {0})
kick_from_room rid uid = statement (delete_member rid uid)

-- Rooms that the user made after the cutoff, also those that are marked as deleted since.
unfoldable pub count_room_creates : ℕ → ℕ → Action ℕ
count_room_creates cutoff uid = query (λ db.
    ok (length (select (λ r. r.room.created_by == uid && ltb cutoff r.room.created_at) db.rooms)))
