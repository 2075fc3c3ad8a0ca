-- ===== src/Store/Rooms/Tables.antt =====
-- What the methods of `Store` for rooms leave in the tables, on every branch, on a driver that does
-- not fail.
use terminal_social.Common.{
  ℕ, ◌≡◌, refl, ap, sym, ◌∙◌, Bool, true, not, ◌&&◌, ◌||◌, List, [], ◌∷◌, ◌++◌, arith, any_row,
  find_row, delete_rows, if◌then◌else◌,
}
use terminal_social.Common.Records.Laws.{length-select}
use terminal_social.Text.{Bytes, nocase_eq}
use terminal_social.Domain.Sanitize.{sanitize_user_text}
use terminal_social.Domain.{owner, member}
use terminal_social.Store.Schema.{
  Db, RoomRow, MemberRow, next_id, room_exists, user_exists, is_member_row, is_ban_row,
}
use terminal_social.Store.Exec.Atomic.{ReadOnly, ReadOnly-bind, ReadOnly-query, ReadOnly-reject}
use terminal_social.Store.Exec.Inversion.{query-then, reject-ok}
use terminal_social.Store.Exec.{
  quiet, ok, Conn, pure, fail, statement, query, transaction, attempt, ◌>>=◌,
}
use terminal_social.Store.Rooms.{
  is_member, require_member, has_role, role_of, add_member, new_room, new_ban, ban_tx,
  create_room_tx, room_by_id, count_bans, create_room, join_room, ban_from_room,
}

-- On a driver that does not fail, a join writes one membership, of the role `member`, if the user is
-- not banned, not yet a member, and the room and the user are there; otherwise it changes no table.
pub join_room-db :
    (now rid uid : ℕ) (db : Db)
    → (join_room now rid uid (quiet db)).1.db ≡ (
        if any_row (is_ban_row rid uid) db.room_bans
          || any_row (is_member_row rid uid) db.room_members
          || not (room_exists rid db && user_exists uid db)
        then db
        else add_member now rid uid member db)
unfolding join_room count_bans attempt ◌>>=◌ pure fail query statement
join_room-db now rid uid db = ground (arith, length-select (is_ban_row rid uid) db.room_bans)

pub create_room-db :
    (now : ℕ) (name : Bytes) (private : Bool) (creator : ℕ) (db : Db)
    → let rid = next_id (λ (r : RoomRow). r.room.id) db.rooms in
      let opened = record db { rooms = db.rooms ++ new_room rid name private creator now ∷ [] } in
      (create_room now name private creator (quiet db)).1.db ≡ (
        if any_row (λ r. nocase_eq r.room.name name) db.rooms
          || not (user_exists creator db)
          || any_row (is_member_row rid creator) db.room_members
          || not (room_exists rid opened)
        then db
        else add_member now rid creator owner opened)
unfolding create_room create_room_tx room_by_id transaction ◌>>=◌ pure fail query statement
create_room-db now name private creator db = ground arith

pub ban_from_room-db :
    (now rid uid by : ℕ) (reason : Bytes) (db : Db)
    → (ban_from_room now rid uid by reason (quiet db)).1.db ≡ (
        if room_exists rid db && user_exists uid db && user_exists by db
        then record db {
          room_bans =
              delete_rows (is_ban_row rid uid) db.room_bans
              ++ new_ban rid uid by (sanitize_user_text reason) now ∷ [];
          room_members = delete_rows (is_member_row rid uid) db.room_members;
        }
        else db)
unfolding ban_from_room ban_tx transaction ◌>>=◌ pure fail query statement
ban_from_room-db now rid uid by reason db = ground arith

-- The two ways in which the source asks for a member agree.
pub known_member-find_row :
    (rid uid : ℕ) (ms : List MemberRow)
    → has_role (role_of (find_row (is_member_row rid uid) ms)) ≡ any_row (is_member_row rid uid) ms
known_member-find_row rid uid [] = refl
known_member-find_row rid uid (m ∷ ms) = ground (arith, known_member-find_row rid uid ms)

-- `RoomMembersForUser`, the histories and the search begin so: only members pass.
pub require_member-ok :
    (rid uid : ℕ) (c c' : Conn) (a : Unit {0})
    → require_member rid uid c ≡ (ok a, c')
    → (any_row (is_member_row rid uid) c.db.room_members ≡ true) × (c'.db ≡ c.db)
unfolding require_member is_member
require_member-ok rid uid c c' a h =
    let (role, c1, found, same, rest) = query-then _ _ c c' a h in
    let (some_role, last) = reject-ok _ _ a c1 c' rest in
    (
      sym (known_member-find_row rid uid c.db.room_members) ∙ ground (arith, found, some_role),
      ap (λ (x : Conn). x.db) last ∙ same,
    )

pub ReadOnly-require_member : (rid uid : ℕ) → ReadOnly (require_member rid uid)
unfolding require_member is_member
ReadOnly-require_member rid uid = ReadOnly-bind _ _ (ReadOnly-query _) (λ role. ReadOnly-reject _ _)
