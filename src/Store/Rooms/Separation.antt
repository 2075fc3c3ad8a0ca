-- ===== src/Store/Rooms/Separation.antt =====
-- Members and bans of internal/store/store.go: the invariant that relates the two tables.
use terminal_social.Common.{
  ℕ, ◌≡◌, refl, ap, sym, ◌∙◌, Bool, true, false, List, [], ◌∷◌, ◌++◌, Option, none, some, inl, inr,
  arith, ◌==◌, any_row, delete_rows, update_rows, Bool-cases, if◌then◌else◌,
}
use terminal_social.Common.Records.Laws.{
  any_row-append, any_row-delete_rows, any_row-delete_rows_self, any_row-update_rows,
}
use terminal_social.Text.{Bytes}
use terminal_social.Domain.Sanitize.{sanitize_user_text}
use terminal_social.Domain.{Role, owner, member}
use terminal_social.Store.Schema.{
  Db, RoomRow, MemberRow, BanRow, empty_db, next_id, room_exists, is_member_row, is_ban_row,
}
use terminal_social.Store.Schema.Keys.{next_id-fresh}
use terminal_social.Store.Exec.{quiet, pure, fail, statement, query, transaction, ◌>>=◌}
use terminal_social.Store.Users.{create_user, create_user_tx, user_by_id}
use terminal_social.Store.Rooms.{
  add_member, new_member, new_room, new_ban, create_room, join_room, ban_from_room, set_role,
}
use terminal_social.Store.Rooms.Tables.{join_room-db, create_room-db, ban_from_room-db}

pub record IsSeparated (db : Db) : Type 0 where
  -- A banned user is no member.
  pub apart :
      (rid uid : ℕ)
      → any_row (is_ban_row rid uid) db.room_bans ≡ true
      → any_row (is_member_row rid uid) db.room_members ≡ false
  -- A ban is of a room that is there.
  pub of_rooms :
      (rid uid : ℕ) → any_row (is_ban_row rid uid) db.room_bans ≡ true → room_exists rid db ≡ true

pub IsSeparated-empty : IsSeparated empty_db
IsSeparated-empty = record { apart = λ rid uid h. refl; of_rooms = λ rid uid h. ground (arith, h) }

ban_same :
    (bans : List BanRow) (rid uid r u : ℕ)
    → rid ≡ r
    → uid ≡ u
    → any_row (is_ban_row rid uid) bans ≡ any_row (is_ban_row r u) bans
ban_same bans rid uid r u h k = rw (h, k)

pub add_member-IsSeparated :
    (now rid uid : ℕ) (role : Role) (db : Db)
    → IsSeparated db
    → any_row (is_ban_row rid uid) db.room_bans ≡ false
    → IsSeparated (add_member now rid uid role db)
add_member-IsSeparated now rid uid role db s free = record {
  apart = λ r u h. ground (
    arith,
    s.apart r u h,
    free,
    ban_same db.room_bans rid uid r u,
    any_row-append (is_member_row r u) db.room_members (new_member rid uid role now ∷ []),
  );
  of_rooms = s.of_rooms;
}

pub if-IsSeparated :
    (b : Bool) {x y : Db} → IsSeparated x → IsSeparated y → IsSeparated (if b then x else y)
if-IsSeparated true h k = h
if-IsSeparated false h k = k

pub join_room-IsSeparated :
    (now rid uid : ℕ) (db : Db)
    → IsSeparated db
    → IsSeparated (join_room now rid uid (quiet db)).1.db
join_room-IsSeparated now rid uid db s =
    rw (join_room-db now rid uid db)
      (elim (Bool-cases (any_row (is_ban_row rid uid) db.room_bans)) [
        | inl banned ↦ rw banned s
        | inr free ↦
            rw free (if-IsSeparated _ s (add_member-IsSeparated now rid uid member db s free))
      ])

pub create_room-IsSeparated :
    (now : ℕ) (name : Bytes) (private : Bool) (creator : ℕ) (db : Db)
    → IsSeparated db
    → IsSeparated (create_room now name private creator (quiet db)).1.db
create_room-IsSeparated now name private creator db s =
    rw (create_room-db now name private creator db)
      (if-IsSeparated _ s (add_member-IsSeparated now rid creator owner opened still no_bans))
  where
    rid : ℕ
    rid = next_id (λ (r : RoomRow). r.room.id) db.rooms

    opened : Db
    opened = record db { rooms = db.rooms ++ new_room rid name private creator now ∷ [] }

    still : IsSeparated opened
    still = record {
      apart = s.apart;
      of_rooms = λ r u h. ground (
        arith,
        s.of_rooms r u h,
        any_row-append (λ x. x.room.id == r) db.rooms (new_room rid name private creator now ∷ []),
      );
    }

    no_bans : any_row (is_ban_row rid creator) db.room_bans ≡ false
    no_bans =
        ground (arith, s.of_rooms rid creator, next_id-fresh (λ (r : RoomRow). r.room.id) db.rooms)

pub delete_member-IsSeparated :
    (rid uid : ℕ) (db : Db)
    → IsSeparated db
    → IsSeparated (record db { room_members = delete_rows (is_member_row rid uid) db.room_members })
delete_member-IsSeparated rid uid db s = record {
  apart = λ r u h. ground (
    arith,
    s.apart r u h,
    any_row-delete_rows (is_member_row r u) (is_member_row rid uid) db.room_members,
  );
  of_rooms = s.of_rooms;
}

member_same :
    (members : List MemberRow) (rid uid r u : ℕ)
    → rid ≡ r
    → uid ≡ u
    → any_row (is_member_row r u) (delete_rows (is_member_row rid uid) members) ≡ false
member_same members rid uid r u h k =
    rw (h, k) (any_row-delete_rows_self (is_member_row r u) members)

room_same : (db : Db) (rid r : ℕ) → rid ≡ r → room_exists rid db ≡ room_exists r db
room_same db rid r h = rw h

pub ban-IsSeparated :
    (now rid uid by : ℕ) (reason : Bytes) (db : Db)
    → IsSeparated db
    → room_exists rid db ≡ true
    → IsSeparated (record db {
      room_bans =
          delete_rows (is_ban_row rid uid) db.room_bans ++ new_ban rid uid by reason now ∷ [];
      room_members = delete_rows (is_member_row rid uid) db.room_members;
    })
ban-IsSeparated now rid uid by reason db s there = record {
  apart = λ r u h. ground (
    arith,
    h,
    s.apart r u,
    any_row-append (is_ban_row r u) (delete_rows (is_ban_row rid uid) db.room_bans)
        (new_ban rid uid by reason now ∷ []),
    any_row-delete_rows (is_ban_row r u) (is_ban_row rid uid) db.room_bans,
    any_row-delete_rows (is_member_row r u) (is_member_row rid uid) db.room_members,
    member_same db.room_members rid uid r u,
  );
  of_rooms = λ r u h. ground (
    arith,
    h,
    there,
    s.of_rooms r u,
    room_same db rid r,
    any_row-append (is_ban_row r u) (delete_rows (is_ban_row rid uid) db.room_bans)
        (new_ban rid uid by reason now ∷ []),
    any_row-delete_rows (is_ban_row r u) (is_ban_row rid uid) db.room_bans,
  );
}

pub ban_from_room-IsSeparated :
    (now rid uid by : ℕ) (reason : Bytes) (db : Db)
    → IsSeparated db
    → IsSeparated (ban_from_room now rid uid by reason (quiet db)).1.db
ban_from_room-IsSeparated now rid uid by reason db s =
    rw (ban_from_room-db now rid uid by reason db) (elim (Bool-cases (room_exists rid db)) [
      | inl there ↦ rw there (
          if-IsSeparated _ (ban-IsSeparated now rid uid by (sanitize_user_text reason) db s there)
            s)
      | inr gone ↦ rw gone s
    ])

pub update_rooms-IsSeparated :
    (p : RoomRow → Bool) (f : RoomRow → RoomRow) (db : Db)
    → ((r : RoomRow) → (f r).room.id ≡ r.room.id)
    → IsSeparated db
    → IsSeparated (record db { rooms = update_rows p f db.rooms })
update_rooms-IsSeparated p f db same s = record {
  apart = s.apart;
  of_rooms = λ r u h.
      any_row-update_rows (λ x. x.room.id == r) p f db.rooms (λ x. ap (λ n. n == r) (same x))
      ∙ s.of_rooms r u h;
}

pub update_members-IsSeparated :
    (p : MemberRow → Bool) (role : Role) (db : Db)
    → IsSeparated db
    → IsSeparated
        (record db { room_members = update_rows p (λ m. record m { role = role }) db.room_members })
update_members-IsSeparated p role db s = record {
  apart = λ r u h.
      any_row-update_rows (is_member_row r u) p (λ m. record m { role = role }) db.room_members
        (λ x. refl)
      ∙ s.apart r u h;
  of_rooms = s.of_rooms;
}

pub set_role-IsSeparated :
    (rid uid : ℕ) (role : Option Role) (db : Db)
    → IsSeparated db
    → IsSeparated (set_role rid uid role (quiet db)).1.db
unfolding set_role statement fail
set_role-IsSeparated rid uid none db s = s
set_role-IsSeparated rid uid (some r) db s =
    update_members-IsSeparated (is_member_row rid uid) r db s

create_user-rest :
    (now : ℕ) (handle fingerprint key : Bytes) (db : Db)
    → let after = (create_user now handle fingerprint key (quiet db)).1.db in
      (after.rooms ≡ db.rooms)
      × (after.room_members ≡ db.room_members)
      × (after.room_bans ≡ db.room_bans)
unfolding create_user create_user_tx user_by_id transaction ◌>>=◌ pure fail query statement
create_user-rest now handle fingerprint key db = (ground arith, ground arith, ground arith)

pub create_user-IsSeparated :
    (now : ℕ) (handle fingerprint key : Bytes) (db : Db)
    → IsSeparated db
    → IsSeparated (create_user now handle fingerprint key (quiet db)).1.db
create_user-IsSeparated now handle fingerprint key db s =
    let (rooms, members, banned) = create_user-rest now handle fingerprint key db in
    record {
      apart = λ r u h.
          ap (any_row (is_member_row r u)) members
          ∙ s.apart r u (ap (any_row (is_ban_row r u)) (sym banned) ∙ h);
      of_rooms = λ r u h.
          ap (any_row (λ x. x.room.id == r)) rooms
          ∙ s.of_rooms r u (ap (any_row (is_ban_row r u)) (sym banned) ∙ h);
    }
