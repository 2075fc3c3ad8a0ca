-- ===== src/Tui/Register/Welcome.antt =====
-- What a registration leaves in the store.
use terminal_social.Common.{
  ℕ, ◌≡◌, refl, Bool, true, false, ◌&&◌, [], ◌∷◌, some, inl, inr, arith, ◌==◌, ==_self, any_row,
  find_row, Option-cases, Bool-cases,
}
use terminal_social.Common.Records.Laws.{find_row-any_row, find_row-some, any_row-append}
use terminal_social.Text.{Bytes, bytes_eq, nocase_eq}
use terminal_social.Text.Words.{trim_space}
use terminal_social.Domain.{member}
use terminal_social.Domain.Names.{valid_handle}
use terminal_social.Store.Schema.{Db, RoomRow, is_member_row, is_ban_row, user_exists, room_exists}
use terminal_social.Store.Exec.{
  no_rows, ok, err, Conn, quiet, attempt, pure, query, statement, ◌>>=◌,
}
use terminal_social.Store.Users.{new_user, user_by_handle}
use terminal_social.Store.Users.Lookup
use terminal_social.Store.Users.Lookup.{next_user, create_user_lem}
use terminal_social.Store.Rooms.{is_live, new_member, room_by_name, join_room}
use terminal_social.Store.Rooms.Tables.{join_room-db}
use terminal_social.Tui.Register.{Deps, welcomed, submit_handle}

abbrev named : Bytes → RoomRow → Bool
named name r = nocase_eq r.room.name name && is_live r

-- A user who is there and not banned is a member behind `JoinRoom`.
joined_member :
    (now rid uid : ℕ) (db : Db)
    → any_row (is_ban_row rid uid) db.room_bans ≡ false
    → room_exists rid db ≡ true
    → user_exists uid db ≡ true
    → any_row (is_member_row rid uid) (join_room now rid uid (quiet db)).1.db.room_members ≡ true
joined_member now rid uid db free there known =
    elim (Bool-cases (any_row (is_member_row rid uid) db.room_members)) [
      | inl e ↦ rw (join_room-db now rid uid db, free, e) e
      | inr e ↦
          rw (join_room-db now rid uid db, free, e, there, known)
            (ground (
              arith,
              any_row-append (is_member_row rid uid) db.room_members
                  (new_member rid uid member now ∷ []),
              ==_self rid,
              ==_self uid,
            ))
    ]

no_such_handle :
    (h : Bytes) (db : Db)
    → any_row (λ u. nocase_eq u.handle h) db.users ≡ false
    → user_by_handle h (quiet db) ≡ (err no_rows, quiet db)
unfolding user_by_handle query statement
no_such_handle h db free = elim (Option-cases (find_row (λ u. nocase_eq u.handle h) db.users)) [
  | inl e ↦ rw e refl
  | inr (u, e) ↦
      absurd (ground (arith, find_row-some (λ u. nocase_eq u.handle h) db.users u e, free))
]

found_room :
    (name : Bytes) (db : Db) (r : RoomRow)
    → find_row (named name) db.rooms ≡ some r
    → room_by_name name (quiet db) ≡ (ok r.room, quiet db)
unfolding room_by_name query statement
found_room name db r found = rw found refl

-- On a driver that does not fail: if the text, trimmed and in small letters, is a valid handle that nobody
-- has, the key is new, and the default room is there and has not banned the id of the new user, then
-- `enter` registers a user of that handle, and he is a member of the default room.
pub submit_handle_lem :
    (to_lower : Bytes → Bytes) (now : ℕ) (deps : Deps) (input : Bytes) (db : Db) (r : RoomRow)
    → let h = to_lower (trim_space input) in
      let u = new_user (next_user db) h now in
      valid_handle h ≡ true
      → any_row (λ v. nocase_eq v.handle h) db.users ≡ false
      → any_row (λ k. bytes_eq k.fingerprint deps.fingerprint) db.user_keys ≡ false
      → find_row (named deps.default_room) db.rooms ≡ some r
      → any_row (is_ban_row r.room.id u.id) db.room_bans ≡ false
      → (c : Conn) × (submit_handle to_lower now deps input (quiet db) ≡ (ok (welcomed u), c))
        × (any_row (is_member_row r.room.id u.id) c.db.room_members ≡ true)
unfolding submit_handle attempt ◌>>=◌ pure
submit_handle_lem to_lower now deps input db r valid free new found unbanned =
    let h = to_lower (trim_space input) in
    let uid = next_user db in
    let after = Lookup.registered now h deps.fingerprint deps.public_key db in
    let (made, by_id, by_handle, by_key) =
      create_user_lem now h deps.fingerprint deps.public_key db free new in
    let known : user_exists uid after ≡ true =
      ground (
        arith,
        any_row-append (λ v. v.id == uid) db.users (new_user uid h now ∷ []),
        ==_self uid,
      ) in
    let there : room_exists r.room.id after ≡ true =
      find_row-any_row _ _ db.rooms r found (==_self r.room.id) in
    (
      (join_room now r.room.id uid (quiet after)).1,
      rw (valid, no_such_handle h db free, made, found_room deps.default_room after r found) refl,
      joined_member now r.room.id uid after unbanned there known,
    )
