-- ===== src/Tui/Commands/Removal.antt =====
-- `/kick` and `/ban`: who may use them, and what they bring about in the store and on the hub.
use terminal_social.Common.{
  ℕ, ◌≡◌, refl, ap, ◌⊎◌, Bool, true, false, not, ◌&&◌, ◌||◌, List, [], ◌∷◌, Option, none, some, inl,
  inr, arith, ==_self, any_row, find_row, delete_rows, Option-cases, Bool-cases, if◌then◌else◌,
}
use terminal_social.Common.Records.Laws.{find_row-any_row, any_row-append, any_row-delete_rows_self}
use terminal_social.Text.{Bytes, codes, nocase_eq}
use terminal_social.Text.Words.{join}
use terminal_social.Domain.{User, Role, owner, moderator, member}
use terminal_social.Domain.Sanitize.{sanitize_user_text}
use terminal_social.Store.Schema.{
  Db, MemberRow, is_member_row, is_ban_row, user_exists, room_exists,
}
use terminal_social.Store.Exec.{ok, Conn, quiet, query, statement, faulty, or_no_rows}
use terminal_social.Store.Exec.Inversion.{query-quiet}
use terminal_social.Store.Users.{user_by_handle}
use terminal_social.Store.Rooms.{role_of, is_member, ban_from_room, kick_from_room, new_ban}
use terminal_social.Store.Rooms.Tables.{ban_from_room-db}
use terminal_social.Hub.Consistency.{
  IsConsistent, remove_user_from_room-Survives, publish_room-Survives,
}
use terminal_social.Hub.Consistency.Removal.{
  HasNoneOf, remove_user_from_room-HasNoneOf, publish_room-HasNoneOf,
}
use terminal_social.Tui.{Screen, Library, Cmd, flash, applied, is_room}
use terminal_social.Tui.Ui.{ran, give, call, look, tell, ◌>>=◌, value_or}
use terminal_social.Tui.Commands.Rooms.{
  is_mod, handle_arg, own_role, announce, meta_event, remove_first, remove_cmd,
}

-- By the table of members, a moderator or the owner of the room.
abbrev pub IsModOf : ℕ → ℕ → Db → Type 0
IsModOf rid uid db =
    (m : MemberRow) × (find_row (is_member_row rid uid) db.room_members ≡ some m)
    × ((m.role ≡ owner) ⊎ (m.role ≡ moderator))

is_mod-role : (r : Role) → is_mod (some r) ≡ true → (r ≡ owner) ⊎ (r ≡ moderator)
is_mod-role owner h = inl refl
is_mod-role moderator h = inr refl
is_mod-role member h = absurd (ground (arith, h))

known_role :
    (rid uid : ℕ) (c : Conn)
    → is_mod (value_or none (is_member rid uid c).0) ≡ true
    → IsModOf rid uid c.db
unfolding is_member query statement
known_role rid uid c h = elim (Bool-cases (faulty c)) [
  | inl e ↦ absurd (ground (arith, e, h))
  | inr e ↦ elim (Option-cases (find_row (is_member_row rid uid) c.db.room_members)) [
    | inl k ↦ absurd (ground (arith, e, k, h))
    | inr (m, k) ↦ (m, k, is_mod-role m.role (ground (arith, e, k, h)))
  ]
]

is_member-db : (rid uid : ℕ) (c : Conn) → (is_member rid uid c).1.db ≡ c.db
unfolding is_member query statement
is_member-db rid uid c = ground arith

module _ (lib : Library) where
  -- Whatever calls of the database fail on the way: `/kick` and `/ban` change no table and nothing on the
  -- hub, unless a room is shown and the user is an admin or, by the table of members, the owner or a
  -- moderator of that room.
  pub remove_cmd-guard :
      (ban : Bool) (cmd : Bytes) (args : List Bytes) (s t : Screen) (c : Cmd)
      → remove_cmd lib ban cmd args s ≡ ran (c, t)
      → ((t.hub ≡ s.hub) × (t.conn.db ≡ s.conn.db))
        ⊎ ((is_room s.app.current ≡ true)
            × ((s.app.user.is_admin ≡ true)
                ⊎ IsModOf s.app.current_room_id s.app.user.id s.conn.db))
  unfolding remove_cmd own_role ◌>>=◌ look call give
  remove_cmd-guard ban cmd args s t c h = elim (Bool-cases (is_room s.app.current)) [
    | inl e ↦ first args (rw e at h) e
    | inr e ↦ inl (ground (arith, e, h))
  ]
    where
      role : Option Role
      role = value_or none (is_member s.app.current_room_id s.app.user.id s.conn).0

      first :
          (args : List Bytes)
          → remove_first lib ban cmd args s ≡ ran (c, t)
          → is_room s.app.current ≡ true
          → ((t.hub ≡ s.hub) × (t.conn.db ≡ s.conn.db))
            ⊎ ((is_room s.app.current ≡ true)
                × ((s.app.user.is_admin ≡ true)
                    ⊎ IsModOf s.app.current_room_id s.app.user.id s.conn.db))
      first [] k e = inl (ground (arith, k))
      first (arg ∷ args) k e = elim (Bool-cases (is_mod role)) [
        | inl r ↦ inr (e, inr (known_role s.app.current_room_id s.app.user.id s.conn r))
        | inr r ↦ elim (Bool-cases s.app.user.is_admin) [
          | inl a ↦ inr (e, inl a)
          | inr a ↦
              let k' = rw (r, a) at k in
              inl (
                ground (arith, k'),
                ground (arith, k', is_member-db s.app.current_room_id s.app.user.id s.conn),
              )
        ]
      ]

-- The statement that `/kick` or `/ban` runs.
abbrev removes : Bool → ℕ → ℕ → ℕ → ℕ → Bytes → Conn → Conn
removes ban now rid uid by reason c =
    ((if ban then ban_from_room now rid uid by reason else kick_from_room rid uid) c).1

removes-members :
    (ban : Bool) (now rid uid by : ℕ) (reason : Bytes) (db : Db)
    → room_exists rid db ≡ true
    → user_exists uid db ≡ true
    → user_exists by db ≡ true
    → let after = (removes ban now rid uid by reason (quiet db)).db in
      (any_row (is_member_row rid uid) after.room_members ≡ false)
      × (ban ≡ true → any_row (is_ban_row rid uid) after.room_bans ≡ true)
unfolding kick_from_room statement
removes-members true now rid uid by reason db h k l =
    rw (ban_from_room-db now rid uid by reason db, h, k, l)
      (
        any_row-delete_rows_self (is_member_row rid uid) db.room_members,
        λ _. ground (
          arith,
          any_row-append (is_ban_row rid uid) (delete_rows (is_ban_row rid uid) db.room_bans)
              (new_ban rid uid by (sanitize_user_text reason) now ∷ []),
          ==_self rid,
          ==_self uid,
        ),
      )
removes-members false now rid uid by reason db h k l = (
  any_row-delete_rows_self (is_member_row rid uid) db.room_members,
  λ e. absurd (ground (arith, e)),
)

user_by_handle-quiet :
    (handle : Bytes) (db : Db) (u : User)
    → find_row (λ v. nocase_eq v.handle handle) db.users ≡ some u
    → user_by_handle handle (quiet db) ≡ (ok u, quiet db)
unfolding user_by_handle
user_by_handle-quiet handle db u found = query-quiet _ db u (ap or_no_rows found)

module _ (lib : Library) where
  -- On a driver that does not fail and a consistent hub: if a room is shown that is there, the user is in
  -- the table of users and an admin, or the owner or a moderator of the room, and the handle is some
  -- user's, then `/kick` and `/ban` do not panic and report that they are applied. The target is no member
  -- of the room afterwards, no subscription of his is in the room on the hub, and `/ban` has banned him.
  pub remove_cmd_lem :
      (ban : Bool) (cmd arg : Bytes) (args : List Bytes) (s : Screen) (db : Db) (u : User)
      → let rid = s.app.current_room_id in
        let by = s.app.user in
        IsConsistent s.hub
        → is_room s.app.current ≡ true
        → (is_mod (role_of (find_row (is_member_row rid by.id) db.room_members)) || by.is_admin)
          ≡ true
        → room_exists rid db ≡ true
        → user_exists by.id db ≡ true
        → find_row (λ v. nocase_eq v.handle (handle_arg lib arg)) db.users ≡ some u
        → (t : Screen) × (remove_cmd lib ban cmd (arg ∷ args) (record s { conn = quiet db })
            ≡ ran (flash (applied cmd), t))
          × (any_row (is_member_row rid u.id) t.conn.db.room_members ≡ false)
          × HasNoneOf u.id rid t.hub
          × (ban ≡ true → any_row (is_ban_row rid u.id) t.conn.db.room_bans ≡ true)
  unfolding remove_cmd own_role announce ◌>>=◌ look call give tell is_member query statement
  remove_cmd_lem ban cmd arg args s db u c shown mod_ there known found =
      let rid = s.app.current_room_id in
      let by = s.app.user.id in
      let reason = join (codes " ") args in
      let (h1, e1, c1) = remove_user_from_room-Survives u.id rid s.hub c in
      let (h2, e2, c2) = publish_room-Survives rid (meta_event rid) h1 c1 in
      let after = removes ban s.now rid u.id by reason (quiet db) in
      let asked : user_by_handle (handle_arg lib arg) (quiet db) ≡ (ok u, quiet db) =
        user_by_handle-quiet (handle_arg lib arg) db u found in
      let target : user_exists u.id db ≡ true =
        find_row-any_row _ _ db.users u found (==_self u.id) in
      let (out, banned) = removes-members ban s.now rid u.id by reason db there target known in
      let allowed : (not (is_mod (role_of (find_row (is_member_row rid by) db.room_members)))
            && not s.app.user.is_admin)
          ≡ false =
        ground (arith, mod_) in
      (
        record s { conn = after; hub = h2 },
        rw (shown, allowed, asked, e1, e2) refl,
        out,
        publish_room-HasNoneOf u.id rid rid (meta_event rid) h1 h2 e2
            (remove_user_from_room-HasNoneOf u.id rid s.hub h1 e1),
        banned,
      )
