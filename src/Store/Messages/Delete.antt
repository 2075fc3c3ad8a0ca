-- ===== src/Store/Messages/Delete.antt =====
-- Who may delete a message, and what the deletion changes.
use terminal_social.Common.{
  ℕ, ◌≡◌, refl, ap, sym, subst, ◌∙◌, ◌⊎◌, Bool, true, false, not, ◌&&◌, Option, none, some, inl,
  inr, arith, ◌==◌, find_row, update_rows, Bool-cases, if◌then◌else◌,
}
use terminal_social.Domain.{Message, Role, owner, moderator, member}
use terminal_social.Store.Schema.{Db, is_member_row}
use terminal_social.Store.Exec.{Error, constraint, done, Result, ok, err, Conn, Action, pure}
use terminal_social.Store.Exec.Atomic.{
  ReadOnly, AnyError, ReadOnly-bind, ReadOnly-query, ReadOnly-reject, ReadOnly-pure, ReadOnly-fail,
  Restores-bind, Restores-statement,
}
use terminal_social.Store.Exec.Inversion.{
  or_no_rows-ok, reject-ok, fail-ok, >>=-ok, query-then, statement-ok,
}
use terminal_social.Store.Rooms.{is_member, role_of}
use terminal_social.Store.Messages.{
  stored_message, message_by_id, is_undeleted, delete_row, no_moderator, ask_moderator, may_delete,
  delete_message, delete_message_for_user,
}

-- The role of a user in a room, if he is a member.
abbrev pub role_in : ℕ → ℕ → Db → Option Role
role_in rid uid db = role_of (find_row (is_member_row rid uid) db.room_members)

-- The author of the message, an admin, or the owner or a moderator of its room.
abbrev pub MayDelete : ℕ → Bool → Option ℕ → ℕ → Db → Type 0
MayDelete by is_admin rid author db =
    (author ≡ by)
    ⊎ (is_admin ≡ true)
    ⊎ ((r : ℕ) × (rid ≡ some r)
        × ((role_in r by db ≡ some owner) ⊎ (role_in r by db ≡ some moderator)))

no_moderator-false :
    (r : Option Role) → no_moderator r ≡ false → (r ≡ some owner) ⊎ (r ≡ some moderator)
no_moderator-false none h = absurd (ground (arith, h))
no_moderator-false (some owner) h = inl refl
no_moderator-false (some moderator) h = inr refl
no_moderator-false (some member) h = absurd (ground (arith, h))

ask_moderator-ok :
    (by : ℕ) (rid : Option ℕ) (c c' : Conn) (a : Unit {0})
    → ask_moderator by rid c ≡ (ok a, c')
    → ((r : ℕ) × (rid ≡ some r)
        × ((role_in r by c.db ≡ some owner) ⊎ (role_in r by c.db ≡ some moderator)))
      × (c'.db ≡ c.db)
unfolding ask_moderator is_member
ask_moderator-ok by none c c' a h = absurd (fail-ok _ a c c' h)
ask_moderator-ok by (some r) c c' a h =
    let (role, c1, found, same, rest) = query-then _ _ c c' a h in
    let (moderates, last) = reject-ok _ _ a c1 c' rest in
    (
      (r, refl, no_moderator-false _ (ground (arith, found, moderates))),
      ap (λ (x : Conn). x.db) last ∙ same,
    )

may_delete-ok :
    (by : ℕ) (is_admin : Bool) (m : Message) (c c' : Conn) (a : Unit {0})
    → may_delete by is_admin m c ≡ (ok a, c')
    → MayDelete by is_admin m.room_id m.author_id c.db × (c'.db ≡ c.db)
unfolding may_delete pure
may_delete-ok by is_admin m c c' a h = elim (Bool-cases (not (m.author_id == by) && not is_admin)) [
  | inl e ↦
      let (moderates, same) = ask_moderator-ok by m.room_id c c' a (rw e at h) in
      (inr (inr moderates), same)
  | inr e ↦ (ground (arith, e), ground (arith, e, h))
]

checked-ok :
    (b : Bool) (db db' : Db) (a : Unit {0})
    → (if b then err constraint else done db) ≡ ok (a, db')
    → db' ≡ db
checked-ok true db db' a h = absurd (ground (arith, h))
checked-ok false db db' a h = ground (arith, h)

ReadOnly-ask_moderator : (by : ℕ) (rid : Option ℕ) → ReadOnly (ask_moderator by rid)
unfolding ask_moderator is_member
ReadOnly-ask_moderator by none = ReadOnly-fail _
ReadOnly-ask_moderator by (some r) =
    ReadOnly-bind _ _ (ReadOnly-query _) (λ role. ReadOnly-reject _ _)

ReadOnly-if :
    (b : Bool) (m n : Action (Unit {0})) → ReadOnly m → ReadOnly n → ReadOnly (if b then m else n)
ReadOnly-if true m n h k = h
ReadOnly-if false m n h k = k

ReadOnly-may_delete : (by : ℕ) (is_admin : Bool) (m : Message) → ReadOnly (may_delete by is_admin m)
unfolding may_delete
ReadOnly-may_delete by is_admin m =
    ReadOnly-if _ _ _ (ReadOnly-ask_moderator by m.room_id) (ReadOnly-pure tt)

-- Whatever calls of the database fail on the way: a deletion that succeeds is of a message that was
-- there, by its author, by an admin, or by the owner or a moderator of the room it was sent to, and it
-- changes nothing but the marks of that message, which keeps the time and the name of an earlier
-- deletion.
pub delete_message_for_user-guard :
    (now mid by : ℕ) (is_admin : Bool) (c c' : Conn) (a : Unit {0})
    → delete_message_for_user now mid by is_admin c ≡ (ok a, c')
    → (m : Message) × (stored_message mid c.db ≡ some m)
      × MayDelete by is_admin m.room_id m.author_id c.db
      × (c'.db ≡ record (c.db) {
        messages = update_rows (is_undeleted mid) (delete_row now by) c.db.messages;
      })
unfolding delete_message_for_user message_by_id delete_message
delete_message_for_user-guard now mid by is_admin c c' a h =
    let (m, c1, found, same, h1) = query-then _ _ c c' a h in
    let (b, c2, asked, h2) = >>=-ok (may_delete by is_admin m) _ c1 c' a h1 in
    let (may, same2) = may_delete-ok by is_admin m c1 c2 b asked in
    let (quiet_now, wrote) = statement-ok _ c2 c' a h2 in
    (
      m,
      or_no_rows-ok _ m found,
      subst (λ db. MayDelete by is_admin m.room_id m.author_id db) same may,
      checked-ok _ _ _ a wrote
          ∙ ap
              (λ (db : Db). record db {
                messages = update_rows (is_undeleted mid) (delete_row now by) db.messages;
              })
              (same2 ∙ same),
    )

-- Whatever calls of the database fail on the way: a deletion that fails has changed no table.
pub delete_message_for_user-failed :
    (now mid by : ℕ) (is_admin : Bool) (c c' : Conn) (e : Error)
    → delete_message_for_user now mid by is_admin c ≡ (err e, c')
    → c'.db ≡ c.db
unfolding delete_message_for_user message_by_id delete_message
delete_message_for_user-failed now mid by is_admin c c' e h =
    sym (ap (λ (r : Result (Unit {0}) × Conn). r.1.db) h)
    ∙ (Restores-bind AnyError _ _ (ReadOnly-query _) (λ m.
          Restores-bind AnyError _ _ (ReadOnly-may_delete by is_admin m)
            (λ _. Restores-statement AnyError _))).at
        c e (ap (λ (r : Result (Unit {0}) × Conn). r.0) h) tt
