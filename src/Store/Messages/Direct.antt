-- ===== src/Store/Messages/Direct.antt =====
-- `InsertDM` as a whole.
use Prim.Native.Nat.{min, max, ◌≤◌}
use terminal_social.Common.{
  ℕ, take, ◌≢◌, ◌≡◌, refl, ap, ◌∙◌, true, false, [], ◌∷◌, ◌++◌, none, some, arith, ltb, ◌==◌,
  length, any_row, select, find_row, ==_self, zero, suc, Bool-cases, inl, inr, sym, subst,
}
use terminal_social.Common.Records.Laws.{any_row-append, find_row-some, length-select}
use terminal_social.Text.{Bytes}
use terminal_social.Domain.{User, dm_kind, dm_key}
use terminal_social.Domain.Sanitize.{sanitize_user_text}
use terminal_social.Store.Schema.{
  Db, MessageRow, NotificationRow, next_id, user_exists, is_block_row,
}
use terminal_social.Store.Exec.{
  recipient_not_found, Result, ok, Conn, quiet, pure, statement, transaction, attempt, or_no_rows,
}
use terminal_social.Store.Exec.Inversion.{
  reject-pass, >>=-step, transaction-quiet, statement-quiet, query-quiet,
}
use terminal_social.Store.Users.{user_by_id}
use terminal_social.Store.Blocks.{is_blocked}
use terminal_social.Store.Messages.{
  dm_message, insert_message, insert_notification, new_notification, message_of, clip, is_empty,
  is_error, dm_tx, store_dm, insert_dm,
}
use terminal_social.Store.Messages.Send.{
  next_message, stored_message-posted, message_by_id_lem, posted,
}

-- The row of a direct message, under the pair of its two sides, the smaller id first.
abbrev pub dm_row : ℕ → ℕ → Bytes → ℕ → ℕ → MessageRow
dm_row author peer body now mid = dm_message (min author peer) (max author peer) author body now mid

dm_key_lem : (a b : ℕ) → dm_key a b ≡ (min a b, max a b)
unfolding dm_key
dm_key_lem a b = elim (Bool-cases (ltb a b)) [
  | inl e ↦ ground (arith, e)
  | inr e ↦ ground (arith, e)
]

take_all : (n : ℕ) (xs : Bytes) → length xs ≤ n → take n xs ≡ xs
take_all zero [] h = refl
take_all zero (x ∷ xs) h = absurd (omega (arith, h))
take_all (suc n) [] h = refl
take_all (suc n) (x ∷ xs) h = ap (λ ys. x ∷ ys) (take_all n xs (omega (arith, h)))

clip_lem : (body : Bytes) → clip body ≡ take 2000 body
clip_lem body = elim (Bool-cases (ltb 2000 (length body))) [
  | inl e ↦ rw e refl
  | inr e ↦ rw e (sym (take_all 2000 body (ground (arith, e))))
]

-- The tables behind a direct message: the message, and a notification of the peer.
abbrev pub delivered : ℕ → ℕ → ℕ → Bytes → Db → Db
delivered now author peer body db = record db {
  messages = db.messages ++ dm_row author peer body now (next_message db) ∷ [];
  notifications =
      db.notifications
      ++ new_notification (next_id (λ (n : NotificationRow). n.id) db.notifications) peer dm_kind
          (next_message db) none now
        ∷ [];
}

dm_row-stored :
    (now author peer : ℕ) (body : Bytes) (db : Db)
    → user_exists author db ≡ true
    → user_exists peer db ≡ true
    → insert_message (dm_row author peer body now) db
      ≡ ok (next_message db, posted (dm_row author peer body now (next_message db)) db)
unfolding dm_key
dm_row-stored now author peer body db here there = ground (arith, here, there)

dm_notified :
    (now author peer : ℕ) (body : Bytes) (db : Db)
    → user_exists peer db ≡ true
    → insert_notification now peer dm_kind
        (next_message db)
        none
        (posted (dm_row author peer body now (next_message db)) db)
      ≡ ok (tt, delivered now author peer body db)
dm_notified now author peer body db there = ground (
  arith,
  there,
  any_row-append (λ m. m.id == next_message db) db.messages
      (dm_row author peer body now (next_message db) ∷ []),
  ==_self (next_message db),
)

dm_tx_lem :
    (now author peer : ℕ) (body : Bytes) (db : Db)
    → user_exists author db ≡ true
    → user_exists peer db ≡ true
    → dm_tx now author peer body (quiet db)
      ≡ (ok (next_message db), quiet (delivered now author peer body db))
dm_tx_lem now author peer body db here there =
    unfold dm_tx in
    rw (dm_key_lem author peer) (
      >>=-step (statement (insert_message (dm_row author peer body now))) _ (quiet db)
        (quiet (posted (dm_row author peer body now (next_message db)) db)) (next_message db)
        (statement-quiet _ db _ _ (dm_row-stored now author peer body db here there))
      ∙ >>=-step (statement (insert_notification now peer dm_kind (next_message db) none)) _ _
          (quiet (delivered now author peer body db)) tt
          (statement-quiet _ _ _ _ (dm_notified now author peer body db there))
      ∙ (unfold pure in refl))

user_by_id_lem :
    (uid : ℕ) (db : Db) (u : User)
    → find_row (λ v. v.id == uid) db.users ≡ some u
    → attempt (user_by_id uid) (quiet db) ≡ (ok (ok u), quiet db)
unfolding attempt user_by_id
user_by_id_lem uid db u h =
    ap (λ (r : Result User × Conn). let p : Result (Result User) × Conn = (ok r.0, r.1) in p)
      (query-quiet _ db u (ap or_no_rows h))

is_blocked_lem :
    (by target : ℕ) (db : Db)
    → is_blocked by target (quiet db)
      ≡ (ok (ltb 0 (length (select (is_block_row by target) db.blocks))), quiet db)
unfolding is_blocked
is_blocked_lem by target db = query-quiet _ db _ refl

insert_dm_clipped :
    (now author peer : ℕ) (body : Bytes) (db : Db) (u v : User)
    → author ≢ peer
    → find_row (λ w. w.id == author) db.users ≡ some u
    → find_row (λ w. w.id == peer) db.users ≡ some v
    → any_row (is_block_row peer author) db.blocks ≡ false
    → is_empty (sanitize_user_text body) ≡ false
    → let text = clip (sanitize_user_text body) in
      insert_dm now author peer body (quiet db) ≡ (
        ok (message_of (dm_row author peer text now (next_message db)) u.handle),
        quiet (delivered now author peer text db),
      )
insert_dm_clipped now author peer body db u v other here there unblocked text =
    unfold insert_dm store_dm in
    (reject-pass _ _ _ (quiet db) (ground (arith, other))
      ∙ >>=-step (attempt (user_by_id peer)) _ (quiet db) (quiet db) (ok v)
          (user_by_id_lem peer db v there)
      ∙ reject-pass (is_error {A = User} (ok v)) recipient_not_found _ (quiet db) refl
      ∙ >>=-step (is_blocked peer author) _ (quiet db) (quiet db) _ (is_blocked_lem peer author db)
      ∙ reject-pass _ _ _ (quiet db)
          (length-select (is_block_row peer author) db.blocks ∙ unblocked)
      ∙ reject-pass _ _ _ (quiet db) text
      ∙ >>=-step (transaction (dm_tx now author peer clipped)) _ (quiet db) (quiet after)
          (next_message db)
          (transaction-quiet _ db after _ (
            dm_tx_lem now author peer clipped db (find_row-some _ db.users u here).1
              (find_row-some _ db.users v there).1))
      ∙ message_by_id_lem (next_message db) after _ (
          stored_message-posted (dm_row author peer clipped now) db after u (λ n. refl) refl refl
            here))
  where
    clipped : Bytes
    clipped = clip (sanitize_user_text body)

    after : Db
    after = delivered now author peer clipped db

-- On a driver that does not fail, a text that is not empty once it is sanitized goes from one user to
-- another who has not blocked him: one message under the next id and the pair of the two, the
-- smaller id first, with the sanitized text cut to 2000 bytes, and one notification, of the recipient; no other table
-- changes. The call returns the stored message with the author's handle.
pub insert_dm_lem :
    (now author peer : ℕ) (body : Bytes) (db : Db) (u v : User)
    → author ≢ peer
    → find_row (λ w. w.id == author) db.users ≡ some u
    → find_row (λ w. w.id == peer) db.users ≡ some v
    → any_row (is_block_row peer author) db.blocks ≡ false
    → is_empty (sanitize_user_text body) ≡ false
    → let text = take 2000 (sanitize_user_text body) in
      insert_dm now author peer body (quiet db) ≡ (
        ok (message_of (dm_row author peer text now (next_message db)) u.handle),
        quiet (delivered now author peer text db),
      )
insert_dm_lem now author peer body db u v other here there unblocked text =
    subst
      (λ t. insert_dm now author peer body (quiet db) ≡ (
        ok (message_of (dm_row author peer t now (next_message db)) u.handle),
        quiet (delivered now author peer t db),
      ))
      (clip_lem (sanitize_user_text body))
      (insert_dm_clipped now author peer body db u v other here there unblocked text)
