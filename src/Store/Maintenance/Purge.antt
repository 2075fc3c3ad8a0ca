-- ===== src/Store/Maintenance/Purge.antt =====
-- What a purge leaves behind.
use terminal_social.Common.{
  Option-cases, ◌<◌, ℕ, ◌+◌, ◌≡◌, refl, ap, sym, ◌∙◌, Bool, true, false, ◌&&◌, List, [], ◌∷◌,
  Option, none, some, inl, inr, arith, ◌==◌, length, any_row, select, delete_rows, Bool-cases,
}
use terminal_social.Store.Schema.{Db, MessageRow, NotificationRow, MentionRow, holds}
use terminal_social.Store.Exec.{ok, quiet, statement}
use terminal_social.Store.Maintenance.{is_expired, is_purged, of_purged, purge_deleted}

abbrev is_stored : ℕ → Db → Bool
is_stored mid db = any_row (λ m. m.id == mid) db.messages

-- The foreign keys of the mentions and the notifications hold.
pub record IsReferring (db : Db) : Type 0 where
  pub mentions :
      (mid : ℕ) → any_row (λ x. x.message_id == mid) db.mentions ≡ true → is_stored mid db ≡ true
  pub notifications :
      (mid : ℕ)
      → any_row (λ n. holds n.message_id mid) db.notifications ≡ true
      → is_stored mid db ≡ true

kept-stored :
    (cutoff mid : ℕ) (ms : List MessageRow)
    → any_row (λ m. m.id == mid) ms ≡ true
    → any_row (λ m. m.id == mid && is_expired cutoff m) ms ≡ false
    → any_row (λ m. m.id == mid) (delete_rows (is_expired cutoff) ms) ≡ true
kept-stored cutoff mid [] h k = h
kept-stored cutoff mid (m ∷ ms) h k = elim (Bool-cases (is_expired cutoff m)) [
  | inl e ↦ rw e (kept-stored cutoff mid ms (ground (arith, e, h, k)) (ground (arith, e, k)))
  | inr e ↦ rw e (elim (Bool-cases (m.id == mid)) [
    | inl same ↦ ground (arith, same)
    | inr other ↦ ground (
      arith,
      other,
      kept-stored cutoff mid ms (ground (arith, other, h)) (ground (arith, other, k)),
    )
  ])
]

length-delete_rows :
    (p : MessageRow → Bool) (ms : List MessageRow)
    → length ms ≡ length (select p ms) + length (delete_rows p ms)
length-delete_rows p [] = refl
length-delete_rows p (m ∷ ms) = ground (arith, length-delete_rows p ms)

gone-mentions :
    (p : ℕ → Bool) (mid : ℕ) (xs : List MentionRow)
    → any_row (λ x. x.message_id == mid) (delete_rows (λ x. p x.message_id) xs) ≡ true
    → (any_row (λ x. x.message_id == mid) xs ≡ true) × (p mid ≡ false)
gone-mentions p mid [] h = absurd (ground (arith, h))
gone-mentions p mid (x ∷ xs) h = elim (Bool-cases (p x.message_id)) [
  | inl e ↦
      let (here, left) = gone-mentions p mid xs (ground (arith, e, h)) in
      (ground (arith, here), left)
  | inr e ↦ elim (Bool-cases (x.message_id == mid)) [
    | inl same ↦
        let one : x.message_id ≡ mid = ground (arith, same) in
        (ground (arith, same), ap p (sym one) ∙ e)
    | inr other ↦
        let (here, left) = gone-mentions p mid xs (ground (arith, e, other, h)) in
        (ground (arith, here), left)
  ]
]

gone-notifications :
    (cutoff mid : ℕ) (db : Db) (ns : List NotificationRow)
    → any_row (λ n. holds n.message_id mid) (delete_rows (λ n. of_purged cutoff db n.message_id) ns)
      ≡ true
    → (any_row (λ n. holds n.message_id mid) ns ≡ true) × (is_purged cutoff db mid ≡ false)
gone-notifications cutoff mid db [] h = absurd (ground (arith, h))
gone-notifications cutoff mid db (n ∷ ns) h = elim (Bool-cases (of_purged cutoff db n.message_id)) [
  | inl e ↦
      let (here, left) = gone-notifications cutoff mid db ns (rw e at h) in
      (ground (arith, here), left)
  | inr e ↦ elim (Bool-cases (holds n.message_id mid)) [
    | inl same ↦ (ground (arith, same), holds-of_purged n.message_id same e)
    | inr other ↦
        let (here, left) = gone-notifications cutoff mid db ns (rw other at (rw e at h)) in
        (ground (arith, here), left)
  ]
]
  where
    holds-of_purged :
        (o : Option ℕ)
        → holds o mid ≡ true
        → of_purged cutoff db o ≡ false
        → is_purged cutoff db mid ≡ false
    holds-of_purged none same e = absurd (ground (arith, same))
    holds-of_purged (some k) same e =
        let one : k ≡ mid = ground (arith, same) in ap (λ x. is_purged cutoff db x) (sym one) ∙ e

-- The row is marked as deleted, at a time before the cutoff.
pub record IsOverdue (cutoff : ℕ) (m : MessageRow) : Type 0 where
  pub time : ℕ
  pub marked : m.deleted_at ≡ some time
  pub past : time < cutoff

-- The first list is the second without its overdue rows, in the same order.
pub data IsPurged (cutoff : ℕ) : List MessageRow → List MessageRow → Type 0 where
  none_left : IsPurged cutoff [] []
  goes :
      {m : MessageRow} {new old : List MessageRow}
      → IsOverdue cutoff m
      → IsPurged cutoff new old
      → IsPurged cutoff new (m ∷ old)
  stays :
      {m : MessageRow} {new old : List MessageRow}
      → ¬ IsOverdue cutoff m
      → IsPurged cutoff new old
      → IsPurged cutoff (m ∷ new) (m ∷ old)

expired-IsOverdue : (cutoff : ℕ) (m : MessageRow) → is_expired cutoff m ≡ true → IsOverdue cutoff m
expired-IsOverdue cutoff m h = elim (Option-cases m.deleted_at) [
  | inl e ↦ absurd (ground (arith, e, h))
  | inr (t, e) ↦ record { time = t; marked = e; past = ground (arith, rw e at h) }
]

kept-not-IsOverdue :
    (cutoff : ℕ) (m : MessageRow) → is_expired cutoff m ≡ false → ¬ IsOverdue cutoff m
kept-not-IsOverdue cutoff m h o = ground (arith, rw o.marked at h, o.past)

delete_rows-IsPurged :
    (cutoff : ℕ) (ms : List MessageRow) → IsPurged cutoff (delete_rows (is_expired cutoff) ms) ms
delete_rows-IsPurged cutoff [] = none_left
delete_rows-IsPurged cutoff (m ∷ ms) = elim (Bool-cases (is_expired cutoff m)) [
  | inl e ↦ rw e (goes (expired-IsOverdue cutoff m e) (delete_rows-IsPurged cutoff ms))
  | inr e ↦ rw e (stays (kept-not-IsOverdue cutoff m e) (delete_rows-IsPurged cutoff ms))
]

-- On a driver that does not fail, a purge succeeds, returns the number of the messages that it removes,
-- removes the messages whose time of deletion is set and before the cutoff and leaves all others, in
-- their order, and if every mention and notification of a message referred to a stored one before, it
-- does so afterwards.
pub purge_deleted_lem :
    (cutoff : ℕ) (db : Db)
    → IsReferring db
    → (n : ℕ) × (db' : Db) × (purge_deleted cutoff (quiet db) ≡ (ok n, quiet db'))
      × (length db.messages ≡ n + length db'.messages)
      × IsPurged cutoff db'.messages db.messages
      × IsReferring db'
unfolding purge_deleted statement
purge_deleted_lem cutoff db r = (
  _,
  _,
  refl,
  length-delete_rows (is_expired cutoff) db.messages,
  delete_rows-IsPurged cutoff db.messages,
  record {
    mentions = λ mid h.
        let (here, left) = gone-mentions (is_purged cutoff db) mid db.mentions h in
        kept-stored cutoff mid db.messages (r.mentions mid here) left;
    notifications = λ mid h.
        let (here, left) = gone-notifications cutoff mid db db.notifications h in
        kept-stored cutoff mid db.messages (r.notifications mid here) left;
  },
)
