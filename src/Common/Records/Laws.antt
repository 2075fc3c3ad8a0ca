-- ===== src/Common/Records/Laws.antt =====
-- Laws of the operations on rows.
use mathlib.Core.Path.{◌≡◌, refl, ap}
use mathlib.Core.Logic.{inl, inr}
use mathlib.Core.Bool.{Bool, true, false, ◌||◌}
use mathlib.Core.Option.{none, some}
use mathlib.Core.List.{List, [], ◌∷◌, ◌++◌}
use native.Mathlib.Omega.{arith}
use terminal_social.Common.Tests.{ltb, Bool-cases}
use terminal_social.Common.Lists.{length}
use terminal_social.Common.Records.{any_row, select, find_row, delete_rows, update_rows}

module _ {ℓ} {A : Type ℓ} where
  pub any_row-append :
      (p : A → Bool) (xs ys : List A) → any_row p (xs ++ ys) ≡ (any_row p xs || any_row p ys)
  any_row-append p [] ys = refl
  any_row-append p (x ∷ xs) ys = ground (arith, any_row-append p xs ys)

  -- A row at the end is found if none before it is.
  pub find_row-append :
      (p : A → Bool) (xs ys : List A) → any_row p xs ≡ false → find_row p (xs ++ ys) ≡ find_row p ys
  find_row-append p [] ys h = refl
  find_row-append p (x ∷ xs) ys h = ground (arith, find_row-append p xs ys)

  pub any_row-delete_rows :
      (p q : A → Bool) (xs : List A) → any_row p (delete_rows q xs) ≡ true → any_row p xs ≡ true
  any_row-delete_rows p q [] h = h
  any_row-delete_rows p q (x ∷ xs) h = ground (arith, any_row-delete_rows p q xs)

  pub any_row-delete_rows_self : (p : A → Bool) (xs : List A) → any_row p (delete_rows p xs) ≡ false
  any_row-delete_rows_self p [] = refl
  any_row-delete_rows_self p (x ∷ xs) = ground (arith, any_row-delete_rows_self p xs)

  -- Rows that pass the one test are not touched by deleting those that pass the other.
  pub any_row-delete_rows_other :
      (p q : A → Bool) (xs : List A)
      → ((x : A) → p x ≡ true → q x ≡ false)
      → any_row p (delete_rows q xs) ≡ any_row p xs
  any_row-delete_rows_other p q [] h = refl
  any_row-delete_rows_other p q (x ∷ xs) h = ground (arith, h x, any_row-delete_rows_other p q xs h)

  pub any_row-update_rows :
      (p q : A → Bool) (f : A → A) (xs : List A)
      → ((x : A) → p (f x) ≡ p x)
      → any_row p (update_rows q f xs) ≡ any_row p xs
  any_row-update_rows p q f [] h = refl
  any_row-update_rows p q f (x ∷ xs) h = ground (arith, h x, any_row-update_rows p q f xs h)

  -- `COUNT(*) > 0`.
  pub length-select : (p : A → Bool) (xs : List A) → ltb 0 (length (select p xs)) ≡ any_row p xs
  length-select p [] = refl
  length-select p (x ∷ xs) = ground (arith, length-select p xs)

  -- A row that is found is in the table.
  pub find_row-any_row :
      (p q : A → Bool) (xs : List A) (x : A)
      → find_row p xs ≡ some x
      → q x ≡ true
      → any_row q xs ≡ true
  find_row-any_row p q [] x h k = absurd (ground (arith, h))
  find_row-any_row p q (y ∷ ys) x h k = elim (Bool-cases (p y)) [
    | inl e ↦ let same : y ≡ x = ground (arith, e, h) in rw (ap q same, k) refl
    | inr e ↦ ground (arith, e, h, find_row-any_row p q ys x, k)
  ]

  pub find_row-some :
      (p : A → Bool) (xs : List A) (x : A)
      → find_row p xs ≡ some x
      → (p x ≡ true) × (any_row p xs ≡ true)
  find_row-some p [] x h = absurd (ground (arith, h))
  find_row-some p (y ∷ ys) x h = elim (Bool-cases (p y)) [
    | inl e ↦ ground (arith, e, h)
    | inr e ↦ ground (arith, e, h, find_row-some p ys x)
  ]

  pub find_row-none : (p : A → Bool) (xs : List A) → find_row p xs ≡ none → any_row p xs ≡ false
  find_row-none p [] h = refl
  find_row-none p (y ∷ ys) h = ground (arith, h, find_row-none p ys)

  -- A row that passes the test can be found.
  pub any_row-find_row :
      (p : A → Bool) (xs : List A) → any_row p xs ≡ true → (x : A) × (find_row p xs ≡ some x)
  any_row-find_row p [] h = absurd (ground (arith, h))
  any_row-find_row p (y ∷ ys) h = elim (Bool-cases (p y)) [
    | inl e ↦ (y, ground (arith, e))
    | inr e ↦
        let (x, found) = any_row-find_row p ys (ground (arith, e, h)) in
        (x, ground (arith, e, found))
  ]

  pub any_row-false :
      (p q : A → Bool) (xs : List A)
      → ((x : A) → p x ≡ true → q x ≡ true)
      → any_row q xs ≡ false
      → any_row p xs ≡ false
  any_row-false p q [] h k = refl
  any_row-false p q (x ∷ xs) h k = ground (arith, h x, k, any_row-false p q xs h)
