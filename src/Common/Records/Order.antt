-- ===== src/Common/Records/Order.antt =====
-- Sorting by a key, and properties of every element.
use Prim.Native.Nat.{ℕ, zero, suc, ◌≤◌}
use mathlib.Core.Path.{◌≡◌, sym, subst}
use mathlib.Core.Bool.{Bool, true, false}
use mathlib.Core.Logic.{inl, inr}
use mathlib.Core.List.{List, [], ◌∷◌, ◌++◌, reverse, reverse-cons, Perm}
use mathlib.Core.List.Perm
use native.Mathlib.Omega.{arith}
use terminal_social.Common.Tests.{leb, Bool-cases}
use terminal_social.Common.Lists.{take}
use terminal_social.Common.Records.{select, insert_by, sort_by}

module _ {ℓ κ} {A : Type ℓ} (P : A → Type κ) where
  -- Every element has the property.
  abbrev pub All : List A → Type κ
  All [] = Unit
  All (x ∷ xs) = P x × All xs

  pub All-append : (xs ys : List A) → All xs → All ys → All (xs ++ ys)
  All-append [] ys h k = k
  All-append (x ∷ xs) ys h k = (h.0, All-append xs ys h.1 k)

  pub All-reverse : (xs : List A) → All xs → All (reverse xs)
  All-reverse [] h = tt
  All-reverse (x ∷ xs) h =
      subst All (sym (reverse-cons x xs))
        (All-append (reverse xs) (x ∷ []) (All-reverse xs h.1) (h.0, tt))

  pub All-take : (n : ℕ) (xs : List A) → All xs → All (take n xs)
  All-take zero xs h = tt
  All-take (suc n) [] h = tt
  All-take (suc n) (x ∷ xs) h = (h.0, All-take n xs h.1)

  pub All-select : (p : A → Bool) (xs : List A) → ((x : A) → p x ≡ true → P x) → All (select p xs)
  All-select p [] h = tt
  All-select p (x ∷ xs) h = elim (Bool-cases (p x)) [
    | inl e ↦ subst All (sym (select-yes e)) (h x e, All-select p xs h)
    | inr e ↦ subst All (sym (select-no e)) (All-select p xs h)
  ]
    where
      select-yes : p x ≡ true → select p (x ∷ xs) ≡ x ∷ select p xs
      select-yes e = rw e

      select-no : p x ≡ false → select p (x ∷ xs) ≡ select p xs
      select-no e = rw e

  pub All-insert_by :
      (le : A → A → Bool) (x : A) (xs : List A) → P x → All xs → All (insert_by le x xs)
  All-insert_by le x [] h k = (h, tt)
  All-insert_by le x (y ∷ ys) h k = elim (Bool-cases (le x y)) [
    | inl e ↦ rw e (h, k)
    | inr e ↦ rw e (k.0, All-insert_by le x ys h k.1)
  ]

  pub All-sort_by : (le : A → A → Bool) (xs : List A) → All xs → All (sort_by le xs)
  All-sort_by le [] h = tt
  All-sort_by le (x ∷ xs) h = All-insert_by le x (sort_by le xs) h.0 (All-sort_by le xs h.1)

module _ {ℓ} {A : Type ℓ} (le : A → A → Bool) where
  insert_by-perm : (x : A) (xs : List A) → Perm (insert_by le x xs) (x ∷ xs)
  insert_by-perm x [] = Perm.rfl
  insert_by-perm x (y ∷ ys) = elim (Bool-cases (le x y)) [
    | inl e ↦ rw e Perm.rfl
    | inr e ↦ rw e (Perm.trans (Perm.cons y (insert_by-perm x ys)) (Perm.swap x y ys))
  ]

  -- Sorting loses and makes up no row.
  pub sort_by-perm : (xs : List A) → Perm (sort_by le xs) xs
  sort_by-perm [] = Perm.rfl
  sort_by-perm (x ∷ xs) =
      Perm.trans (insert_by-perm x (sort_by le xs)) (Perm.cons x (sort_by-perm xs))

module _ {ℓ} {A : Type ℓ} (key : A → ℕ) where
  abbrev pub AllBelow : ℕ → List A → Type 0
  AllBelow n [] = Unit
  AllBelow n (x ∷ xs) = (key x ≤ n) × AllBelow n xs

  -- By falling keys.
  abbrev pub IsDescending : List A → Type 0
  IsDescending [] = Unit
  IsDescending (x ∷ xs) = AllBelow (key x) xs × IsDescending xs

  AllBelow-mono : (m n : ℕ) (xs : List A) → m ≤ n → AllBelow m xs → AllBelow n xs
  AllBelow-mono m n [] h k = tt
  AllBelow-mono m n (x ∷ xs) h k = (omega arith, AllBelow-mono m n xs h k.1)

  AllBelow-insert_by :
      (n : ℕ) (x : A) (xs : List A)
      → key x ≤ n
      → AllBelow n xs
      → AllBelow n (insert_by (λ a b. leb (key b) (key a)) x xs)
  AllBelow-insert_by n x [] h k = (h, tt)
  AllBelow-insert_by n x (y ∷ ys) h k = elim (Bool-cases (leb (key y) (key x))) [
    | inl e ↦ rw e (h, k)
    | inr e ↦ rw e (k.0, AllBelow-insert_by n x ys h k.1)
  ]

  IsDescending-insert_by :
      (x : A) (xs : List A)
      → IsDescending xs
      → IsDescending (insert_by (λ a b. leb (key b) (key a)) x xs)
  IsDescending-insert_by x [] h = (tt, tt)
  IsDescending-insert_by x (y ∷ ys) h = elim (Bool-cases (leb (key y) (key x))) [
    | inl e ↦
        rw e ((ground (arith, e), AllBelow-mono (key y) (key x) ys (ground (arith, e)) h.0), h)
    | inr e ↦
        rw e
          (AllBelow-insert_by (key y) x ys (ground (arith, e)) h.0, IsDescending-insert_by x ys h.1)
  ]

  pub IsDescending-sort_by : (xs : List A) → IsDescending (sort_by (λ a b. leb (key b) (key a)) xs)
  IsDescending-sort_by [] = tt
  IsDescending-sort_by (x ∷ xs) =
      IsDescending-insert_by x (sort_by (λ a b. leb (key b) (key a)) xs) (IsDescending-sort_by xs)
