-- ===== src/Common/Sets.antt =====
-- Go's maps with integer keys and its sets of pointers, as lists: a map holds a key at most once in
-- effect, since the first entry of a key counts, and a set holds an element once.
use terminal_social.Common.{
  ℕ, suc, ◌≡◌, refl, ap, Bool, true, false, not, ◌&&◌, ◌||◌, List, [], ◌∷◌, arith, ◌==◌, length,
  if◌then◌else◌,
}

unfoldable pub mem : ℕ → List ℕ → Bool
mem s [] = false
mem s (t ∷ ts) = s == t || mem s ts

unfoldable pub insert : ℕ → List ℕ → List ℕ
unfolding mem
insert s ts = if mem s ts then ts else s ∷ ts

unfoldable pub remove : ℕ → List ℕ → List ℕ
remove s [] = []
remove s (t ∷ ts) = let rest = remove s ts in if s == t then rest else t ∷ rest

unfoldable pub is_distinct : List ℕ → Bool
unfolding mem
is_distinct [] = true
is_distinct (t ∷ ts) = not (mem t ts) && is_distinct ts

pub mem-insert : (s t : ℕ) (ts : List ℕ) → mem t (insert s ts) ≡ (t == s || mem t ts)
unfolding insert mem
mem-insert s t ts = ground arith

pub is_distinct-insert :
    (s : ℕ) (ts : List ℕ) → is_distinct ts ≡ true → is_distinct (insert s ts) ≡ true
unfolding insert is_distinct
is_distinct-insert s ts h = ground (arith, h)

pub mem-remove : (s t : ℕ) (ts : List ℕ) → mem t (remove s ts) ≡ (mem t ts && not (t == s))
unfolding remove mem
mem-remove s t [] = refl
mem-remove s t (x ∷ ts) = ground (arith, mem-remove s t ts)

pub is_distinct-remove :
    (s : ℕ) (ts : List ℕ) → is_distinct ts ≡ true → is_distinct (remove s ts) ≡ true
unfolding remove is_distinct
is_distinct-remove s [] h = refl
is_distinct-remove s (x ∷ ts) h = ground (arith, h, is_distinct-remove s ts, mem-remove s x ts)

pub remove-absent : (s : ℕ) (ts : List ℕ) → mem s ts ≡ false → remove s ts ≡ ts
unfolding remove mem
remove-absent s [] h = refl
remove-absent s (x ∷ ts) h = ground (arith, h, remove-absent s ts)

pub length-remove :
    (s : ℕ) (ts : List ℕ)
    → is_distinct ts ≡ true
    → mem s ts ≡ true
    → length ts ≡ suc (length (remove s ts))
unfolding remove is_distinct mem
length-remove s [] d h = absurd (ground (arith, h))
length-remove s (x ∷ ts) d h =
    ground (arith, d, h, length-remove s ts, ap length (remove-absent s ts _))

module _ {ℓ} {A : Type ℓ} where
  -- `m[k]`, and `d` for a key that is not there.
  unfoldable pub at : A → ℕ → List (ℕ × A) → A
  at d k [] = d
  at d k ((j, v) ∷ m) = if k == j then v else at d k m

  -- `delete(m, k)`.
  unfoldable pub erase : ℕ → List (ℕ × A) → List (ℕ × A)
  erase k [] = []
  erase k ((j, v) ∷ m) = let rest = erase k m in if k == j then rest else (j, v) ∷ rest

  -- `m[k] = v`.
  unfoldable pub put : ℕ → A → List (ℕ × A) → List (ℕ × A)
  unfolding erase
  put k v m = (k, v) ∷ erase k m

  pub at-erase :
      (d : A) (k j : ℕ) (m : List (ℕ × A)) → at d k (erase j m) ≡ (if k == j then d else at d k m)
  unfolding at erase
  at-erase d k j [] = ground arith
  at-erase d k j ((i, v) ∷ m) = ground (arith, at-erase d k j m)

  pub at-put :
      (d : A) (k j : ℕ) (v : A) (m : List (ℕ × A))
      → at d k (put j v m) ≡ (if k == j then v else at d k m)
  unfolding at put
  at-put d k j v m = ground (arith, at-erase d k j m)
