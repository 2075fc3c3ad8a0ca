-- ===== src/Text.antt =====
-- Go strings: a `string` is the list of its bytes, and `[]rune` the list of its code points.
pub mod Utf8
pub mod Trim
pub mod Words
pub mod Numbers
use Prim.Native.Char.{code}
use Prim.Native.String.{String}
use terminal_social.Common.{
  ℕ, ◌+◌, ◌-◌, ◌≤◌, ◌≡◌, refl, ap, ◌↔◌, Bool, true, false, ◌&&◌, ◌||◌, List, [], ◌∷◌, arith, ltb,
  leb, ◌==◌, length, if◌then◌else◌,
}

abbrev pub Bytes : Type 0
Bytes = List ℕ

-- The bytes of an ASCII literal.
abbrev pub codes : String → Bytes
codes String.[] = []
codes (String.◌∷◌ c s) = code c ∷ codes s

-- `a == b` on strings.
unfoldable pub bytes_eq : Bytes → Bytes → Bool
bytes_eq [] [] = true
bytes_eq [] (b ∷ bs) = false
bytes_eq (a ∷ as') [] = false
bytes_eq (a ∷ as') (b ∷ bs) = a == b && bytes_eq as' bs

pub bytes_eq_iff : (a b : Bytes) → (bytes_eq a b ≡ true) ↔ (a ≡ b)
unfolding bytes_eq
bytes_eq_iff [] [] = (λ _. refl, λ _. refl)
bytes_eq_iff [] (b ∷ bs) = (λ h. ground arith, λ h. ground arith)
bytes_eq_iff (a ∷ as') [] = (λ h. ground arith, λ h. ground arith)
bytes_eq_iff (a ∷ as') (b ∷ bs) =
    (λ h. ground (arith, bytes_eq_iff as' bs), λ h. ground (arith, bytes_eq_iff as' bs))

-- An ASCII capital as its small letter: the folding of SQLite's NOCASE.
pub fold_ascii : ℕ → ℕ
fold_ascii c = if leb b'A' c && leb c b'Z' then c + 32 else c

-- SQLite's `a = b COLLATE NOCASE`.
unfoldable pub nocase_eq : Bytes → Bytes → Bool
unfolding fold_ascii
nocase_eq [] [] = true
nocase_eq [] (b ∷ bs) = false
nocase_eq (a ∷ as') [] = false
nocase_eq (a ∷ as') (b ∷ bs) = fold_ascii a == fold_ascii b && nocase_eq as' bs

pub nocase_eq_self : (a : Bytes) → nocase_eq a a ≡ true
unfolding nocase_eq
nocase_eq_self [] = refl
nocase_eq_self (b ∷ bs) = ground (arith, nocase_eq_self bs)

-- The order of `ORDER BY … COLLATE NOCASE`.
unfoldable pub nocase_le : Bytes → Bytes → Bool
unfolding fold_ascii
nocase_le [] bs = true
nocase_le (a ∷ as') [] = false
nocase_le (a ∷ as') (b ∷ bs) =
    ltb (fold_ascii a) (fold_ascii b) || fold_ascii a == fold_ascii b && nocase_le as' bs

-- The bytes that `strings.TrimRight(s, "\n\t ")` removes at the end.
pub is_trimmed : ℕ → Bool
is_trimmed b = b == 10 || b == 9 || b == 32

-- `strings.TrimRight(s, "\n\t ")`.
unfoldable pub trim_right : Bytes → Bytes
unfolding is_trimmed
trim_right [] = []
trim_right (b ∷ bs) = elim (trim_right bs) [
  | [] ↦ if is_trimmed b then [] else b ∷ []
  | c ∷ cs ↦ b ∷ c ∷ cs
]
