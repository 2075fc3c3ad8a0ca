-- ===== src/Text/Trim.antt =====
-- `strings.TrimRight` on bytes and on code points.
use mathlib.Core.List.{append-nil}
use terminal_social.Common.{
  ℕ, ◌≡◌, refl, ap, ◌∙◌, sym, ◌≢◌, inl, inr, List, [], ◌∷◌, ◌++◌, arith, Bool-cases, if◌then◌else◌,
}
use terminal_social.Text.{is_trimmed, trim_right}
use terminal_social.Text.Utf8.{encode_rune, encode}

-- What trimming leaves of `xs ++ ys`, by what it leaves of `ys`.
abbrev attach : List ℕ → List ℕ → List ℕ
attach xs [] = trim_right xs
attach xs (y ∷ ys) = xs ++ (y ∷ ys)

-- What trimming leaves of `x ∷ xs`, by what it leaves of `xs`.
abbrev pub grow : ℕ → List ℕ → List ℕ
grow x [] = if is_trimmed x then [] else x ∷ []
grow x (c ∷ cs) = x ∷ c ∷ cs

pub trim_right-cons : (x : ℕ) (xs : List ℕ) → trim_right (x ∷ xs) ≡ grow x (trim_right xs)
unfolding trim_right
trim_right-cons x xs = ground arith

attach-cons : (x : ℕ) (xs ys : List ℕ) → attach (x ∷ xs) ys ≡ grow x (attach xs ys)
attach-cons x xs [] = trim_right-cons x xs
attach-cons x [] (y ∷ ys) = refl
attach-cons x (x' ∷ xs) (y ∷ ys) = refl

pub trim_right_nil : trim_right [] ≡ []
unfolding trim_right
trim_right_nil = refl

attach_nil : (t : List ℕ) → t ≡ attach [] t
unfolding trim_right
attach_nil [] = refl
attach_nil (c ∷ cs) = refl

trim_right-append : (xs ys : List ℕ) → trim_right (xs ++ ys) ≡ attach xs (trim_right ys)
trim_right-append [] ys = attach_nil (trim_right ys)
trim_right-append (x ∷ xs) ys =
    trim_right-cons x (xs ++ ys)
    ∙ ap (grow x) (trim_right-append xs ys)
    ∙ sym (attach-cons x xs (trim_right ys))

attach-nonempty : (xs ys : List ℕ) → ys ≢ [] → attach xs ys ≡ xs ++ ys
attach-nonempty xs [] h = absurd (h refl)
attach-nonempty xs (y ∷ ys) h = refl

encode_rune-ne-nil : (r : ℕ) (w : List ℕ) → encode_rune r ++ w ≢ []
unfolding encode_rune
encode_rune-ne-nil r w = ground arith

-- Only the three ASCII characters are trimmed, each a byte of its own.
trim_right-encode_rune :
    (r : ℕ) → trim_right (encode_rune r) ≡ (if is_trimmed r then [] else encode_rune r)
unfolding trim_right encode_rune is_trimmed
trim_right-encode_rune r = ground arith

attach-encode : (r : ℕ) (t : List ℕ) → attach (encode_rune r) (encode t) ≡ encode (grow r t)
unfolding encode
attach-encode r [] = elim (Bool-cases (is_trimmed r)) [
  | inl e ↦ rw (trim_right-encode_rune r, e)
  | inr e ↦ rw (trim_right-encode_rune r, e, append-nil)
]
attach-encode r (c ∷ cs) = attach-nonempty (encode_rune r) _ (encode_rune-ne-nil c (encode cs))

pub trim_right-encode : (rs : List ℕ) → trim_right (encode rs) ≡ encode (trim_right rs)
unfolding encode
trim_right-encode [] = trim_right_nil ∙ ap encode (sym trim_right_nil)
trim_right-encode (r ∷ rs) =
    trim_right-append (encode_rune r) (encode rs)
    ∙ ap (attach (encode_rune r)) (trim_right-encode rs)
    ∙ attach-encode r (trim_right rs)
    ∙ ap encode (sym (trim_right-cons r rs))

trim_right-grow : (x : ℕ) (t : List ℕ) → trim_right t ≡ t → trim_right (grow x t) ≡ grow x t
trim_right-grow x [] h = elim (Bool-cases (is_trimmed x)) [
  | inl e ↦ rw e trim_right_nil
  | inr e ↦ rw e (trim_right-cons x [] ∙ ap (grow x) trim_right_nil ∙ rw e)
]
trim_right-grow x (c ∷ cs) h = trim_right-cons x (c ∷ cs) ∙ ap (grow x) h

pub trim_right_idem : (xs : List ℕ) → trim_right (trim_right xs) ≡ trim_right xs
trim_right_idem [] = ap trim_right trim_right_nil
trim_right_idem (x ∷ xs) =
    ap trim_right (trim_right-cons x xs)
    ∙ trim_right-grow x (trim_right xs) (trim_right_idem xs)
    ∙ sym (trim_right-cons x xs)
