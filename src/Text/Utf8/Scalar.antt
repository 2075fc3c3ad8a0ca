-- ===== src/Text/Utf8/Scalar.antt =====
-- Which code points the decoding of a Go string makes.
use terminal_social.Common.{ℕ, zero, suc, ◌%◌, ◌≤◌, ◌≡◌, refl, true, List, [], ◌∷◌, arith}
use terminal_social.Text.Utf8.{
  is_scalar, two_bytes, three_bytes, four_bytes, decode_lead, decode_rune, decode_after, decode,
}
use terminal_social.Text.Utf8.RoundTrip.{AllScalar}

two_bytes-scalar : (b : ℕ) (rest : List ℕ) → is_scalar (two_bytes b rest).0 ≡ true
unfolding two_bytes
two_bytes-scalar b [] = refl
two_bytes-scalar b (c ∷ cs) = ground arith

three_bytes-scalar :
    (lo hi b : ℕ) (rest : List ℕ)
    → (b % 16 ≡ 13 → hi ≤ 0x9F)
    → 0x80 ≤ lo
    → is_scalar (three_bytes lo hi b rest).0 ≡ true
unfolding three_bytes
three_bytes-scalar lo hi b [] h k = refl
three_bytes-scalar lo hi b (c ∷ []) h k = refl
three_bytes-scalar lo hi b (c ∷ d ∷ rest) h k = ground arith

four_bytes-scalar :
    (lo hi b : ℕ) (rest : List ℕ)
    → b % 8 ≤ 4
    → (b % 8 ≡ 0 → 0x90 ≤ lo)
    → (b % 8 ≡ 4 → hi ≤ 0x8F)
    → 0x80 ≤ lo
    → hi ≤ 0xBF
    → is_scalar (four_bytes lo hi b rest).0 ≡ true
unfolding four_bytes
four_bytes-scalar lo hi b [] h k l m n = refl
four_bytes-scalar lo hi b (c ∷ []) h k l m n = refl
four_bytes-scalar lo hi b (c ∷ d ∷ []) h k l m n = refl
four_bytes-scalar lo hi b (c ∷ d ∷ e ∷ rest) h k l m n = ground arith

decode_lead-scalar : (b : ℕ) (rest : List ℕ) → is_scalar (decode_lead b rest).0 ≡ true
unfolding decode_lead
decode_lead-scalar b rest = ground (
  arith,
  two_bytes-scalar b rest,
  three_bytes-scalar 0xA0 0xBF b rest,
  three_bytes-scalar 0x80 0x9F b rest,
  three_bytes-scalar 0x80 0xBF b rest,
  four_bytes-scalar 0x90 0xBF b rest,
  four_bytes-scalar 0x80 0x8F b rest,
  four_bytes-scalar 0x80 0xBF b rest,
)

decode_rune-scalar : (b : ℕ) (rest : List ℕ) → is_scalar (decode_rune b rest).0 ≡ true
unfolding decode_rune
decode_rune-scalar b rest = decode_lead-scalar b rest

decode_after-AllScalar : (skip : ℕ) (bs : List ℕ) → AllScalar (decode_after skip bs)
unfolding decode_after
decode_after-AllScalar skip [] = tt
decode_after-AllScalar (suc skip) (b ∷ bs) = decode_after-AllScalar skip bs
decode_after-AllScalar zero (b ∷ bs) =
    (decode_rune-scalar b bs, decode_after-AllScalar (decode_rune b bs).1 bs)

pub decode-AllScalar : (bs : List ℕ) → AllScalar (decode bs)
unfolding decode
decode-AllScalar bs = decode_after-AllScalar 0 bs
