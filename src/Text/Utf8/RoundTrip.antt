-- ===== src/Text/Utf8/RoundTrip.antt =====
-- Encoding and decoding of Go strings, rune by rune.
use terminal_social.Common.{
  ℕ, ◌+◌, ◌*◌, ◌/◌, ◌%◌, ◌<◌, ◌≤◌, ◌≡◌, refl, ap, ◌∙◌, ◌⊎◌, inl, inr, true, leb, Bool-cases, List,
  [], ◌∷◌, ◌++◌, arith,
}
use terminal_social.Text.Utf8.{is_scalar, encode_rune, encode, decode_rune, decode_after, decode}

-- Every code point of the list is one that UTF-8 encodes.
abbrev pub AllScalar : List ℕ → Type 0
AllScalar [] = Unit
AllScalar (r ∷ rs) = (is_scalar r ≡ true) × AllScalar rs

decode_one :
    (b : ℕ) (rest : List ℕ) → b < 0x80 → decode_after 0 (b ∷ rest) ≡ b ∷ decode_after 0 rest
unfolding decode_after decode_rune
decode_one b rest h = ground arith

decode_two :
    (b c : ℕ) (rest : List ℕ)
    → 0xC2 ≤ b
    → b ≤ 0xDF
    → 0x80 ≤ c
    → c ≤ 0xBF
    → decode_after 0 (b ∷ c ∷ rest) ≡ (b % 32 * 64 + c % 64) ∷ decode_after 0 rest
unfolding decode_after decode_rune
decode_two b c rest h1 h2 h3 h4 = ground arith

decode_three :
    (b c d : ℕ) (rest : List ℕ)
    → 0xE0 ≤ b
    → b ≤ 0xEF
    → 0x80 ≤ c
    → c ≤ 0xBF
    → (b ≡ 0xE0 → 0xA0 ≤ c)
    → (b ≡ 0xED → c ≤ 0x9F)
    → 0x80 ≤ d
    → d ≤ 0xBF
    → decode_after 0 (b ∷ c ∷ d ∷ rest)
      ≡ (b % 16 * 4096 + c % 64 * 64 + d % 64) ∷ decode_after 0 rest
unfolding decode_after decode_rune
decode_three b c d rest h1 h2 h3 h4 h5 h6 h7 h8 = ground arith

decode_four :
    (b c d e : ℕ) (rest : List ℕ)
    → 0xF0 ≤ b
    → b ≤ 0xF4
    → 0x80 ≤ c
    → c ≤ 0xBF
    → (b ≡ 0xF0 → 0x90 ≤ c)
    → (b ≡ 0xF4 → c ≤ 0x8F)
    → 0x80 ≤ d
    → d ≤ 0xBF
    → 0x80 ≤ e
    → e ≤ 0xBF
    → decode_after 0 (b ∷ c ∷ d ∷ e ∷ rest)
      ≡ (b % 8 * 262144 + c % 64 * 4096 + d % 64 * 64 + e % 64) ∷ decode_after 0 rest
unfolding decode_after decode_rune
decode_four b c d e rest h1 h2 h3 h4 h5 h6 h7 h8 h9 h10 = ground arith

-- The number of bytes that a code point takes, with the bytes.
encode_cases :
    (r : ℕ)
    → is_scalar r ≡ true
    → ((r < 0x80) × (encode_rune r ≡ r ∷ []))
      ⊎ ((0x80 ≤ r) × (r < 0x800) × (encode_rune r ≡ (0xC0 + r / 64) ∷ (0x80 + r % 64) ∷ []))
      ⊎ ((0x800 ≤ r)
          × (r < 0x10000)
          × ((r < 0xD800) ⊎ (0xE000 ≤ r))
          × (encode_rune r ≡ (0xE0 + r / 4096) ∷ (0x80 + r / 64 % 64) ∷ (0x80 + r % 64) ∷ []))
      ⊎ ((0x10000 ≤ r)
          × (r ≤ 0x10FFFF)
          × (encode_rune r
              ≡ (0xF0 + r / 262144)
                ∷ (0x80 + r / 4096 % 64)
                ∷ (0x80 + r / 64 % 64)
                ∷ (0x80 + r % 64)
                ∷ []))
unfolding encode_rune
encode_cases r h = elim (Bool-cases (leb r 0x7F)) [
  | inl e ↦ inl (ground arith, rw e)
  | inr e ↦ elim (Bool-cases (leb r 0x7FF)) [
    | inl e2 ↦ inr (inl (ground arith, ground arith, rw (e, e2)))
    | inr e2 ↦ elim (Bool-cases (leb r 0xFFFF)) [
      | inl e3 ↦ inr (inr (inl (ground arith, ground arith, ground arith, rw (e, e2, h, e3))))
      | inr e3 ↦ inr (inr (inr (ground arith, ground arith, rw (e, e2, h, e3))))
    ]
  ]
]

three_value :
    (r : ℕ)
    → r < 0x10000
    → (0xE0 + r / 4096) % 16 * 4096 + (0x80 + r / 64 % 64) % 64 * 64 + (0x80 + r % 64) % 64 ≡ r
three_value r h = omega arith

four_value :
    (r : ℕ)
    → r ≤ 0x10FFFF
    → (0xF0 + r / 262144) % 8 * 262144
        + (0x80 + r / 4096 % 64) % 64 * 4096
        + (0x80 + r / 64 % 64) % 64 * 64
        + (0x80 + r % 64) % 64
      ≡ r
four_value r h = omega arith

decode_after-encode_rune :
    (r : ℕ) (rest : List ℕ)
    → is_scalar r ≡ true
    → decode_after 0 (encode_rune r ++ rest) ≡ r ∷ decode_after 0 rest
decode_after-encode_rune r rest h = elim (encode_cases r h) [
  | inl (lt, e) ↦ rw e (decode_one r rest lt)
  | inr (inl (lo, hi, e)) ↦ rw e (
      decode_two _ _ rest (omega arith) (omega arith) (omega arith) (omega arith)
      ∙ ap (λ x. x ∷ decode_after 0 rest) (omega arith))
  | inr (inr (inl (lo, hi, gap, e))) ↦ rw e (
      decode_three _ _ _ rest (omega arith) (omega arith) (omega arith) (omega arith) (omega arith)
        (omega arith) (omega arith) (omega arith)
      ∙ ap (λ x. x ∷ decode_after 0 rest) (three_value r hi))
  | inr (inr (inr (lo, hi, e))) ↦ rw e (
      decode_four _ _ _ _ rest (omega arith) (omega arith) (omega arith) (omega arith) (omega arith)
        (omega arith) (omega arith) (omega arith) (omega arith) (omega arith)
      ∙ ap (λ x. x ∷ decode_after 0 rest) (four_value r hi))
]

pub decode-encode : (rs : List ℕ) → AllScalar rs → decode (encode rs) ≡ rs
unfolding decode encode
decode-encode [] h = unfold decode_after in refl
decode-encode (r ∷ rs) h =
    decode_after-encode_rune r (encode rs) h.0 ∙ ap (◌∷◌ r) (decode-encode rs h.1)
