-- ===== src/Text/Utf8.antt =====
-- UTF-8 as Go reads and writes it: `[]rune(s)` and `strings.Builder.WriteRune`.
pub mod RoundTrip
pub mod Scalar
use terminal_social.Common.{
  ℕ, zero, suc, ◌+◌, ◌*◌, ◌/◌, ◌%◌, Bool, ◌&&◌, ◌||◌, List, [], ◌∷◌, ◌++◌, arith, ltb, leb, ◌==◌,
  if◌then◌else◌,
}

-- `utf8.RuneError`, which stands for each byte that is not part of a valid encoding.
abbrev pub rune_error : ℕ
rune_error = 0xFFFD

abbrev pub in_range : ℕ → ℕ → ℕ → Bool
in_range lo hi b = leb lo b && leb b hi

-- The code points that UTF-8 encodes: no surrogates, nothing above 0x10FFFF.
abbrev pub is_scalar : ℕ → Bool
is_scalar r = ltb r 0xD800 || in_range 0xE000 0x10FFFF r

-- `utf8.AppendRune`; an invalid code point is written as `rune_error`.
unfoldable pub encode_rune : ℕ → List ℕ
encode_rune r =
    if leb r 0x7F
    then r ∷ []
    else if leb r 0x7FF
    then (0xC0 + r / 64) ∷ (0x80 + r % 64) ∷ []
    else if is_scalar r
    then if leb r 0xFFFF
      then (0xE0 + r / 4096) ∷ (0x80 + r / 64 % 64) ∷ (0x80 + r % 64) ∷ []
      else (0xF0 + r / 262144)
        ∷ (0x80 + r / 4096 % 64)
        ∷ (0x80 + r / 64 % 64)
        ∷ (0x80 + r % 64)
        ∷ []
    else 0xEF ∷ 0xBF ∷ 0xBD ∷ []

unfoldable pub encode : List ℕ → List ℕ
encode [] = []
encode (r ∷ rs) = encode_rune r ++ encode rs

-- A decoded code point with the number of bytes that follow its first one.
abbrev invalid : ℕ × ℕ
invalid = (rune_error, 0)

two_bytes : ℕ → List ℕ → ℕ × ℕ
two_bytes b [] = invalid
two_bytes b (c ∷ _) = if in_range 0x80 0xBF c then (b % 32 * 64 + c % 64, 1) else invalid

-- The second byte is held to `lo` and `hi`, which rule out overlong forms and surrogates.
three_bytes : ℕ → ℕ → ℕ → List ℕ → ℕ × ℕ
three_bytes lo hi b [] = invalid
three_bytes lo hi b (c ∷ []) = invalid
three_bytes lo hi b (c ∷ d ∷ _) =
    if in_range lo hi c && in_range 0x80 0xBF d
    then (b % 16 * 4096 + c % 64 * 64 + d % 64, 2)
    else invalid

four_bytes : ℕ → ℕ → ℕ → List ℕ → ℕ × ℕ
four_bytes lo hi b [] = invalid
four_bytes lo hi b (c ∷ []) = invalid
four_bytes lo hi b (c ∷ d ∷ []) = invalid
four_bytes lo hi b (c ∷ d ∷ e ∷ _) =
    if in_range lo hi c && in_range 0x80 0xBF d && in_range 0x80 0xBF e
    then (b % 8 * 262144 + c % 64 * 4096 + d % 64 * 64 + e % 64, 3)
    else invalid

-- `utf8.DecodeRune`, by the first byte `b`.
decode_lead : ℕ → List ℕ → ℕ × ℕ
decode_lead b rest =
    if ltb b 0x80
    then (b, 0)
    else if in_range 0xC2 0xDF b
    then two_bytes b rest
    else if b == 0xE0
    then three_bytes 0xA0 0xBF b rest
    else if b == 0xED
    then three_bytes 0x80 0x9F b rest
    else if in_range 0xE1 0xEF b
    then three_bytes 0x80 0xBF b rest
    else if b == 0xF0
    then four_bytes 0x90 0xBF b rest
    else if b == 0xF4
    then four_bytes 0x80 0x8F b rest
    else if in_range 0xF1 0xF3 b
    then four_bytes 0x80 0xBF b rest
    else invalid

unfoldable pub decode_rune : ℕ → List ℕ → ℕ × ℕ
unfolding decode_lead two_bytes three_bytes four_bytes
decode_rune b rest = decode_lead b rest

-- `skip` bytes of the code point before are still to be passed over.
unfoldable pub decode_after : ℕ → List ℕ → List ℕ
decode_after skip [] = []
decode_after (suc skip) (b ∷ bs) = decode_after skip bs
decode_after zero (b ∷ bs) = let (r, skip) = decode_rune b bs in r ∷ decode_after skip bs

-- `[]rune(s)`.
unfoldable pub decode : List ℕ → List ℕ
unfolding decode_after
decode bs = decode_after 0 bs
