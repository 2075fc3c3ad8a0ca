-- ===== src/Text/Numbers.antt =====
-- `strconv.ParseInt(s, 10, 64)`.
use terminal_social.Common.{
  ℕ, ◌+◌, ◌-◌, ◌*◌, ◌^◌, ◌&&◌, [], ◌∷◌, Option, none, some, ltb, leb, ◌==◌, if◌then◌else◌,
}
use terminal_social.Text.{Bytes}

-- An `int64`: a natural number, or one below 0 by its magnitude.
pub data Number : Type 0 where
  plain minus : ℕ → Number

-- The number that the digits make behind `n`.
unfoldable pub read_digits : ℕ → Bytes → Option ℕ
read_digits n [] = some n
read_digits n (b ∷ bs) =
    let rest = read_digits (n * 10 + (b - 48)) bs in if leb b'0' b && leb b b'9' then rest else none

abbrev read_number : Bytes → Option ℕ
read_number [] = none
read_number (b ∷ bs) = read_digits 0 (b ∷ bs)

abbrev up_to : ℕ → (ℕ → Number) → Option ℕ → Option Number
up_to bound f none = none
up_to bound f (some n) = if ltb n bound then some (f n) else none

abbrev below_zero : ℕ → Number
below_zero n = if n == 0 then plain 0 else minus n

unfoldable pub parse_int : Bytes → Option Number
unfolding read_digits
parse_int [] = none
parse_int (b ∷ bs) =
    if b == b'-'
    then up_to (2 ^ 63 + 1) below_zero (read_number bs)
    else if b == b'+'
    then up_to (2 ^ 63) plain (read_number bs)
    else up_to (2 ^ 63) plain (read_number (b ∷ bs))
