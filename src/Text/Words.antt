-- ===== src/Text/Words.antt =====
-- The functions of Go's `strings` that the interface uses, on bytes. A space is one of Unicode's, with the
-- bytes of its encoding.
use terminal_social.Common.{
  ℕ, zero, suc, Bool, true, false, ◌&&◌, ◌||◌, List, [], ◌∷◌, ◌++◌, reverse, leb, ◌==◌, length,
  drop, if◌then◌else◌,
}
use terminal_social.Text.{Bytes}

-- The width of the space that three bytes begin with, 0 if there is none; 0 is no byte of one.
abbrev pub space_width : ℕ → ℕ → ℕ → ℕ
space_width a b c =
    if leb 9 a && leb a 13 || a == 32
    then 1
    else if a == 194 && (b == 133 || b == 160)
    then 2
    else if a == 225 && b == 154 && c == 128
        || a == 226 && b == 128 && (leb 128 c && leb c 138 || c == 168 || c == 169 || c == 175)
        || a == 226 && b == 129 && c == 159
        || a == 227 && b == 128 && c == 128
    then 3
    else 0

abbrev pub leading_space : Bytes → ℕ
leading_space [] = 0
leading_space (a ∷ []) = space_width a 0 0
leading_space (a ∷ b ∷ []) = space_width a b 0
leading_space (a ∷ b ∷ c ∷ bs) = space_width a b c

abbrev or_else : ℕ → ℕ → ℕ
or_else zero n = n
or_else (suc m) n = suc m

-- The same at the end of a text that is read backwards.
abbrev trailing_space : Bytes → ℕ
trailing_space [] = 0
trailing_space (a ∷ []) = space_width a 0 0
trailing_space (b ∷ a ∷ []) = or_else (space_width b 0 0) (space_width a b 0)
trailing_space (c ∷ b ∷ a ∷ bs) =
    or_else (space_width c 0 0)
      (or_else (if space_width b c 0 == 2 then 2 else 0) (if space_width a b c == 3 then 3 else 0))

-- Drop what `width` finds at the front, again and again; `n` bytes of a space are still to go.
unfoldable pub drop_spaces : (Bytes → ℕ) → ℕ → Bytes → Bytes
drop_spaces width n [] = []
drop_spaces width (suc n) (b ∷ bs) = drop_spaces width n bs
drop_spaces width zero (b ∷ bs) = elim (width (b ∷ bs)) [
  | zero ↦ b ∷ bs
  | suc k ↦ drop_spaces width k bs
]

-- `strings.TrimSpace`.
unfoldable pub trim_space : Bytes → Bytes
unfolding drop_spaces
trim_space s = reverse (drop_spaces trailing_space 0 (reverse (drop_spaces leading_space 0 s)))

-- A word ends where a space begins.
abbrev close_word : Bytes → List Bytes → List Bytes
close_word [] words = words
close_word (b ∷ bs) words = reverse (b ∷ bs) ∷ words

-- `word` is what has been read of the word at hand, backwards.
unfoldable pub split_spaces : ℕ → Bytes → Bytes → List Bytes
split_spaces n word [] = close_word word []
split_spaces (suc n) word (b ∷ bs) = split_spaces n word bs
split_spaces zero word (b ∷ bs) = elim (leading_space (b ∷ bs)) [
  | zero ↦ split_spaces zero (b ∷ word) bs
  | suc k ↦ close_word word (split_spaces k [] bs)
]

-- `strings.Fields`.
unfoldable pub fields : Bytes → List Bytes
unfolding split_spaces
fields s = split_spaces 0 [] s

-- `strings.HasPrefix(s, p)`.
unfoldable pub has_prefix : Bytes → Bytes → Bool
has_prefix [] s = true
has_prefix (p ∷ ps) [] = false
has_prefix (p ∷ ps) (b ∷ bs) = p == b && has_prefix ps bs

-- `strings.TrimPrefix(s, p)`.
unfoldable pub trim_prefix : Bytes → Bytes → Bytes
unfolding has_prefix
trim_prefix p s = if has_prefix p s then drop (length p) s else s

-- `strings.Join(words, sep)`.
unfoldable pub join : Bytes → List Bytes → Bytes
join sep [] = []
join sep (w ∷ []) = w
join sep (w ∷ v ∷ words) = w ++ sep ++ join sep (v ∷ words)

-- `strings.SplitN(s, sep, n)` at a single byte.
unfoldable pub split_n : ℕ → ℕ → Bytes → Bytes → List Bytes
split_n sep n part [] = reverse part ∷ []
split_n sep zero part (b ∷ bs) = split_n sep zero (b ∷ part) bs
split_n sep (suc n) part (b ∷ bs) =
    let cut = split_n sep n [] bs in
    let more = split_n sep (suc n) (b ∷ part) bs in if b == sep then reverse part ∷ cut else more
