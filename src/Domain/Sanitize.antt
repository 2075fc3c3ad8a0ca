-- ===== src/Domain/Sanitize.antt =====
-- `SanitizeUserText` of internal/domain/types.go, which strips terminal control sequences from what
-- users type. The index `i` of the source is kept: `get_elem? runes i` is `none` exactly when the
-- source's test `i < len(runes)` fails. A loop takes as fuel the number of runes that are left.
pub mod Automaton
pub mod Skips
pub mod Safe
pub mod Clean
use terminal_social.Common.{
  ℕ, zero, suc, ◌+◌, ◌-◌, Bool, false, ◌&&◌, ◌||◌, List, [], ◌∷◌, none, some, ltb, leb, ◌==◌,
  length, get_elem?, if◌then◌else◌,
}
use terminal_social.Text.{Bytes, trim_right}
use terminal_social.Text.Utf8.{in_range, encode, decode}

-- `unicode.IsControl`: the control characters and DEL; no rune above 0xFF is a control.
abbrev pub is_control : ℕ → Bool
is_control r = ltb r 0x20 || in_range 0x7F 0x9F r

-- The final byte of a control sequence.
abbrev pub is_final : ℕ → Bool
is_final r = in_range 0x40 0x7E r

-- `for i < len(runes) { … }` of `skipControlSequence`, which `skipEscape` repeats after `ESC [`.
csi_loop : ℕ → List ℕ → ℕ → ℕ
csi_loop zero runes i = length runes - 1
csi_loop (suc n) runes i = elim (get_elem? runes i) [
  | none ↦ length runes - 1
  | some r ↦ if is_final r then i else csi_loop n runes (suc i)
]

skip_control_sequence : List ℕ → ℕ → ℕ
unfolding csi_loop
skip_control_sequence runes i = csi_loop (length runes - i) runes i

-- `runes[i] == 0x1b && i+1 < len(runes) && runes[i+1] == '\\'`.
ends_string : ℕ → List ℕ → ℕ → Bool
ends_string r runes i =
    r == 0x1B && (elim (get_elem? runes (suc i)) [ none ↦ false | some c ↦ c == 0x5C ])

string_loop : ℕ → List ℕ → ℕ → ℕ
unfolding ends_string
string_loop zero runes i = length runes - 1
string_loop (suc n) runes i = elim (get_elem? runes i) [
  | none ↦ length runes - 1
  | some r ↦
      if r == 0x07 then i else if ends_string r runes i then suc i else string_loop n runes (suc i)
]

skip_string_control : List ℕ → ℕ → ℕ
unfolding string_loop
skip_string_control runes i = string_loop (length runes - i) runes i

-- `']', 'P', '^', '_'`, the openers of a string control.
abbrev opens_string : ℕ → Bool
opens_string r = r == b']' || r == b'P' || r == b'^' || r == b'_'

abbrev selects_charset : ℕ → Bool
selects_charset r = r == b'(' || r == b')'

skip_escape : List ℕ → ℕ → ℕ
unfolding skip_control_sequence skip_string_control
skip_escape runes i = elim (get_elem? runes (suc i)) [
  | none ↦ i
  | some r ↦
      if r == b'['
      then skip_control_sequence runes (suc (suc i))
      else if opens_string r
      then skip_string_control runes (suc (suc i))
      else if selects_charset r
      then (elim (get_elem? runes (suc (suc i))) [ none ↦ suc i | some _ ↦ suc (suc i) ])
      else suc i
]

-- What the loop's body writes for a rune that starts no sequence.
abbrev keep_rune : ℕ → List ℕ → List ℕ
keep_rune r rest =
    if in_range 0x80 0x9F r
    then rest
    else if r == 10 || r == 9
    then r ∷ rest
    else if ltb r 0x20 || r == 0x7F || is_control r
    then rest
    else r ∷ rest

sanitize_loop : ℕ → List ℕ → ℕ → List ℕ
unfolding skip_escape
sanitize_loop zero runes i = []
sanitize_loop (suc n) runes i = elim (get_elem? runes i) [
  | none ↦ []
  | some r ↦
      let after_escape = sanitize_loop n runes (suc (skip_escape runes i)) in
      let after_sequence = sanitize_loop n runes (suc (skip_control_sequence runes (suc i))) in
      let rest = sanitize_loop n runes (suc i) in
      if r == 0x1B then after_escape else if r == 0x9B then after_sequence else keep_rune r rest
]

unfoldable pub sanitize_runes : List ℕ → List ℕ
unfolding sanitize_loop
sanitize_runes runes = sanitize_loop (length runes) runes 0

unfoldable pub sanitize_user_text : Bytes → Bytes
unfolding sanitize_runes
sanitize_user_text s = trim_right (encode (sanitize_runes (decode s)))
