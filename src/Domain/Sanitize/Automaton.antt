-- ===== src/Domain/Sanitize/Automaton.antt =====
-- An independent description of what the sanitizer keeps: a finite automaton that reads each rune
-- once, with a mode for each kind of control sequence that it may stand in.
use terminal_social.Common.{ℕ, List, [], ◌∷◌, ◌==◌, if◌then◌else◌}
use terminal_social.Domain.Sanitize.{is_final, opens_string, selects_charset, keep_rune}

pub data Mode : Type 0 where
  text escape sequence string string_escape charset : Mode

-- The mode behind `ESC r`.
abbrev escape_mode : ℕ → Mode
escape_mode r =
    if r == b'['
    then sequence
    else if opens_string r
    then string
    else if selects_charset r
    then charset
    else text

abbrev string_mode : ℕ → Mode
string_mode r = if r == 0x07 then text else if r == 0x1B then string_escape else string

abbrev pub next_mode : Mode → ℕ → Mode
next_mode text r = if r == 0x1B then escape else if r == 0x9B then sequence else text
next_mode escape r = escape_mode r
next_mode sequence r = if is_final r then text else sequence
next_mode string r = string_mode r
next_mode string_escape r = if r == 0x5C then text else string_mode r
next_mode charset r = text

-- Only in `text` is a rune written, if it is no control.
abbrev pub written : Mode → ℕ → List ℕ → List ℕ
written text r rest = if r == 0x1B then rest else if r == 0x9B then rest else keep_rune r rest
written escape r rest = rest
written sequence r rest = rest
written string r rest = rest
written string_escape r rest = rest
written charset r rest = rest

unfoldable pub strip : Mode → List ℕ → List ℕ
strip m [] = []
strip m (r ∷ rs) = written m r (strip (next_mode m r) rs)
