-- ===== src/Domain/Sanitize/Safe.antt =====
-- The runes that `SanitizeUserText` may write.
use terminal_social.Common.{ℕ, ◌≡◌, refl, ◌⊎◌, false, List, [], ◌∷◌, arith}
use terminal_social.Text.Utf8.RoundTrip.{AllScalar}
use terminal_social.Domain.Sanitize.{is_control}
use terminal_social.Domain.Sanitize.Automaton.{
  Mode, text, escape, sequence, string, string_escape, charset, next_mode, strip,
}

-- A rune that a terminal shows or that moves to the next line or tab: no ESC, no control character
-- and no DEL.
abbrev pub IsSafe : ℕ → Type 0
IsSafe r = (r ≡ 10) ⊎ (r ≡ 9) ⊎ (is_control r ≡ false)

abbrev pub AllSafe : List ℕ → Type 0
AllSafe [] = Unit
AllSafe (r ∷ rs) = IsSafe r × AllSafe rs

pub strip-AllSafe : (m : Mode) (rs : List ℕ) → AllSafe (strip m rs)
unfolding strip
strip-AllSafe m [] = tt
strip-AllSafe text (r ∷ rs) = ground (arith, strip-AllSafe (next_mode text r) rs)
strip-AllSafe escape (r ∷ rs) = strip-AllSafe (next_mode escape r) rs
strip-AllSafe sequence (r ∷ rs) = strip-AllSafe (next_mode sequence r) rs
strip-AllSafe string (r ∷ rs) = strip-AllSafe (next_mode string r) rs
strip-AllSafe string_escape (r ∷ rs) = strip-AllSafe (next_mode string_escape r) rs
strip-AllSafe charset (r ∷ rs) = strip-AllSafe text rs

-- Stripping writes no rune that was not there.
pub strip-AllScalar : (m : Mode) (rs : List ℕ) → AllScalar rs → AllScalar (strip m rs)
unfolding strip
strip-AllScalar m [] h = tt
strip-AllScalar text (r ∷ rs) h = ground (arith, strip-AllScalar (next_mode text r) rs h.1)
strip-AllScalar escape (r ∷ rs) h = strip-AllScalar (next_mode escape r) rs h.1
strip-AllScalar sequence (r ∷ rs) h = strip-AllScalar (next_mode sequence r) rs h.1
strip-AllScalar string (r ∷ rs) h = strip-AllScalar (next_mode string r) rs h.1
strip-AllScalar string_escape (r ∷ rs) h = strip-AllScalar (next_mode string_escape r) rs h.1
strip-AllScalar charset (r ∷ rs) h = strip-AllScalar text rs h.1

pub strip_self : (rs : List ℕ) → AllSafe rs → strip text rs ≡ rs
unfolding strip
strip_self [] h = refl
strip_self (r ∷ rs) h = ground (arith, strip_self rs h.1)
