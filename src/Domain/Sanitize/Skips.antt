-- ===== src/Domain/Sanitize/Skips.antt =====
-- The index loops of the sanitizer meet the automaton: each skip lands where the automaton is back
-- in the mode `text`.
use terminal_social.Common.{
  ℕ, zero, suc, ◌-◌, ◌≤◌, ◌≡◌, refl, ap, Bool, false, ◌&&◌, List, [], ◌∷◌, arith, ◌==◌, length,
  drop, if◌then◌else◌, length-drop, drop-all, get_elem?-drop_nil, get_elem?-drop_cons,
}
use terminal_social.Domain.Sanitize.{
  is_final, opens_string, selects_charset, csi_loop, skip_control_sequence, ends_string,
  string_loop, skip_string_control, skip_escape, sanitize_loop, sanitize_runes,
}
use terminal_social.Domain.Sanitize.Automaton.{
  text, escape, sequence, string, string_escape, charset, strip,
}

-- What is left behind a control sequence, a string control and an escape.
abbrev after_sequence : List ℕ → List ℕ
after_sequence [] = []
after_sequence (r ∷ rs) = if is_final r then rs else after_sequence rs

abbrev backslash_next : List ℕ → Bool
backslash_next [] = false
backslash_next (c ∷ cs) = c == 0x5C

abbrev after_string : List ℕ → List ℕ
after_string [] = []
after_string (r ∷ rs) =
    if r == 0x07 then rs else if r == 0x1B && backslash_next rs then drop 1 rs else after_string rs

abbrev after_escape : List ℕ → List ℕ
after_escape [] = []
after_escape (c ∷ cs) =
    if c == b'['
    then after_sequence cs
    else if opens_string c
    then after_string cs
    else if selects_charset c
    then drop 1 cs
    else cs

length-after_sequence : (s : List ℕ) → length (after_sequence s) ≤ length s
length-after_sequence [] = omega arith
length-after_sequence (r ∷ rs) = ground (arith, length-after_sequence rs)

length-after_string : (s : List ℕ) → length (after_string s) ≤ length s
length-after_string [] = omega arith
length-after_string (r ∷ rs) = ground (arith, length-after_string rs, length-drop 1 rs)

length-after_escape : (s : List ℕ) → length (after_escape s) ≤ length s
length-after_escape [] = omega arith
length-after_escape (r ∷ rs) =
    ground (arith, length-after_string rs, length-after_sequence rs, length-drop 1 rs)

strip-sequence : (s : List ℕ) → strip sequence s ≡ strip text (after_sequence s)
unfolding strip
strip-sequence [] = refl
strip-sequence (r ∷ rs) = ground (arith, strip-sequence rs)

strip-string_escape :
    (s : List ℕ)
    → strip string_escape s ≡ (if backslash_next s then strip text (drop 1 s) else strip string s)
unfolding strip
strip-string_escape [] = refl
strip-string_escape (r ∷ rs) = ground arith

strip-string : (s : List ℕ) → strip string s ≡ strip text (after_string s)
unfolding strip
strip-string [] = refl
strip-string (r ∷ rs) = ground (arith, strip-string rs, strip-string_escape rs)

strip-charset : (s : List ℕ) → strip charset s ≡ strip text (drop 1 s)
unfolding strip
strip-charset [] = refl
strip-charset (r ∷ rs) = refl

strip-escape : (s : List ℕ) → strip escape s ≡ strip text (after_escape s)
unfolding strip
strip-escape [] = refl
strip-escape (r ∷ rs) = ground (arith, strip-string rs, strip-sequence rs, strip-charset rs)

module _ (runes : List ℕ) (some_rune : 1 ≤ length runes) where
  at_end : drop (suc (length runes - 1)) runes ≡ []
  at_end = drop-all (suc (length runes - 1)) runes (omega arith)

  csi_loop_lem :
      (n i : ℕ) (s : List ℕ)
      → drop i runes ≡ s
      → length s ≤ n
      → drop (suc (csi_loop n runes i)) runes ≡ after_sequence s
  unfolding csi_loop
  csi_loop_lem zero i [] e h = at_end
  csi_loop_lem zero i (r ∷ rs) e h = absurd (omega arith)
  csi_loop_lem (suc n) i [] e h = rw (get_elem?-drop_nil i runes e, csi_loop) at_end
  csi_loop_lem (suc n) i (r ∷ rs) e h =
      let (found, next) = get_elem?-drop_cons i runes r rs e in
      ground (arith, found, next, csi_loop_lem n (suc i) rs next)

  skip_control_sequence_lem :
      (i : ℕ) (s : List ℕ)
      → drop i runes ≡ s
      → drop (suc (skip_control_sequence runes i)) runes ≡ after_sequence s
  unfolding skip_control_sequence
  skip_control_sequence_lem i s e =
      csi_loop_lem (length runes - i) i s e (omega (arith, length-drop i runes, ap length e))

  ends_string_lem :
      (r i : ℕ) (s : List ℕ)
      → drop (suc i) runes ≡ s
      → ends_string r runes i ≡ (r == 0x1B && backslash_next s)
  unfolding ends_string
  ends_string_lem r i [] e = ground (arith, get_elem?-drop_nil (suc i) runes e)
  ends_string_lem r i (c ∷ cs) e = ground (arith, (get_elem?-drop_cons (suc i) runes c cs e).0)

  drop-suc : (i : ℕ) (s : List ℕ) → drop i runes ≡ s → drop (suc i) runes ≡ drop 1 s
  drop-suc i [] e = drop-all (suc i) runes (omega (arith, length-drop i runes, ap length e))
  drop-suc i (c ∷ cs) e = (get_elem?-drop_cons i runes c cs e).1

  string_loop_lem :
      (n i : ℕ) (s : List ℕ)
      → drop i runes ≡ s
      → length s ≤ n
      → drop (suc (string_loop n runes i)) runes ≡ after_string s
  unfolding string_loop
  string_loop_lem zero i [] e h = at_end
  string_loop_lem zero i (r ∷ rs) e h = absurd (omega arith)
  string_loop_lem (suc n) i [] e h = rw (get_elem?-drop_nil i runes e, string_loop) at_end
  string_loop_lem (suc n) i (r ∷ rs) e h =
      let (found, next) = get_elem?-drop_cons i runes r rs e in
      ground (
        arith,
        found,
        next,
        drop-suc (suc i) rs next,
        ends_string_lem r i rs next,
        string_loop_lem n (suc i) rs next,
      )

  skip_string_control_lem :
      (i : ℕ) (s : List ℕ)
      → drop i runes ≡ s
      → drop (suc (skip_string_control runes i)) runes ≡ after_string s
  unfolding skip_string_control
  skip_string_control_lem i s e =
      string_loop_lem (length runes - i) i s e (omega (arith, length-drop i runes, ap length e))

  skip_escape_lem :
      (i : ℕ) (s : List ℕ)
      → drop (suc i) runes ≡ s
      → drop (suc (skip_escape runes i)) runes ≡ after_escape s
  unfolding skip_escape
  skip_escape_lem i [] e = ground (arith, get_elem?-drop_nil (suc i) runes e)
  skip_escape_lem i (c ∷ []) e =
      let (found, next) = get_elem?-drop_cons (suc i) runes c [] e in
      ground (
        arith,
        found,
        next,
        get_elem?-drop_nil (suc (suc i)) runes next,
        skip_control_sequence_lem (suc (suc i)) [] next,
        skip_string_control_lem (suc (suc i)) [] next,
      )
  skip_escape_lem i (c ∷ d ∷ ds) e =
      let (found, next) = get_elem?-drop_cons (suc i) runes c (d ∷ ds) e in
      let (found', next') = get_elem?-drop_cons (suc (suc i)) runes d ds next in
      ground (
        arith,
        found,
        next,
        found',
        next',
        skip_control_sequence_lem (suc (suc i)) (d ∷ ds) next,
        skip_string_control_lem (suc (suc i)) (d ∷ ds) next,
      )

-- Enough fuel: as many rounds as there are runes left.
sanitize_loop_lem :
    (n : ℕ) (runes : List ℕ) (i : ℕ) (s : List ℕ)
    → drop i runes ≡ s
    → length s ≤ n
    → sanitize_loop n runes i ≡ strip text s
unfolding sanitize_loop strip
sanitize_loop_lem zero runes i [] e h = refl
sanitize_loop_lem zero runes i (r ∷ rs) e h = absurd (omega arith)
sanitize_loop_lem (suc n) runes i [] e h = ground (arith, get_elem?-drop_nil i runes e)
sanitize_loop_lem (suc n) runes i (r ∷ rs) e h =
    let (found, next) = get_elem?-drop_cons i runes r rs e in
    let some_rune : 1 ≤ length runes = omega (arith, ap length e, length-drop i runes) in
    ground (
      arith,
      found,
      sanitize_loop_lem n runes (suc i) rs next,
      strip-escape rs,
      strip-sequence rs,
      length-after_escape rs,
      length-after_sequence rs,
      sanitize_loop_lem n runes (suc (skip_escape runes i)) (after_escape rs)
          (skip_escape_lem runes some_rune i rs next),
      sanitize_loop_lem n runes (suc (skip_control_sequence runes (suc i))) (after_sequence rs)
          (skip_control_sequence_lem runes some_rune (suc i) rs next),
    )

-- On every text the index loop of `SanitizeUserText` writes exactly what the one-pass automaton
-- writes: no rune is read twice or skipped by the escape, string and character-set cases.
pub sanitize_runes-strip : (runes : List ℕ) → sanitize_runes runes ≡ strip text runes
unfolding sanitize_runes
sanitize_runes-strip runes = sanitize_loop_lem (length runes) runes 0 runes refl (omega arith)
