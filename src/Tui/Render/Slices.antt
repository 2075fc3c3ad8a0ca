-- ===== src/Tui/Render/Slices.antt =====
-- `highlightMentions` of internal/tui/app.go on texts that are longer in lower case.
use terminal_social.Common.{
  ℕ, zero, suc, ◌+◌, ◌-◌, ◌≤◌, ◌<◌, ◌≡◌, refl, subst, Option, Bool, true, false, List, [], ◌∷◌,
  ◌++◌, none, some, inl, inr, arith, leb, length, ==_self, Bool-cases,
}
use terminal_social.Common.Sets.{mem}
use terminal_social.Text.{Bytes}
use terminal_social.Text.Words.{has_prefix}
use terminal_social.Store.Mentions.{parse_mentions}
use terminal_social.Common.Records.Order.{All}
use terminal_social.Domain.Names.{all_name_bytes, valid_handle}
use terminal_social.Store.Mentions.Handles.{IsHandle, parse_mentions-valid}
use terminal_social.Tui.{Renderer}
use terminal_social.Tui.Render.{slice, then_text, mark, mark_all, style_of, highlight_mentions}

has_prefix_self : (s : Bytes) → has_prefix s s ≡ true
unfolding has_prefix
has_prefix_self [] = refl
has_prefix_self (b ∷ bs) = rw (==_self b) (has_prefix_self bs)

-- A text that reaches over the byte behind `pre` has this byte in it.
has_prefix-mem :
    (h pre rest : Bytes) (x : ℕ)
    → has_prefix h (pre ++ x ∷ rest) ≡ true
    → length pre < length h
    → mem x h ≡ true
unfolding has_prefix mem
has_prefix-mem [] pre rest x k l = absurd (omega (arith, l))
has_prefix-mem (b ∷ h) [] rest x k l = ground (arith, k)
has_prefix-mem (b ∷ h) (c ∷ pre) rest x k l =
    ground (arith, k, has_prefix-mem h pre rest x (ground (arith, k)) (omega (arith, l)))

module _ (style : Bytes → Bytes) (h out : Bytes) where
  -- What is written at a match and behind it.
  abbrev at_match : Option Bytes → Option Bytes → Option Bytes → Option Bytes
  at_match a b c =
      then_text a (λ before.
        then_text b (λ match. then_text c (λ rest. some (before ++ style match ++ rest))))

  no_match : (a c : Option Bytes) → at_match a none c ≡ none
  no_match none c = refl
  no_match (some a) c = refl

  no_rest : (a b : Option Bytes) → at_match a b none ≡ none
  no_rest none b = refl
  no_rest (some a) none = refl
  no_rest (some a) (some b) = refl

  -- The search comes to the needle at the end of the lowered text, which lies behind the end of the text.
  mark-none :
      (pre : Bytes) (skip pos from : ℕ)
      → mem 64 h ≡ false
      → skip ≤ length pre
      → length out < pos + length (pre ++ 64 ∷ h)
      → mark style (64 ∷ h) out skip (pre ++ 64 ∷ h) pos from ≡ none
  unfolding mark has_prefix
  mark-none [] zero pos from once s l =
      let beyond : leb (pos + length (64 ∷ h)) (length out) ≡ false = ground (arith, l) in
      rw (has_prefix_self h, beyond)
        (no_match (slice from pos out)
          (mark style (64 ∷ h) out (length (64 ∷ h) - 1) h (suc pos) (pos + length (64 ∷ h))))
  mark-none [] (suc skip) pos from once s l = absurd (omega (arith, s))
  mark-none (c ∷ pre) (suc skip) pos from once s l =
      mark-none pre skip (suc pos) from once (omega (arith, s)) (omega (arith, l))
  mark-none (c ∷ pre) zero pos from once s l =
      turn_none (has_prefix (64 ∷ h) (c ∷ pre ++ 64 ∷ h)) refl
        (λ k.
          mark-none pre (length (64 ∷ h) - 1) (suc pos) (pos + length (64 ∷ h)) once
            (omega (arith, k)) (omega (arith, l)))
        (mark-none pre zero (suc pos) from once (omega arith) (omega (arith, l)))
    where
      reach : has_prefix (64 ∷ h) (c ∷ pre ++ 64 ∷ h) ≡ true → length h ≤ length pre
      reach e = elim (Bool-cases (leb (length h) (length pre))) [
        | inl k ↦ ground (arith, k)
        | inr k ↦ absurd (
            ground (arith, once, has_prefix-mem h pre h 64 (ground (arith, e)) (ground (arith, k))))
      ]

      behind : Option Bytes
      behind =
          mark style (64 ∷ h) out (length (64 ∷ h) - 1) (pre ++ 64 ∷ h) (suc pos)
            (pos + length (64 ∷ h))

      further : Option Bytes
      further = mark style (64 ∷ h) out zero (pre ++ 64 ∷ h) (suc pos) from

      turn : Bool → Option Bytes
      turn b = elim b [
        | true ↦ at_match (slice from pos out) (slice pos (pos + length (64 ∷ h)) out) behind
        | false ↦ further
      ]

      turn_none :
          (b : Bool)
          → has_prefix (64 ∷ h) (c ∷ pre ++ 64 ∷ h) ≡ b
          → (length h ≤ length pre → behind ≡ none)
          → further ≡ none
          → turn b ≡ none
      turn_none true e k k' = rw (k (reach e)) (no_rest _ _)
      turn_none false e k k' = k'

-- A handle holds no `@`.
all_name_bytes-mem : (h : Bytes) → all_name_bytes h ≡ true → mem 64 h ≡ false
unfolding all_name_bytes mem
all_name_bytes-mem [] k = refl
all_name_bytes-mem (c ∷ h) k = ground (arith, k, all_name_bytes-mem h (ground (arith, k)))

found-mem :
    (lower : Bytes → Bytes) (body h : Bytes) (hs : List Bytes)
    → parse_mentions lower body ≡ h ∷ hs
    → mem 64 h ≡ false
unfolding valid_handle
found-mem lower body h hs e =
    let valid : valid_handle h ≡ true =
      (subst (All IsHandle) e (parse_mentions-valid lower body).0).0 in
    all_name_bytes-mem h (ground (arith, valid))

-- If lowering makes a text longer, and the lowered text ends with the first handle that it mentions, then
-- `highlightMentions` slices out of range.
pub highlight_mentions-panics :
    (r : Renderer) (body self pre h : Bytes) (hs : List Bytes)
    → r.lower body ≡ pre ++ 64 ∷ h
    → parse_mentions r.lower body ≡ h ∷ hs
    → length body < length (r.lower body)
    → highlight_mentions r body self ≡ none
unfolding highlight_mentions mark_all
highlight_mentions-panics r body self pre h hs e found l =
    rw
      (
        found,
        e,
        mark-none (style_of r self h) h body pre zero zero zero (found-mem r.lower body h hs found)
            (omega arith) (omega (arith, subst (λ t. length body < length t) e l)),
      )
      refl
