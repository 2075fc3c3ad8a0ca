-- ===== src/Tui/Render.antt =====
-- `renderHistory` of internal/tui/app.go. Of a line that it renders only the body is kept, before line
-- breaks are indented; Option is none where a slice out of range panics.
pub mod Slices
use terminal_social.Common.{
  ℕ, suc, zero, ◌+◌, ◌-◌, Bool, true, false, List, [], ◌∷◌, ◌++◌, take, drop, Option, none, some,
  leb, length, if◌then◌else◌,
}
use terminal_social.Common.Sets.{mem}
use terminal_social.Text.{Bytes}
use terminal_social.Text.Words.{has_prefix}
use terminal_social.Domain.{Message}
use terminal_social.Store.Mentions.{parse_mentions}
use terminal_social.Tui.{Renderer, cur_key}
use terminal_social.Tui.Ui.{Ui, ran, crashed, bad_slice}

-- `text[from:to]`, where `from` is at most `to`.
abbrev pub slice : ℕ → ℕ → Bytes → Option Bytes
slice from to text = if leb to (length text) then some (take (to - from) (drop from text)) else none

abbrev pub then_text : Option Bytes → (Bytes → Option Bytes) → Option Bytes
then_text none f = none
then_text (some text) f = f text

module _ (style : Bytes → Bytes) (needle out : Bytes) where
  -- The inner loop: what is written behind `from`, where the search in the lowered text, of which
  -- `lower` is left, is at `pos`, and `skip` bytes of it belong to the match before.
  unfoldable pub mark : ℕ → Bytes → ℕ → ℕ → Option Bytes
  unfolding has_prefix
  mark skip [] pos from = slice from (length out) out
  mark (suc skip) (c ∷ lower) pos from = mark skip lower (suc pos) from
  mark zero (c ∷ lower) pos from = elim (has_prefix needle (c ∷ lower)) [
    | true ↦
        let to = pos + length needle in
        then_text (slice from pos out) (λ before. then_text (slice pos to out) (λ match.
          then_text (mark (length needle - 1) lower (suc pos) to)
            (λ rest. some (before ++ style match ++ rest))))
    | false ↦ mark zero lower (suc pos) from
  ]

module _ (r : Renderer) where
  abbrev pub style_of : Bytes → Bytes → Bytes → Bytes
  style_of self h = if r.same_fold h self then r.mention_style else r.accent_style

  -- The loop over the handles.
  unfoldable pub mark_all : Bytes → List Bytes → Bytes → Option Bytes
  unfolding mark
  mark_all self [] out = some out
  mark_all self (h ∷ hs) out =
      then_text (mark (style_of self h) (64 ∷ h) out zero (r.lower out) zero zero)
        (λ out'. mark_all self hs out')

  unfoldable pub highlight_mentions : Bytes → Bytes → Option Bytes
  unfolding mark_all
  highlight_mentions body self = mark_all self (parse_mentions r.lower body) body

  -- `renderMessage`, for a user with the handle `self` who blocks the users `blocked`.
  unfoldable pub render_message : Bytes → List ℕ → Message → Option Bytes
  render_message self blocked msg =
      if msg.deleted
      then some []
      else if mem msg.author_id blocked
      then some []
      else highlight_mentions msg.body self

  -- Every text can be rendered.
  unfoldable pub renders : Bytes → List ℕ → List Message → Bool
  unfolding render_message
  renders self blocked [] = true
  renders self blocked (msg ∷ msgs) = elim (render_message self blocked msg) [
    | none ↦ false
    | some text ↦ renders self blocked msgs
  ]

-- The texts that are shown; what they look like has no effect but a panic.
unfoldable pub render_history : Ui (Unit {0})
render_history s =
    if renders s.renderer s.app.user.handle s.app.blocked (s.app.messages (cur_key s.app))
    then ran (tt, s)
    else crashed bad_slice
