-- ===== src/Tui/Live/Chat.antt =====
-- The keys of the chat pane.
use terminal_social.Common.{
  ℕ, suc, ◌-◌, ◌<◌, ◌≡◌, refl, inl, inr, arith, Bool, true, false, ◌&&◌, [], ◌∷◌, length,
  length-append, ltb, get_elem?-below, Bool-cases, if◌then◌else◌,
}
use terminal_social.Text.{Bytes}
use terminal_social.Store.Messages.{is_empty}
use terminal_social.Tui.{
  App, Screen, Library, Cmd, idle, Key, ctrl_c, esc, question, tab, shift_tab, pgup, pgdown, enter,
  up, down, key_j, key_k, other,
}
use terminal_social.Tui.Ui.{Ui, give, look, change, ◌>>=◌}
use terminal_social.Tui.Update.{
  recalled, recall, remembered, submit, type_key, edited, recall_up, recall_down, update_chat,
}
use terminal_social.Tui.Live.{IsLive, Subs, Runs, Keeps, core, look-Keeps, Keeps-Runs}
use terminal_social.Tui.Live.Channels.{handlers}
use terminal_social.Tui.Live.Events.{send_current-Keeps}
use terminal_social.Tui.Live.Session.{
  Finishes, Keeps-Finishes, >>=-Finishes, if-Finishes, run_slash-Finishes,
}

module _ (lib : Library) where
  remembered-Keeps : (text : Bytes) → Keeps (change (remembered text))
  unfolding Keeps change
  remembered-Keeps text sub s live = inl (
    tt,
    record s { app = remembered text s.app },
    refl,
    record {
      consistent = live.consistent;
      own = live.own;
      named = live.named;
      open_sub = live.open_sub;
      others = live.others;
      index = omega (arith, length-append s.app.cmd_history (text ∷ []));
    },
  )

  submit-Finishes : Finishes (submit lib)
  unfolding submit
  submit-Finishes =
      search
        (
          >>=-Finishes, if-Finishes, Keeps-Finishes, run_slash-Finishes, handlers, remembered-Keeps,
          send_current-Keeps,
        )
        depth 12

  -- The index is one of the texts that have been sent.
  recall-Runs :
      (i : ℕ) (sub : Subs) (s : Screen)
      → i < length s.app.cmd_history
      → IsLive sub s
      → Runs sub (recall i s.app) s
  unfolding ◌>>=◌ change give
  recall-Runs i sub s h live =
      let (text, e) = get_elem?-below s.app.cmd_history i h in
      let a = record (s.app) { composer = text; cmd_history_idx = i } in
      inl (
        idle,
        record s { app = a },
        rw e refl,
        record {
          consistent = live.consistent;
          own = live.own;
          named = live.named;
          open_sub = live.open_sub;
          others = live.others;
          index = omega arith;
        },
      )

  if-Runs :
      (b : Bool) (m k : Ui Cmd) (sub : Subs) (s : Screen)
      → (b ≡ true → Runs sub m s)
      → (b ≡ false → Runs sub k s)
      → Runs sub (if b then m else k) s
  if-Runs true m k sub s h h' = h refl
  if-Runs false m k sub s h h' = h' refl

  edited-core : (k : Key) (a : App) → core (edited lib k a) ≡ core a
  edited-core k a = go a.focused
    where
      go :
          (b : Bool)
          → core (if b then record a { composer = lib.edit k a.composer } else a) ≡ core a
      go true = refl
      go false = refl

  type_key-Keeps : (k : Key) → Keeps (type_key lib k)
  type_key-Keeps k = search (handlers, edited-core)

  recall_up-Keeps : Keeps (recall_up lib)
  unfolding recall_up
  recall_up-Keeps =
      look-Keeps (λ s. s.app) _
        (λ sub s live.
          if-Runs (is_empty s.app.composer && ltb 0 (length s.app.cmd_history))
            (recall (s.app.cmd_history_idx - 1) s.app) (type_key lib up) sub s
            (λ h.
              recall-Runs (s.app.cmd_history_idx - 1) sub s (ground (arith, live.index, h)) live)
            (λ h. Keeps-Runs (type_key lib up) sub s (type_key-Keeps up) live))

  recalled-Keeps : Keeps (change recalled)
  unfolding Keeps change
  recalled-Keeps sub s live = inl (
    tt,
    record s { app = recalled s.app },
    refl,
    record {
      consistent = live.consistent;
      own = live.own;
      named = live.named;
      open_sub = live.open_sub;
      others = live.others;
      index = omega arith;
    },
  )

  recall_next-Keeps : Keeps (
      look (λ s. s.app) >>= λ a.
      if ltb (suc a.cmd_history_idx) (length a.cmd_history)
      then recall (suc a.cmd_history_idx) a
      else (change recalled >>= λ _. give idle))
  recall_next-Keeps =
      look-Keeps (λ s. s.app) _
        (λ sub s live.
          let none_left = change recalled >>= λ _. give idle in
          if-Runs (ltb (suc s.app.cmd_history_idx) (length s.app.cmd_history))
            (recall (suc s.app.cmd_history_idx) s.app) none_left sub s
            (λ h. recall-Runs (suc s.app.cmd_history_idx) sub s (ground (arith, h)) live)
            (λ h. Keeps-Runs none_left sub s (search (handlers, recalled-Keeps)) live))

  recall_down-Keeps : Keeps (recall_down lib)
  unfolding recall_down Keeps ◌>>=◌ look
  recall_down-Keeps sub s live = elim (Bool-cases (is_empty s.app.composer)) [
    | inl e ↦ rw e (recall_next-Keeps sub s live)
    | inr e ↦ rw e (type_key-Keeps down sub s live)
  ]

  pub update_chat-Finishes : (k : Key) → Finishes (update_chat lib k)
  update_chat-Finishes enter = submit-Finishes
  update_chat-Finishes up = Keeps-Finishes _ recall_up-Keeps
  update_chat-Finishes down = Keeps-Finishes _ recall_down-Keeps
  update_chat-Finishes esc = search (Keeps-Finishes, type_key-Keeps)
  update_chat-Finishes ctrl_c = search (Keeps-Finishes, type_key-Keeps)
  update_chat-Finishes question = search (Keeps-Finishes, type_key-Keeps)
  update_chat-Finishes tab = search (Keeps-Finishes, type_key-Keeps)
  update_chat-Finishes shift_tab = search (Keeps-Finishes, type_key-Keeps)
  update_chat-Finishes pgup = search (Keeps-Finishes, type_key-Keeps)
  update_chat-Finishes pgdown = search (Keeps-Finishes, type_key-Keeps)
  update_chat-Finishes key_j = search (Keeps-Finishes, type_key-Keeps)
  update_chat-Finishes key_k = search (Keeps-Finishes, type_key-Keeps)
  update_chat-Finishes (other c) = search (Keeps-Finishes, type_key-Keeps)
