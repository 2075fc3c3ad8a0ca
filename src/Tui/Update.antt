-- ===== src/Tui/Update.antt =====
-- `Update` of internal/tui/app.go: what the program does with a message of the runtime. The layout and
-- scrolling are left out, and of all messages only keys reach the text of the composer.
use terminal_social.Common.{
  ℕ, suc, ◌+◌, ◌-◌, Bool, true, false, not, ◌&&◌, [], ◌∷◌, ◌++◌, map, Option, none, some, length,
  ltb, get_elem?, if◌then◌else◌,
}
use terminal_social.Text.{Bytes, codes}
use terminal_social.Text.Words.{has_prefix, trim_space}
use terminal_social.Domain.Sanitize.{sanitize_user_text}
use terminal_social.Store.Messages.{is_empty}
use terminal_social.Hub.{Event, online_user_ids}
use terminal_social.Tui.{
  App, Library, Shown, Cmd, idle, tick, Notice, Pane, pane_nav, pane_chat, pane_members, Key,
  ctrl_c, esc, question, tab, shift_tab, pgup, pgdown, enter, up, down, key_j, key_k, other, shown,
}
use terminal_social.Tui.Render.{render_history}
use terminal_social.Tui.Ui.{Ui, give, look, change, panic, ◌>>=◌, ◌>>◌}
use terminal_social.Tui.Channels.{add_all, listen_hub}
use terminal_social.Tui.Chat.{send_current}
use terminal_social.Tui.Events.{handle_hub_event}
use terminal_social.Tui.Nav.{nav_move, nav_activate}
use terminal_social.Tui.Commands.{quit_app, run_slash}

pub data Msg : Type 0 where
  window_size tick_msg disconnect_msg : Msg
  hub_event : Event → Msg
  info : Notice → Msg
  key : Key → Msg

unfoldable pub on_tick : Ui Cmd
on_tick = do
  s ← look (λ s. s)
  let on = add_all (online_user_ids s.hub) []
  change (λ a. record a { online = on; members = map (λ (m : Shown). shown on m.member) a.members })
  give tick

abbrev pub next_pane : Pane → Pane
next_pane pane_nav = pane_chat
next_pane pane_chat = pane_members
next_pane pane_members = pane_nav

abbrev pub is_chat : Pane → Bool
is_chat pane_nav = false
is_chat pane_chat = true
is_chat pane_members = false

-- The composer has the focus where the pane is the chat.
abbrev pub go_to : Pane → App → App
go_to p a = record a { pane = p; focused = is_chat p }

abbrev pub recalled : App → App
recalled a = record a { composer = []; cmd_history_idx = length a.cmd_history }

-- `m.composer.SetValue(m.cmdHistory[i])`; an index behind the end panics.
abbrev pub set_composer : ℕ → Option Bytes → Ui (Unit {0})
set_composer i none = panic
set_composer i (some text) = change (λ a. record a { composer = text; cmd_history_idx = i })

abbrev pub recall : ℕ → App → Ui Cmd
recall i a = do set_composer i (get_elem? a.cmd_history i); give idle

abbrev pub remembered : Bytes → App → App
remembered text a = record a {
  cmd_history = a.cmd_history ++ text ∷ [];
  cmd_history_idx = suc (length a.cmd_history);
}

module _ (lib : Library) where
  -- `m.composer.Update(msg)`.
  abbrev pub edited : Key → App → App
  edited k a = if a.focused then record a { composer = lib.edit k a.composer } else a

  abbrev pub type_key : Key → Ui Cmd
  type_key k = do change (edited k); give idle

  -- The case of `enter` in `updateChat`.
  unfoldable pub submit : Ui Cmd
  submit = do
    a ← look (λ s. s.app)
    let text = sanitize_user_text (trim_space a.composer)
    if is_empty text then give idle else (do
      change (λ a. record a { composer = [] })
      if has_prefix (codes "/") text
          then run_slash lib text
          else (do change (remembered text); send_current lib text))

  -- The case of `up`: an index of 0 stays, and nothing is recalled over a text.
  unfoldable pub recall_up : Ui Cmd
  recall_up = do
    a ← look (λ s. s.app)
    if is_empty a.composer && ltb 0 (length a.cmd_history)
        then recall (a.cmd_history_idx - 1) a
        else type_key up

  unfoldable pub recall_down : Ui Cmd
  recall_down = do
    a ← look (λ s. s.app)
    if not (is_empty a.composer)
        then type_key down
        else if ltb (suc a.cmd_history_idx) (length a.cmd_history)
        then recall (suc a.cmd_history_idx) a
        else (do change recalled; give idle)

  -- `updateChat`.
  abbrev pub update_chat : Key → Ui Cmd
  update_chat enter = submit
  update_chat up = recall_up
  update_chat down = recall_down
  update_chat esc = type_key esc
  update_chat ctrl_c = type_key ctrl_c
  update_chat question = type_key question
  update_chat tab = type_key tab
  update_chat shift_tab = type_key shift_tab
  update_chat pgup = type_key pgup
  update_chat pgdown = type_key pgdown
  update_chat key_j = type_key key_j
  update_chat key_k = type_key key_k
  update_chat (other c) = type_key (other c)

  -- `updateNav`.
  abbrev pub update_nav : Key → Ui Cmd
  update_nav key_j = do nav_move true; give idle
  update_nav down = do nav_move true; give idle
  update_nav key_k = do nav_move false; give idle
  update_nav up = do nav_move false; give idle
  update_nav enter = do nav_activate; give idle
  update_nav esc = give idle
  update_nav ctrl_c = give idle
  update_nav question = give idle
  update_nav tab = give idle
  update_nav shift_tab = give idle
  update_nav pgup = give idle
  update_nav pgdown = give idle
  update_nav (other c) = give idle

  abbrev pub update_pane : Pane → Key → Ui Cmd
  update_pane pane_nav k = update_nav k
  update_pane pane_chat k = update_chat k
  update_pane pane_members k = give idle

  -- A key that the program does not take itself goes to the pane.
  abbrev pub pass_on : Key → Ui Cmd
  pass_on k = do a ← look (λ s. s.app); update_pane a.pane k

  abbrev pub ask_help : Ui Cmd
  ask_help = do
    a ← look (λ s. s.app)
    if a.focused
        then update_pane a.pane question
        else (do change (λ a. record a { help = true }); give idle)

  abbrev pub on_key : Key → Ui Cmd
  on_key ctrl_c = quit_app
  on_key esc = do change (λ a. record a { focused = not a.focused }); give idle
  on_key question = ask_help
  on_key tab = do change (λ a. go_to (next_pane a.pane) a); give idle
  on_key shift_tab = do change (λ a. go_to (next_pane (next_pane a.pane)) a); give idle
  on_key pgup = give idle
  on_key pgdown = give idle
  on_key enter = pass_on enter
  on_key up = pass_on up
  on_key down = pass_on down
  on_key key_j = pass_on key_j
  on_key key_k = pass_on key_k
  on_key (other c) = pass_on (other c)

  unfoldable pub update_key : Key → Ui Cmd
  update_key k = do
    a ← look (λ s. s.app)
    if a.help then (do change (λ a. record a { help = false }); give idle) else on_key k

  -- A flash is shown for four seconds.
  abbrev pub on_info : Notice → Ui Cmd
  on_info n = do
    s ← look (λ s. s)
    change (λ a. record a { flash_line = some n; flash_until = s.now + 4 })
    give idle

  unfoldable pub update : Msg → Ui Cmd
  unfolding on_tick update_key
  update window_size = do render_history; give idle
  update tick_msg = on_tick
  update disconnect_msg = quit_app
  update (hub_event ev) = do handle_hub_event ev; listen_hub
  update (info n) = on_info n
  update (key k) = update_key k
