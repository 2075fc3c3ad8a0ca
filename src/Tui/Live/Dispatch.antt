-- ===== src/Tui/Live/Dispatch.antt =====
-- The commands that ask the library, and the choice among all of them.
use terminal_social.Common.{ℕ, Bool, List, [], ◌∷◌}
use terminal_social.Text.{Bytes}
use terminal_social.Domain.{User}
use terminal_social.Store.Exec.{Result, ok, err}
use terminal_social.Tui.{Library, Cmd}
use terminal_social.Tui.Ui.{Ui}
use terminal_social.Tui.Commands.People.{
  act_on, on_user, msg_cmd, whois_cmd, block_cmd, unblock_cmd,
}
use terminal_social.Tui.Commands.Rooms.{
  join_cmd, create_cmd, invited_to, invite_found, invite_first, invite_cmd, remove_found,
  remove_first, remove_cmd,
}
use terminal_social.Tui.Commands.Texts.{search_cmd, me_cmd, addkey_cmd}
use terminal_social.Tui.Live.{Keeps, >>=-Keeps, give-Keeps, call-Keeps, remove_user_from_room-Keeps}
use terminal_social.Tui.Live.Channels.{handlers, refresh_blocks-Keeps, open_dm-Keeps}
use terminal_social.Tui.Live.Events.{send_current-Keeps}
use terminal_social.Tui.Live.Commands.{
  announce-Keeps, enter_found-Keeps, create_named-Keeps, own_role-Keeps, add_parsed-Keeps,
  show_results-Keeps, meet-core,
}

act_on-Keeps :
    (act : User → Ui Cmd) → ((u : User) → Keeps (act u)) → (r : Result User) → Keeps (act_on act r)
act_on-Keeps act h (err e) = give-Keeps _
act_on-Keeps act h (ok u) = h u

module _ (lib : Library) where
  pub join_cmd-Keeps : (args : List Bytes) → Keeps (join_cmd lib args)
  unfolding join_cmd
  join_cmd-Keeps [] = give-Keeps _
  join_cmd-Keeps (arg ∷ args) = search (handlers, enter_found-Keeps)

  pub create_cmd-Keeps : (args : List Bytes) → Keeps (create_cmd lib args)
  unfolding create_cmd
  create_cmd-Keeps [] = give-Keeps _
  create_cmd-Keeps (arg ∷ args) = search (handlers, create_named-Keeps)

  invited_to-Keeps : (h : Bytes) (rid : ℕ) (r : Result (Unit {0})) → Keeps (invited_to lib h rid r)
  invited_to-Keeps h rid (err e) = give-Keeps _
  invited_to-Keeps h rid (ok t) = search (handlers, announce-Keeps)

  invite_found-Keeps : (h : Bytes) (r : Result User) → Keeps (invite_found lib h r)
  invite_found-Keeps h (err e) = give-Keeps _
  invite_found-Keeps h (ok u) = search (handlers, invited_to-Keeps)

  invite_first-Keeps : (args : List Bytes) → Keeps (invite_first lib args)
  invite_first-Keeps [] = give-Keeps _
  invite_first-Keeps (arg ∷ args) = search (handlers, own_role-Keeps, invite_found-Keeps) depth 12

  pub invite_cmd-Keeps : (args : List Bytes) → Keeps (invite_cmd lib args)
  unfolding invite_cmd
  invite_cmd-Keeps args = search (handlers, invite_first-Keeps)

  remove_found-Keeps :
      (ban : Bool) (cmd reason : Bytes) (r : Result User)
      → Keeps (remove_found lib ban cmd reason r)
  remove_found-Keeps ban cmd reason (err e) = give-Keeps _
  remove_found-Keeps ban cmd reason (ok u) =
      search (handlers, remove_user_from_room-Keeps, announce-Keeps) depth 12

  remove_first-Keeps :
      (ban : Bool) (cmd : Bytes) (args : List Bytes) → Keeps (remove_first lib ban cmd args)
  remove_first-Keeps ban cmd [] = give-Keeps _
  remove_first-Keeps ban cmd (arg ∷ args) =
      search (handlers, own_role-Keeps, remove_found-Keeps) depth 12

  pub remove_cmd-Keeps :
      (ban : Bool) (cmd : Bytes) (args : List Bytes) → Keeps (remove_cmd lib ban cmd args)
  unfolding remove_cmd
  remove_cmd-Keeps ban cmd args = search (handlers, remove_first-Keeps)

  on_user-Keeps :
      (args : List Bytes) (act : Bytes → User → Ui Cmd)
      → ((arg : Bytes) (u : User) → Keeps (act arg u))
      → Keeps (on_user lib args act)
  on_user-Keeps [] act h = give-Keeps _
  on_user-Keeps (arg ∷ args) act h = >>=-Keeps _ _ (call-Keeps _) (act_on-Keeps (act arg) (h arg))

  pub msg_cmd-Keeps : (rest : Bytes) (args : List Bytes) → Keeps (msg_cmd lib rest args)
  unfolding msg_cmd
  msg_cmd-Keeps rest args =
      on_user-Keeps args _
        (λ arg u. search (handlers, meet-core, open_dm-Keeps, send_current-Keeps) depth 12)

  pub whois_cmd-Keeps : (args : List Bytes) → Keeps (whois_cmd lib args)
  unfolding whois_cmd
  whois_cmd-Keeps args = on_user-Keeps args _ (λ arg u. search handlers)

  pub block_cmd-Keeps : (args : List Bytes) → Keeps (block_cmd lib args)
  unfolding block_cmd
  block_cmd-Keeps args =
      on_user-Keeps args _ (λ arg u. search (handlers, refresh_blocks-Keeps) depth 12)

  pub unblock_cmd-Keeps : (args : List Bytes) → Keeps (unblock_cmd lib args)
  unfolding unblock_cmd
  unblock_cmd-Keeps args =
      on_user-Keeps args _ (λ arg u. search (handlers, refresh_blocks-Keeps) depth 12)

  pub search_cmd-Keeps : (rest : Bytes) → Keeps (search_cmd lib rest)
  unfolding search_cmd
  search_cmd-Keeps rest = search (handlers, show_results-Keeps) depth 12

  pub me_cmd-Keeps : (rest : Bytes) → Keeps (me_cmd lib rest)
  unfolding me_cmd
  me_cmd-Keeps rest = search (handlers, send_current-Keeps) depth 12

  pub addkey_cmd-Keeps : (rest : Bytes) → Keeps (addkey_cmd lib rest)
  unfolding addkey_cmd
  addkey_cmd-Keeps rest = search (handlers, add_parsed-Keeps) depth 12
