-- ===== src/Tui/Commands.antt =====
-- `runSlash` of internal/tui/commands.go, and how a session ends.
pub mod Rooms
pub mod People
pub mod Texts
pub mod Removal
use terminal_social.Common.{ℕ, Bool, true, false, ◌||◌, List, [], ◌∷◌, some, ◌==◌, if◌then◌else◌}
use terminal_social.Text.{Bytes, codes, bytes_eq}
use terminal_social.Text.Words.{fields, trim_space, trim_prefix}
use terminal_social.Hub.{unsubscribe}
use terminal_social.Tui.{App, Screen, Library, Cmd, idle, quit, flash, unknown}
use terminal_social.Tui.Ui.{Ui, ran, give, look, change, tell, ◌>>=◌, ◌>>◌, when}
use terminal_social.Tui.Commands.Rooms.{
  join_cmd, leave_cmd, create_cmd, topic_cmd, invite_cmd, remove_cmd,
}
use terminal_social.Tui.Commands.People.{msg_cmd, whois_cmd, block_cmd, unblock_cmd, profile_cmd}
use terminal_social.Tui.Commands.Texts.{
  report_cmd, delete_cmd, me_cmd, search_cmd, addkey_cmd, keys_cmd, notifications_cmd,
}

-- `OnDisconnect`, which has an effect the first time only.
unfoldable pub disconnect : Ui (Unit {0})
disconnect s = ran (tt, record s { disconnected = true })

abbrev pub end_sub : ℕ → Ui (Unit {0})
end_sub sub =
    if sub == 0
    then give tt
    else (do tell (unsubscribe sub); change (λ a. record a { hub_sub = 0 }))

unfoldable pub cleanup : Ui (Unit {0})
unfolding disconnect
cleanup = do a ← look (λ s. s.app); end_sub a.hub_sub; disconnect

-- `quit`.
unfoldable pub quit_app : Ui Cmd
unfolding cleanup
quit_app = do cleanup; give quit

abbrev pub either : Bytes → Bytes → Bytes → Bool
either cmd a b = bytes_eq cmd a || bytes_eq cmd b

module _ (lib : Library) where
  -- The `switch`, in the order of its cases.
  unfoldable pub dispatch : Bytes → List Bytes → Bytes → Ui Cmd
  unfolding quit_app
  dispatch cmd args rest =
      if either cmd (codes "/help") (codes "/?")
      then (do change (λ a. record a { help = true }); give idle)
      else if bytes_eq cmd (codes "/quit")
      then quit_app
      else if bytes_eq cmd (codes "/join")
      then join_cmd lib args
      else if bytes_eq cmd (codes "/leave")
      then leave_cmd
      else if bytes_eq cmd (codes "/create")
      then create_cmd lib args
      else if bytes_eq cmd (codes "/topic")
      then topic_cmd rest
      else if bytes_eq cmd (codes "/invite")
      then invite_cmd lib args
      else if either cmd (codes "/kick") (codes "/ban")
      then remove_cmd lib (bytes_eq cmd (codes "/ban")) cmd args
      else if bytes_eq cmd (codes "/msg")
      then msg_cmd lib rest args
      else if bytes_eq cmd (codes "/whois")
      then whois_cmd lib args
      else if bytes_eq cmd (codes "/block")
      then block_cmd lib args
      else if bytes_eq cmd (codes "/unblock")
      then unblock_cmd lib args
      else if bytes_eq cmd (codes "/report")
      then report_cmd args
      else if bytes_eq cmd (codes "/delete")
      then delete_cmd args
      else if bytes_eq cmd (codes "/me")
      then me_cmd lib rest
      else if bytes_eq cmd (codes "/search")
      then search_cmd lib rest
      else if bytes_eq cmd (codes "/profile")
      then profile_cmd rest
      else if bytes_eq cmd (codes "/addkey")
      then addkey_cmd lib rest
      else if bytes_eq cmd (codes "/keys")
      then keys_cmd
      else if either cmd (codes "/notifications") (codes "/notifs")
      then notifications_cmd
      else give (flash (unknown cmd))

  abbrev pub run_words : Bytes → List Bytes → Ui Cmd
  run_words line [] = give idle
  run_words line (p ∷ args) = dispatch (lib.to_lower p) args (trim_space (trim_prefix p line))

  unfoldable pub run_slash : Bytes → Ui Cmd
  unfolding dispatch
  run_slash line = run_words line (fields line)
