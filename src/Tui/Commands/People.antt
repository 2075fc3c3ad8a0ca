-- ===== src/Tui/Commands/People.antt =====
-- internal/tui/commands.go: the commands on users.
use terminal_social.Common.{◌||◌, List, [], ◌∷◌, ltb, length, ◌==◌, if◌then◌else◌}
use terminal_social.Common.Sets.{put}
use terminal_social.Text.{Bytes, codes}
use terminal_social.Text.Words.{trim_space, trim_prefix, split_n}
use terminal_social.Domain.{User, max_display_name, max_bio, max_pronouns}
use terminal_social.Store.Exec.{Result, ok, err}
use terminal_social.Store.Users.{user_by_handle, update_profile}
use terminal_social.Store.Messages.{is_empty}
use terminal_social.Store.Blocks.{block, unblock}
use terminal_social.Hub.{is_online}
use terminal_social.Tui.{
  App, Library, Cmd, idle, flash, usage, failed, no_such_user, dm_yourself, whois, blocked_user,
  unblocked_user, field_too_long, profile_updated,
}
use terminal_social.Tui.Render.{render_history}
use terminal_social.Tui.Ui.{Ui, give, call, look, change, ◌>>=◌, ◌>>◌}
use terminal_social.Tui.Channels.{refresh_blocks, open_dm}
use terminal_social.Tui.Chat.{send_current}
use terminal_social.Tui.Events.{is_peer}

-- A new peer goes to the front.
abbrev pub meet : User → App → App
meet u a =
    if is_peer u.id a
    then a
    else record a { dm_peers = u ∷ a.dm_peers; user_cache = put u.id u a.user_cache }

-- `/profile`. `m.user` and its entry in the cache are one object.
abbrev pub with_profile : Bytes → Bytes → Bytes → App → App
with_profile name bio pron a =
    let u = record (a.user) { display_name = name; bio = bio; pronouns = pron } in
    record a { user = u; user_cache = put u.id u a.user_cache }

abbrev pub saved_profile : Bytes → Bytes → Bytes → Result (Unit {0}) → Ui Cmd
saved_profile name bio pron (err e) = give (flash (failed e))
saved_profile name bio pron (ok t) = do
  change (with_profile name bio pron)
  give (flash profile_updated)

abbrev pub save_profile : Bytes → Bytes → Bytes → Ui Cmd
save_profile name bio pron =
    if ltb max_display_name (length name)
      || ltb max_bio (length bio)
      || ltb max_pronouns (length pron)
    then give (flash field_too_long)
    else (do
      a ← look (λ s. s.app)
      r ← call (update_profile a.user.id name bio pron)
      saved_profile name bio pron r)

-- The parts that are given; there is always a first one.
abbrev pub save_segs : User → List Bytes → Ui Cmd
save_segs u [] = save_profile u.display_name u.bio u.pronouns
save_segs u (n ∷ []) = save_profile (trim_space n) u.bio u.pronouns
save_segs u (n ∷ b ∷ []) = save_profile (trim_space n) (trim_space b) u.pronouns
save_segs u (n ∷ b ∷ p ∷ ps) = save_profile (trim_space n) (trim_space b) (trim_space p)

unfoldable pub profile_cmd : Bytes → Ui Cmd
profile_cmd rest = do
  a ← look (λ s. s.app)
  if is_empty rest then give (flash usage) else save_segs a.user (split_n b'|' 2 [] rest)

abbrev pub act_on : (User → Ui Cmd) → Result User → Ui Cmd
act_on act (err e) = give (flash no_such_user)
act_on act (ok u) = act u

module _ (lib : Library) where
  abbrev pub handle_of : Bytes → Bytes
  handle_of arg = trim_prefix (codes "@") (lib.to_lower arg)

  -- The user that a command names, if there is one.
  abbrev pub on_user : List Bytes → (Bytes → User → Ui Cmd) → Ui Cmd
  on_user [] act = give (flash usage)
  on_user (arg ∷ args) act = do u ← call (user_by_handle (handle_of arg)); act_on (act arg) u

  -- `/msg`.
  unfoldable pub msg_cmd : Bytes → List Bytes → Ui Cmd
  msg_cmd rest args = on_user args (λ arg u. do
    a ← look (λ s. s.app)
    if u.id == a.user.id then give (flash dm_yourself) else (do
      change (meet u)
      open_dm u.id
      let text = trim_space (trim_prefix arg rest)
      if is_empty text then give idle else send_current lib text))

  unfoldable pub whois_cmd : List Bytes → Ui Cmd
  whois_cmd args =
      on_user args (λ arg u. do on ← look (λ s. is_online u.id s.hub); give (flash (whois u on)))

  unfoldable pub block_cmd : List Bytes → Ui Cmd
  block_cmd args = on_user args (λ arg u. do
    s ← look (λ s. s)
    _ ← call (block s.now s.app.user.id u.id)
    refresh_blocks
    render_history
    give (flash (blocked_user (handle_of arg))))

  unfoldable pub unblock_cmd : List Bytes → Ui Cmd
  unblock_cmd args = on_user args (λ arg u. do
    a ← look (λ s. s.app)
    _ ← call (unblock a.user.id u.id)
    refresh_blocks
    render_history
    give (flash (unblocked_user (handle_of arg))))
