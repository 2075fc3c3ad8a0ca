-- ===== src/Tui/Commands/Rooms.antt =====
-- internal/tui/commands.go: the commands on rooms.
use terminal_social.Common.{
  ℕ, ◌-◌, Bool, true, false, not, ◌&&◌, List, [], ◌∷◌, Option, none, some, ltb, leb, length, take,
  if◌then◌else◌,
}
use terminal_social.Text.{Bytes, codes, bytes_eq}
use terminal_social.Text.Words.{trim_prefix, join}
use terminal_social.Domain.{User, Room, Role, owner, moderator, member, max_topic_len}
use terminal_social.Domain.Names.{valid_room_name}
use terminal_social.Store.Exec.{Result, ok, err}
use terminal_social.Store.Users.{user_by_handle}
use terminal_social.Store.Rooms
use terminal_social.Store.Rooms.{
  room_by_name, create_room, is_member, has_role, set_topic, ban_from_room, kick_from_room,
  count_room_creates,
}
use terminal_social.Hub.{
  Event, room_meta, join_room, leave_room, remove_user_from_room, publish_room,
}
use terminal_social.Tui.{
  Library, Cmd, flash, usage, invalid_name, no_such_room, private_room, failed, joined_room,
  not_in_room, left_room, room_limit, room_exists, created_room, only_owner, topic_updated,
  only_mods, no_such_user, invited, applied, is_room, view_none,
}
use terminal_social.Tui.Ui.{Ui, give, call, look, change, tell, ◌>>=◌, ◌>>◌, value_or, is_ok}
use terminal_social.Tui.Channels.{refresh_rooms, open_room, open_first}
use terminal_social.Tui.Chat.{blank}

abbrev pub meta_event : ℕ → Event
meta_event rid = record (blank room_meta) { room_id = rid }

unfoldable pub announce : ℕ → Ui (Unit {0})
announce rid = tell (publish_room rid (meta_event rid))

-- `/join`.
abbrev pub may_enter : Room → Ui Bool
may_enter r =
    if r.is_private
    then (do
      a ← look (λ s. s.app)
      role ← call (is_member r.id a.user.id)
      give (has_role (value_or none role)))
    else give true

abbrev pub entered : Bytes → ℕ → Result (Unit {0}) → Ui Cmd
entered name rid (err e) = give (flash (failed e))
entered name rid (ok t) = do
  refresh_rooms
  a ← look (λ s. s.app)
  tell (λ h. some (join_room a.hub_sub rid h))
  announce rid
  open_room rid
  give (flash (joined_room name))

abbrev pub enter_found : Bytes → Result Room → Ui Cmd
enter_found name (err e) = give (flash no_such_room)
enter_found name (ok r) = do
  allowed ← may_enter r
  if allowed
      then (do
        s ← look (λ s. s)
        joined ← call (Rooms.join_room s.now r.id s.app.user.id)
        entered name r.id joined)
      else give (flash private_room)

-- `/leave`.
unfoldable pub leave_cmd : Ui Cmd
unfolding announce
leave_cmd = do
  a ← look (λ s. s.app)
  if is_room a.current
      then (do
        _ ← call (Rooms.leave_room a.current_room_id a.user.id)
        tell (λ h. some (leave_room a.hub_sub a.current_room_id h))
        refresh_rooms
        b ← look (λ s. s.app)
        open_first b.rooms (change (λ a. record a { current = view_none }))
        announce a.current_room_id
        give (flash left_room))
      else give (flash not_in_room)

-- `/create`.
abbrev pub created : Bytes → Result Room → Ui Cmd
created name (err e) = give (flash (failed e))
created name (ok r) = do
  refresh_rooms
  a ← look (λ s. s.app)
  tell (λ h. some (join_room a.hub_sub r.id h))
  open_room r.id
  give (flash (created_room name))

-- At most five rooms in 86400 seconds, a day.
unfoldable pub create_named : Bytes → Bool → Ui Cmd
create_named name priv = do
  s ← look (λ s. s)
  n ← call (count_room_creates (s.now - 86400) s.app.user.id)
  if leb 5 (value_or 0 n) then give (flash room_limit) else (do
    existing ← call (room_by_name name)
    if is_ok existing
        then give (flash room_exists)
        else (do r ← call (create_room s.now name priv s.app.user.id); created name r))

abbrev pub is_owner : Option Role → Bool
is_owner none = false
is_owner (some owner) = true
is_owner (some moderator) = false
is_owner (some member) = false

abbrev pub is_mod : Option Role → Bool
is_mod none = false
is_mod (some owner) = true
is_mod (some moderator) = true
is_mod (some member) = false

-- The role in the room that is open, as far as the store answers.
unfoldable pub own_role : Ui (Option Role)
own_role = do
  a ← look (λ s. s.app)
  role ← call (is_member a.current_room_id a.user.id)
  give (value_or none role)

-- `/topic`.
unfoldable pub topic_cmd : Bytes → Ui Cmd
unfolding announce own_role
topic_cmd rest = do
  a ← look (λ s. s.app)
  if is_room a.current
      then (do
        role ← own_role
        if not (is_owner role) && not a.user.is_admin then give (flash only_owner) else (do
          _ ← call (
              set_topic a.current_room_id
                (if ltb max_topic_len (length rest) then take max_topic_len rest else rest))
          announce a.current_room_id
          give (flash topic_updated)))
      else give (flash not_in_room)

module _ (lib : Library) where
  unfoldable pub join_cmd : List Bytes → Ui Cmd
  unfolding announce
  join_cmd [] = give (flash usage)
  join_cmd (arg ∷ args) =
      let name = trim_prefix (codes "#") (lib.to_lower arg) in
      if valid_room_name name
      then (do r ← call (room_by_name name); enter_found name r)
      else give (flash invalid_name)

  abbrev pub is_private_arg : List Bytes → Bool
  is_private_arg [] = false
  is_private_arg (arg ∷ args) = bytes_eq (lib.to_lower arg) (codes "private")

  unfoldable pub create_cmd : List Bytes → Ui Cmd
  unfolding create_named
  create_cmd [] = give (flash usage)
  create_cmd (arg ∷ args) =
      let name = trim_prefix (codes "#") (lib.to_lower arg) in
      if valid_room_name name
      then create_named name (is_private_arg args)
      else give (flash invalid_name)

  abbrev pub handle_arg : Bytes → Bytes
  handle_arg arg = trim_prefix (codes "@") (lib.to_lower arg)

  -- `/invite`.
  abbrev pub invited_to : Bytes → ℕ → Result (Unit {0}) → Ui Cmd
  invited_to h rid (err e) = give (flash (failed e))
  invited_to h rid (ok t) = do announce rid; give (flash (invited h))

  abbrev pub invite_found : Bytes → Result User → Ui Cmd
  invite_found h (err e) = give (flash no_such_user)
  invite_found h (ok u) = do
    s ← look (λ s. s)
    joined ← call (Rooms.join_room s.now s.app.current_room_id u.id)
    invited_to h s.app.current_room_id joined

  abbrev pub invite_first : List Bytes → Ui Cmd
  invite_first [] = give (flash usage)
  invite_first (arg ∷ args) = do
    a ← look (λ s. s.app)
    role ← own_role
    if not (is_mod role) && not a.user.is_admin
        then give (flash only_mods)
        else (do u ← call (user_by_handle (handle_arg arg)); invite_found (handle_arg arg) u)

  unfoldable pub invite_cmd : List Bytes → Ui Cmd
  unfolding announce own_role
  invite_cmd args = do
    a ← look (λ s. s.app)
    if is_room a.current then invite_first args else give (flash not_in_room)

  -- `/kick` and `/ban`, with the word that was typed.
  abbrev pub remove_found : Bool → Bytes → Bytes → Result User → Ui Cmd
  remove_found ban cmd reason (err e) = give (flash no_such_user)
  remove_found ban cmd reason (ok u) = do
    s ← look (λ s. s)
    let rid = s.app.current_room_id
    _ ←
        call (
          if ban
          then ban_from_room s.now rid u.id s.app.user.id reason
          else kick_from_room rid u.id)
    tell (remove_user_from_room u.id rid)
    announce rid
    give (flash (applied cmd))

  abbrev pub remove_first : Bool → Bytes → List Bytes → Ui Cmd
  remove_first ban cmd [] = give (flash usage)
  remove_first ban cmd (arg ∷ args) = do
    a ← look (λ s. s.app)
    role ← own_role
    if not (is_mod role) && not a.user.is_admin then give (flash only_mods) else (do
      u ← call (user_by_handle (handle_arg arg))
      remove_found ban cmd (join (codes " ") args) u)

  unfoldable pub remove_cmd : Bool → Bytes → List Bytes → Ui Cmd
  unfolding announce own_role
  remove_cmd ban cmd args = do
    a ← look (λ s. s.app)
    if is_room a.current then remove_first ban cmd args else give (flash not_in_room)
