-- ===== src/Tui/Events.antt =====
-- `handleHubEvent` of internal/tui/app.go: what a session does with an event of its channel.
pub mod Unread
use terminal_social.Common.{
  ℕ, Bool, true, false, not, ◌&&◌, ◌||◌, List, [], ◌∷◌, ◌++◌, map, Option, none, some, ◌==◌,
  any_row, if◌then◌else◌,
}
use terminal_social.Common.Sets.{mem, insert, remove}
use terminal_social.Domain.{User, Message, Notification}
use terminal_social.Store.Exec.{Result}
use terminal_social.Store.History.{room_history_for_user, dm_history_for_user}
use terminal_social.Store.Notifications.{bump, mark_room_read, mark_dm_read}
use terminal_social.Hub.{
  Event, EventKind, room_msg, dm_msg, msg_deleted, presence, notify, room_meta, room_removed,
  leave_room,
}
use terminal_social.Tui.{
  App, Screen, Shown, ViewKind, view_room, view_dm, view_none, ChatKey, room_chat, dm_chat,
  put_chat, cur_key, shows_room, shows_dm,
}
use terminal_social.Tui.Render.{render_history}
use terminal_social.Tui.Ui.{Ui, give, call, look, change, panic, tell, ◌>>=◌, ◌>>◌, when, value_or}
use terminal_social.Tui.Channels.{
  refresh_rooms, cached_user, refresh_members, show_history, open_room, open_first,
}

-- `m.messages[key] = append(m.messages[key], msg)`.
abbrev pub append_chat : ChatKey → Message → App → App
append_chat key msg a = record a { messages = put_chat key (a.messages key ++ msg ∷ []) a.messages }

abbrev pub bump_room : ℕ → App → App
bump_room rid a = record a { unread_room = bump rid a.unread_room }

abbrev pub bump_dm : ℕ → App → App
bump_dm pid a = record a { unread_dm = bump pid a.unread_dm }

-- A nil message is dereferenced.
abbrev pub on_room_msg : Event → Option Message → Ui (Unit {0})
on_room_msg ev none = panic
on_room_msg ev (some msg) = do
  change (append_chat (room_chat ev.room_id) msg)
  s ← look (λ s. s)
  if shows_room ev.room_id s.app
      then (do render_history; _ ← call (mark_room_read s.now s.app.user.id ev.room_id); give tt)
      else when (not (mem s.app.user.id ev.mention_set)) (change (bump_room ev.room_id))

abbrev pub add_first : Option User → App → App
add_first none a = a
add_first (some u) a = record a { dm_peers = u ∷ a.dm_peers }

abbrev pub is_peer : ℕ → App → Bool
is_peer pid a = any_row (λ (u : User). u.id == pid) a.dm_peers

unfoldable pub ensure_peer : ℕ → Ui (Unit {0})
ensure_peer pid = do
  a ← look (λ s. s.app)
  when (not (is_peer pid a)) (do u ← cached_user pid; change (add_first u))

abbrev pub on_dm_msg : Event → Option Message → Ui (Unit {0})
on_dm_msg ev none = panic
on_dm_msg ev (some msg) = do
  change (append_chat (dm_chat ev.peer_id) msg)
  ensure_peer ev.peer_id
  s ← look (λ s. s)
  if shows_dm ev.peer_id s.app
      then (do render_history; _ ← call (mark_dm_read s.now s.app.user.id ev.peer_id); give tt)
      else when (not (msg.author_id == s.app.user.id)) (change (bump_dm ev.peer_id))

abbrev pub reload : ViewKind → Ui (Unit {0})
reload view_room = do
  a ← look (λ s. s.app)
  hist ← call (room_history_for_user a.user.id a.current_room_id 200)
  change (show_history hist)
reload view_dm = do
  a ← look (λ s. s.app)
  hist ← call (dm_history_for_user a.user.id a.current_peer_id 200)
  change (show_history hist)
reload view_none = give tt

abbrev pub set_online : ℕ → Bool → Shown → Shown
set_online uid on m = if m.member.user_id == uid then record m { online = on } else m

abbrev pub on_presence : ℕ → Bool → App → App
on_presence uid on a = record a {
  online = if on then insert uid a.online else remove uid a.online;
  members = map (set_online uid on) a.members;
}

-- `ev.Notif != nil && ev.Notif.RoomID != nil`.
abbrev pub notified_room : Option Notification → Option ℕ
notified_room none = none
notified_room (some n) = n.room_id

abbrev pub on_notify : Option ℕ → App → App
on_notify none a = a
on_notify (some rid) a = bump_room rid (record a { mention_room = insert rid a.mention_room })

abbrev pub no_room : App → App
no_room a = record a { current = view_none; current_room_id = 0; members = [] }

unfoldable pub on_room_removed : ℕ → Ui (Unit {0})
on_room_removed rid = do
  s ← look (λ s. s.app)
  tell (λ h. some (leave_room s.hub_sub rid h))
  refresh_rooms
  change (λ a. record a { messages = put_chat (room_chat rid) [] a.messages })
  a ← look (λ s. s.app)
  when (shows_room rid a) (open_first a.rooms (do change no_room; render_history))

abbrev pub on_event : EventKind → Event → Ui (Unit {0})
on_event room_msg ev = on_room_msg ev ev.message
on_event dm_msg ev = on_dm_msg ev ev.message
on_event msg_deleted ev = do a ← look (λ s. s.app); reload a.current; render_history
on_event presence ev = change (on_presence ev.user_id ev.online)
on_event notify ev = change (on_notify (notified_room ev.notif))
on_event room_meta ev = do
  refresh_rooms
  a ← look (λ s. s.app)
  when (shows_room ev.room_id a) (refresh_members ev.room_id)
on_event room_removed ev = on_room_removed ev.room_id

unfoldable pub handle_hub_event : Event → Ui (Unit {0})
handle_hub_event ev = on_event ev.kind ev
