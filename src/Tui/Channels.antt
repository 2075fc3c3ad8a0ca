-- ===== src/Tui/Channels.antt =====
-- internal/tui/app.go: what a session reads from the store, and how it opens a room or a conversation.
pub mod Opening
use terminal_social.Common.{
  ℕ, Bool, true, false, List, [], ◌∷◌, ◌++◌, map, Option, none, some, ◌==◌, ltb, select,
  if◌then◌else◌,
}
use terminal_social.Common.Sets.{mem, insert, remove, at, erase, put}
use terminal_social.Domain.{User, Room, Member, Message}
use terminal_social.Store.Exec.{Result, ok, err}
use terminal_social.Store.Users.{user_by_id}
use terminal_social.Store.Rooms.{list_user_rooms, room_members_for_user}
use terminal_social.Store.Blocks.{blocked_ids}
use terminal_social.Store.History.{room_history_for_user, dm_history_for_user}
use terminal_social.Store.Notifications.{unread_counts, mark_room_read, mark_dm_read}
use terminal_social.Store.Maintenance.{dm_peers}
use terminal_social.Hub.{new_sub, subscribe, join_room, online_user_ids}
use terminal_social.Tui.{
  App, Screen, Cmd, listen, ViewKind, view_room, view_dm, view_none, room_chat, dm_chat, put_chat,
  cur_key, is_room, is_dm, shown,
}
use terminal_social.Tui.Render.{render_history}
use terminal_social.Tui.Ui.{Ui, give, panic, call, look, change, tell, ◌>>=◌, ◌>>◌, when, value_or}

-- `listenHub`, and the command that it returns, which dereferences a nil `hubSub`.
unfoldable pub listen_hub : Ui Cmd
listen_hub = do a ← look (λ s. s.app); if a.hub_sub == 0 then panic else give listen

abbrev pub keep_rooms : Result (List Room) → App → App
keep_rooms (ok rs) a = record a { rooms = rs }
keep_rooms (err e) a = a

unfoldable pub refresh_rooms : Ui (Unit {0})
refresh_rooms = do
  a ← look (λ s. s.app)
  rs ← call (list_user_rooms a.user.id)
  change (keep_rooms rs)

-- `m.userCache[id]`.
unfoldable pub cached : ℕ → List (ℕ × User) → Option User
cached uid [] = none
cached uid ((k, u) ∷ m) = if uid == k then some u else cached uid m

abbrev pub keep_user : ℕ → Result User → App → App
keep_user uid (ok u) a = record a { user_cache = put uid u a.user_cache }
keep_user uid (err e) a = a

abbrev pub found_user : Result User → Option User
found_user (ok u) = some u
found_user (err e) = none

abbrev pub ask_user : ℕ → Option User → Ui (Option User)
ask_user uid (some u) = give (some u)
ask_user uid none = do r ← call (user_by_id uid); change (keep_user uid r); give (found_user r)

-- Its callers go on only where there is no error and a user.
unfoldable pub cached_user : ℕ → Ui (Option User)
unfolding cached
cached_user uid = do a ← look (λ s. s.app); ask_user uid (cached uid a.user_cache)

abbrev pub add_peer : Option User → App → App
add_peer none a = a
add_peer (some u) a = record a { dm_peers = a.dm_peers ++ u ∷ [] }

unfoldable pub add_peers : List ℕ → Ui (Unit {0})
add_peers [] = give tt
add_peers (i ∷ ids) = do u ← cached_user i; change (add_peer u); add_peers ids

unfoldable pub refresh_dm_peers : Ui (Unit {0})
refresh_dm_peers = do
  a ← look (λ s. s.app)
  ids ← call (dm_peers a.user.id)
  change (λ a. record a { dm_peers = [] })
  add_peers (value_or [] ids)

unfoldable pub refresh_blocks : Ui (Unit {0})
refresh_blocks = do
  a ← look (λ s. s.app)
  b ← call (blocked_ids a.user.id)
  change (λ a. record a { blocked = value_or [] b })

-- The rooms with a count above 0.
unfoldable pub counted_rooms : List (ℕ × ℕ) → List ℕ
counted_rooms [] = []
counted_rooms ((r, n) ∷ m) = let rest = counted_rooms m in if ltb 0 n then insert r rest else rest

unfoldable pub refresh_unread : Ui (Unit {0})
unfolding counted_rooms
refresh_unread = do
  a ← look (λ s. s.app)
  counts ← call (unread_counts a.user.id)
  change (λ a. record a {
    unread_room = (value_or ([], []) counts).0;
    unread_dm = (value_or ([], []) counts).1;
    mention_room = counted_rooms (value_or ([], []) counts).0;
  })

abbrev pub keep_members : Result (List Member) → App → App
keep_members (ok ms) a = record a { members = map (shown a.online) ms }
keep_members (err e) a = a

unfoldable pub refresh_members : ℕ → Ui (Unit {0})
refresh_members rid = do
  a ← look (λ s. s.app)
  ms ← call (room_members_for_user a.user.id rid)
  change (keep_members ms)

-- `m.messages[m.curKey()] = hist`.
abbrev pub show_history : Result (List Message) → App → App
show_history hist a = record a { messages = put_chat (cur_key a) (value_or [] hist) a.messages }

unfoldable pub open_room : ℕ → Ui (Unit {0})
open_room rid = do
  change (λ a. record a { current = view_room; current_room_id = rid; current_peer_id = 0 })
  s ← look (λ s. s)
  hist ← call (room_history_for_user s.app.user.id rid 200)
  change (show_history hist)
  refresh_members rid
  _ ← call (mark_room_read s.now s.app.user.id rid)
  change (λ a. record a {
    unread_room = erase rid a.unread_room;
    mention_room = remove rid a.mention_room;
  })
  render_history

unfoldable pub open_dm : ℕ → Ui (Unit {0})
open_dm pid = do
  change (λ a. record a { current = view_dm; current_room_id = 0; current_peer_id = pid })
  s ← look (λ s. s)
  hist ← call (dm_history_for_user s.app.user.id pid 200)
  change (show_history hist)
  _ ← call (mark_dm_read s.now s.app.user.id pid)
  change (λ a. record a { unread_dm = erase pid a.unread_dm; members = [] })
  render_history

unfoldable pub join_rooms : List Room → Ui (Unit {0})
join_rooms [] = give tt
join_rooms (r ∷ rs) = do
  a ← look (λ s. s.app)
  tell (λ h. some (join_room a.hub_sub r.id h))
  join_rooms rs

unfoldable pub add_all : List ℕ → List ℕ → List ℕ
add_all [] on = on
add_all (i ∷ ids) on = add_all ids (insert i on)

-- `if len(m.rooms) > 0 { m.openRoom(ctx, m.rooms[0].ID) } else { … }`.
abbrev pub open_first : List Room → Ui (Unit {0}) → Ui (Unit {0})
open_first [] otherwise = otherwise
open_first (r ∷ rs) otherwise = open_room r.id

-- `Init`.
unfoldable pub init : Ui Cmd
unfolding add_all
init = do
  refresh_rooms
  refresh_dm_peers
  refresh_blocks
  refresh_unread
  s ← look (λ s. s)
  tell (subscribe s.app.user.id)
  change (λ a. record a { hub_sub = new_sub s.hub })
  join_rooms s.app.rooms
  s ← look (λ s. s)
  change (λ a. record a { online = add_all (online_user_ids s.hub) a.online })
  open_first s.app.rooms (give tt)
  listen_hub
