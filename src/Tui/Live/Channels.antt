-- ===== src/Tui/Live/Channels.antt =====
-- What a session reads and what it opens keep it on.
use terminal_social.Common.{
  ℕ, ◌≡◌, refl, sym, subst, Bool, true, false, List, [], ◌∷◌, Option, none, some, if◌then◌else◌,
}
use terminal_social.Domain.{User, Room, Member}
use terminal_social.Store.Exec.{Result, ok, err}
use terminal_social.Hub.{join_room}
use terminal_social.Tui.{App}
use terminal_social.Tui.Ui.{Ui, look, tell, ◌>>=◌}
use terminal_social.Tui.Channels.{
  keep_rooms, refresh_rooms, keep_user, ask_user, cached_user, add_peer, add_peers,
  refresh_dm_peers, refresh_blocks, refresh_unread, keep_members, refresh_members, open_room,
  open_dm, join_rooms, open_first,
}
use terminal_social.Tui.Live.{
  IsLive, Keeps, Runs, core, >>=-Keeps, >>=-Reaches, look-Keeps, give-Keeps, call-Keeps,
  look_only-Keeps, if-Keeps, change-Keeps, tell-Keeps, join_room-Keeps, Keeps-Runs, when-Keeps,
  render_history-Keeps, listen_hub-Keeps,
}

pub keep_rooms-core : (r : Result (List Room)) (a : App) → core (keep_rooms r a) ≡ core a
keep_rooms-core (ok rs) a = refl
keep_rooms-core (err e) a = refl

pub refresh_rooms-Keeps : Keeps refresh_rooms
unfolding refresh_rooms
refresh_rooms-Keeps = search (>>=-Keeps, call-Keeps, look_only-Keeps, change-Keeps, keep_rooms-core)

-- What a handler is built of.
pub ruleset handlers = (
  >>=-Keeps, call-Keeps, look_only-Keeps, give-Keeps, if-Keeps, when-Keeps, change-Keeps, refl,
  render_history-Keeps, listen_hub-Keeps,
)

pub keep_user-core : (uid : ℕ) (r : Result User) (a : App) → core (keep_user uid r a) ≡ core a
keep_user-core uid (ok u) a = refl
keep_user-core uid (err e) a = refl

ask_user-Keeps : (uid : ℕ) (o : Option User) → Keeps (ask_user uid o)
ask_user-Keeps uid (some u) = give-Keeps (some u)
ask_user-Keeps uid none = search (handlers, keep_user-core) depth 12

pub cached_user-Keeps : (uid : ℕ) → Keeps (cached_user uid)
unfolding cached_user
cached_user-Keeps uid = search (handlers, ask_user-Keeps) depth 12

pub add_peer-core : (o : Option User) (a : App) → core (add_peer o a) ≡ core a
add_peer-core none a = refl
add_peer-core (some u) a = refl

add_peers-Keeps : (ids : List ℕ) → Keeps (add_peers ids)
unfolding add_peers
add_peers-Keeps [] = give-Keeps tt
add_peers-Keeps (i ∷ ids) =
    search (handlers, cached_user-Keeps, add_peer-core, add_peers-Keeps ids) depth 12

pub refresh_dm_peers-Keeps : Keeps refresh_dm_peers
unfolding refresh_dm_peers
refresh_dm_peers-Keeps = search (handlers, add_peers-Keeps) depth 12

pub refresh_blocks-Keeps : Keeps refresh_blocks
unfolding refresh_blocks
refresh_blocks-Keeps = search handlers depth 12

pub refresh_unread-Keeps : Keeps refresh_unread
unfolding refresh_unread
refresh_unread-Keeps = search handlers depth 12

keep_members-core : (r : Result (List Member)) (a : App) → core (keep_members r a) ≡ core a
keep_members-core (ok ms) a = refl
keep_members-core (err e) a = refl

pub refresh_members-Keeps : (rid : ℕ) → Keeps (refresh_members rid)
unfolding refresh_members
refresh_members-Keeps rid = search (handlers, keep_members-core) depth 12

pub open_room-Keeps : (rid : ℕ) → Keeps (open_room rid)
unfolding open_room
open_room-Keeps rid = search (handlers, refresh_members-Keeps) depth 12

pub open_dm-Keeps : (pid : ℕ) → Keeps (open_dm pid)
unfolding open_dm
open_dm-Keeps pid = search handlers depth 12

pub open_first-Keeps : (rs : List Room) (m : Ui (Unit {0})) → Keeps m → Keeps (open_first rs m)
open_first-Keeps [] m h = h
open_first-Keeps (r ∷ rs) m h = open_room-Keeps r.id

-- The session's own subscription enters a room and the handler goes on.
pub join_room_then-Keeps :
    {A : Type 0} (rid : ℕ) (k : Ui A)
    → Keeps k
    → Keeps (look (λ s. s.app) >>= λ a. (tell (λ h. some (join_room a.hub_sub rid h)) >>= λ _. k))
join_room_then-Keeps rid k h =
    look-Keeps (λ s. s.app) _
      (λ sub s live.
        >>=-Reaches (tell (λ h. some (join_room s.app.hub_sub rid h))) (λ _. k)
          (λ _ t. IsLive sub t) (λ _ t. IsLive sub t) s (join_room-Keeps rid sub s live)
          (λ a t l. Keeps-Runs k sub t h l))

pub join_rooms-Keeps : (rs : List Room) → Keeps (join_rooms rs)
unfolding join_rooms
join_rooms-Keeps [] = give-Keeps tt
join_rooms-Keeps (r ∷ rs) = join_room_then-Keeps r.id (join_rooms rs) (join_rooms-Keeps rs)
