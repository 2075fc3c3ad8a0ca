-- ===== src/Hub.antt =====
-- internal/hub/hub.go: who hears what. A subscription, `*Sub` in the source, is a number; its channel is
-- an entry of `channels`, which stays there, closed, after `Unsubscribe`. An operation holds the
-- mutex while it changes the maps and sends after it has released it; `Option` is none where the source
-- panics, by a send on a closed channel or by closing it twice.
pub mod Channels
pub mod Rooms
pub mod Consistency
pub mod Overlap
use terminal_social.Common.{
  ℕ, suc, ◌+◌, ◌-◌, Bool, true, false, not, ◌&&◌, ◌||◌, List, [], ◌∷◌, ◌++◌, map, Option, none,
  some, ◌==◌, ltb, leb, length, if◌then◌else◌,
}
use terminal_social.Common.Sets.{mem, insert, remove, at, erase, put}
use terminal_social.Store.Schema.{next_id}
use terminal_social.Domain.{Message, Notification}

-- The comment on `Event.Kind` lists these.
pub data EventKind : Type 0 where
  room_msg dm_msg msg_deleted presence notify room_meta room_removed : EventKind

pub record Event : Type 0 where
  pub kind : EventKind
  pub room_id : ℕ
  pub user_id : ℕ
  pub peer_id : ℕ
  pub message : Option Message
  pub online : Bool
  pub notif : Option Notification
  pub mention_set : List ℕ

-- A subscription with its channel.
pub record Sub : Type 0 where
  pub id : ℕ
  pub user_id : ℕ
  pub queue : List Event
  pub closed : Bool

pub record Hub : Type 0 where
  pub rooms : List (ℕ × List ℕ)
  pub users : List (ℕ × List ℕ)
  pub presence_cnt : List (ℕ × ℕ)
  pub channels : List Sub

-- `New`.
abbrev pub new_hub : Hub
new_hub = record { rooms = []; users = []; presence_cnt = []; channels = [] }

-- `make(chan Event, 64)`.
abbrev pub capacity : ℕ
capacity = 64

abbrev pub is_open_sub : ℕ → Sub → Bool
is_open_sub s c = c.id == s && not c.closed

-- The channel of the subscription is open.
unfoldable pub is_open : ℕ → List Sub → Bool
is_open s [] = false
is_open s (c ∷ cs) = is_open_sub s c || is_open s cs

-- `s.UserID`.
unfoldable pub user_of : ℕ → List Sub → ℕ
user_of s [] = 0
user_of s (c ∷ cs) = if c.id == s then c.user_id else user_of s cs

-- `case s.Ch <- ev: default:`, a full channel drops the event.
abbrev pub push : Event → Sub → Sub
push ev c = if ltb (length c.queue) capacity then record c { queue = c.queue ++ ev ∷ [] } else c

unfoldable pub deliver : ℕ → Event → List Sub → List Sub
deliver s ev [] = []
deliver s ev (c ∷ cs) = (if is_open_sub s c then push ev c else c) ∷ deliver s ev cs

-- `send`.
unfoldable pub send : ℕ → Event → List Sub → Option (List Sub)
unfolding is_open deliver
send s ev cs = if is_open s cs then some (deliver s ev cs) else none

abbrev pub and_then {ℓ κ} : {A : Type ℓ} {B : Type κ} → Option A → (A → Option B) → Option B
and_then none f = none
and_then (some a) f = f a

-- `for _, s := range subs { send(s, ev) }`.
unfoldable pub send_all : List ℕ → Event → List Sub → Option (List Sub)
unfolding send
send_all [] ev cs = some cs
send_all (s ∷ ss) ev cs = and_then (send s ev cs) (send_all ss ev)

-- `close(s.Ch)`.
unfoldable pub close_channel : ℕ → List Sub → List Sub
close_channel s [] = []
close_channel s (c ∷ cs) =
    (if c.id == s then record c { closed = true } else c) ∷ close_channel s cs

-- A set under its key; an empty set is taken out of the map.
abbrev pub store_set : ℕ → List ℕ → List (ℕ × List ℕ) → List (ℕ × List ℕ)
store_set k [] m = erase k m
store_set k (t ∷ ts) m = put k (t ∷ ts) m

abbrev pub with_sent : Hub → Option (List Sub) → Option Hub
with_sent h none = none
with_sent h (some cs) = some (record h { channels = cs })

unfoldable pub union : List ℕ → List ℕ → List ℕ
unfolding insert
union [] seen = seen
union (s ∷ ss) seen = insert s (union ss seen)

-- `seen`, every subscription that is in a room.
unfoldable pub in_rooms : List (ℕ × List ℕ) → List ℕ
unfolding union
in_rooms [] = []
in_rooms ((r, subs) ∷ m) = union subs (in_rooms m)

abbrev pub presence_event : ℕ → Bool → Event
presence_event uid on = record {
  kind = presence;
  room_id = 0;
  user_id = uid;
  peer_id = 0;
  message = none;
  online = on;
  notif = none;
  mention_set = [];
}

unfoldable pub broadcast_presence : ℕ → Bool → Hub → Option Hub
unfolding in_rooms send_all
broadcast_presence uid on h =
    with_sent h (send_all (in_rooms h.rooms) (presence_event uid on) h.channels)

-- The subscription that `Subscribe` allocates.
abbrev pub new_sub : Hub → ℕ
new_sub h = next_id (λ (c : Sub). c.id) h.channels

-- What `Subscribe` does under the mutex.
unfoldable pub opened : ℕ → Hub → Hub
opened uid h = record h {
  users = put uid (insert (new_sub h) (at [] uid h.users)) h.users;
  presence_cnt = put uid (suc (at 0 uid h.presence_cnt)) h.presence_cnt;
  channels = record { id = new_sub h; user_id = uid; queue = []; closed = false } ∷ h.channels;
}

-- The first session of a user is announced.
unfoldable pub subscribe : ℕ → Hub → Option Hub
unfolding opened broadcast_presence
subscribe uid h =
    let h1 = opened uid h in
    if at 0 uid h1.presence_cnt == 1 then broadcast_presence uid true h1 else some h1

-- The loop of `Unsubscribe` over the rooms.
unfoldable pub leave_all : ℕ → List (ℕ × List ℕ) → List (ℕ × List ℕ)
leave_all s [] = []
leave_all s ((r, subs) ∷ m) =
    let rest = leave_all s m in
    if mem s subs
    then (elim (remove s subs) [ [] ↦ rest | t ∷ ts ↦ (r, t ∷ ts) ∷ rest ])
    else (r, subs) ∷ rest

abbrev pub is_last : ℕ → Hub → Bool
is_last uid h = leb (at 0 uid h.presence_cnt) 1

-- What `Unsubscribe` does under the mutex.
unfoldable pub dropped : ℕ → Hub → Hub
unfolding leave_all
dropped s h =
    let uid = user_of s h.channels in
    record h {
      rooms = leave_all s h.rooms;
      users = store_set uid (remove s (at [] uid h.users)) h.users;
      presence_cnt =
          if is_last uid h
          then erase uid h.presence_cnt
          else put uid (at 0 uid h.presence_cnt - 1) h.presence_cnt;
    }

-- The end of the last session of a user is announced.
unfoldable pub unsubscribe : ℕ → Hub → Option Hub
unfolding dropped close_channel broadcast_presence
unsubscribe s h =
    let uid = user_of s h.channels in
    let h1 = record (dropped s h) { channels = close_channel s h.channels } in
    if is_open s h.channels
    then if is_last uid h then broadcast_presence uid false h1 else some h1
    else none

unfoldable pub join_room : ℕ → ℕ → Hub → Hub
join_room s rid h = record h { rooms = put rid (insert s (at [] rid h.rooms)) h.rooms }

unfoldable pub leave_room : ℕ → ℕ → Hub → Hub
leave_room s rid h = record h { rooms = store_set rid (remove s (at [] rid h.rooms)) h.rooms }

-- The subscriptions of the user, or those of everybody else.
unfoldable pub owned : Bool → ℕ → List Sub → List ℕ → List ℕ
unfolding user_of
owned mine uid cs [] = []
owned mine uid cs (s ∷ ss) =
    let rest = owned mine uid cs ss in
    if mine && user_of s cs == uid || not mine && not (user_of s cs == uid) then s ∷ rest else rest

abbrev pub removed_event : ℕ → ℕ → Event
removed_event uid rid = record {
  kind = room_removed;
  room_id = rid;
  user_id = uid;
  peer_id = 0;
  message = none;
  online = false;
  notif = none;
  mention_set = [];
}

unfoldable pub remove_user_from_room : ℕ → ℕ → Hub → Option Hub
unfolding owned send_all
remove_user_from_room uid rid h =
    let subs = at [] rid h.rooms in
    let h1 = record h { rooms = store_set rid (owned false uid h.channels subs) h.rooms } in
    with_sent h1 (send_all (owned true uid h.channels subs) (removed_event uid rid) h.channels)

unfoldable pub is_online : ℕ → Hub → Bool
is_online uid h = ltb 0 (at 0 uid h.presence_cnt)

unfoldable pub online_user_ids : Hub → List ℕ
online_user_ids h = map (λ (e : ℕ × ℕ). e.0) h.presence_cnt

unfoldable pub publish_room : ℕ → Event → Hub → Option Hub
unfolding send_all
publish_room rid ev h = with_sent h (send_all (at [] rid h.rooms) ev h.channels)

unfoldable pub publish_user : ℕ → Event → Hub → Option Hub
unfolding send_all
publish_user uid ev h = with_sent h (send_all (at [] uid h.users) ev h.channels)

-- `PublishRoom` where other sessions run: before it copies the subscriptions of the room under the
-- mutex, and, with the mutex released, before it sends to the first of those that are left.
pub data Publisher : Type 0 where
  copying : ℕ → Event → Publisher
  sending : List ℕ → Event → Publisher

-- Up to the next place where another session may come in between.
unfoldable pub advance : Publisher → Hub → Option (Publisher × Hub)
unfolding send
advance (copying rid ev) h = some (sending (at [] rid h.rooms) ev, h)
advance (sending [] ev) h = some (sending [] ev, h)
advance (sending (s ∷ ss) ev) h =
    and_then (send s ev h.channels) (λ cs. some (sending ss ev, record h { channels = cs }))
