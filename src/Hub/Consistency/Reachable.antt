-- ===== src/Hub/Consistency/Reachable.antt =====
-- The hub as the sessions use it: any sequence of operations in which a subscription that has ended is
-- not ended again and enters no room.
use terminal_social.Common.{
  ℕ, ◌≡◌, ◌↔◌, refl, subst, Bool, true, false, List, [], ◌∷◌, Option, some, inl, inr, arith, ◌==◌,
  ltb, length, Option-cases,
}
use terminal_social.Common.Sets.{mem, at, is_distinct}
use terminal_social.Hub.{
  Hub, Event, new_hub, new_sub, opened, is_open, user_of, send_all, with_sent, in_rooms,
  presence_event, broadcast_presence, subscribe, unsubscribe, join_room, leave_room,
  remove_user_from_room, is_online, publish_room, publish_user,
}
use terminal_social.Hub.Channels.{send_all-is_open, close_channel-is_open}
use terminal_social.Hub.Consistency.{
  IsConsistent, Survives, join_room-IsConsistent, leave_room-IsConsistent,
  remove_user_from_room-Survives, publish_room-Survives, publish_user-Survives,
}
use terminal_social.Hub.Consistency.Sessions.{left, subscribe-Survives, unsubscribe-Survives}

pub data HubOp : Type 0 where
  subscribes : ℕ → HubOp
  unsubscribes : ℕ → HubOp
  joins leaves removes : ℕ → ℕ → HubOp
  publishes_room publishes_user : ℕ → Event → HubOp

unfoldable pub perform : HubOp → Hub → Option Hub
perform (subscribes uid) h = subscribe uid h
perform (unsubscribes s) h = unsubscribe s h
perform (joins s rid) h = some (join_room s rid h)
perform (leaves s rid) h = some (leave_room s rid h)
perform (removes uid rid) h = remove_user_from_room uid rid h
perform (publishes_room rid ev) h = publish_room rid ev h
perform (publishes_user uid ev) h = publish_user uid ev h

unfoldable pub allowed : HubOp → Hub → Bool
allowed (subscribes uid) h = true
allowed (unsubscribes s) h = is_open s h.channels
allowed (joins s rid) h = is_open s h.channels
allowed (leaves s rid) h = true
allowed (removes uid rid) h = true
allowed (publishes_room rid ev) h = true
allowed (publishes_user uid ev) h = true

pub data Reachable : Hub → Type 0 where
  start : Reachable new_hub
  step :
      (op : HubOp) {h h' : Hub}
      → Reachable h
      → allowed op h ≡ true
      → perform op h ≡ some h'
      → Reachable h'

perform-Survives :
    (op : HubOp) (h : Hub) → allowed op h ≡ true → IsConsistent h → Survives (perform op h)
unfolding perform allowed
perform-Survives (subscribes uid) h a c = subscribe-Survives uid h c
perform-Survives (unsubscribes s) h a c = unsubscribe-Survives s h a c
perform-Survives (joins s rid) h a c = (join_room s rid h, refl, join_room-IsConsistent s rid h a c)
perform-Survives (leaves s rid) h a c =
    (leave_room s rid h, refl, leave_room-IsConsistent s rid h c)
perform-Survives (removes uid rid) h a c = remove_user_from_room-Survives uid rid h c
perform-Survives (publishes_room rid ev) h a c = publish_room-Survives rid ev h c
perform-Survives (publishes_user uid ev) h a c = publish_user-Survives uid ev h c

pub new_hub-IsConsistent : IsConsistent new_hub
unfolding at mem is_open is_distinct in_rooms
new_hub-IsConsistent = record {
  counts = λ uid. refl;
  sessions = λ uid s. refl;
  distinct = λ uid. refl;
  in_room = λ s k. absurd (ground (arith, k));
  bounded = tt;
}

pub Reachable-IsConsistent : (h : Hub) → Reachable h → IsConsistent h
Reachable-IsConsistent h start = new_hub-IsConsistent
Reachable-IsConsistent h (step op {h = h0} before a run) =
    let (h1, ran, c) = perform-Survives op h0 a (Reachable-IsConsistent h0 before) in
    subst IsConsistent (ground (arith, ran, run)) c

-- If operations do not overlap, and no subscription that has ended is ended again or enters a room,
-- then no operation of the hub ever sends on a closed channel or closes a channel twice, and after each
-- of them the maps are consistent: the presence count of a user is the number of his open
-- subscriptions, only open subscriptions are in rooms, and no channel holds more than 64 events.
pub perform-returns :
    (h : Hub) (op : HubOp)
    → Reachable h
    → allowed op h ≡ true
    → (h' : Hub) × (perform op h ≡ some h') × IsConsistent h'
perform-returns h op reach a = perform-Survives op h a (Reachable-IsConsistent h reach)

mem-length : (s : ℕ) (ts : List ℕ) → mem s ts ≡ true → ltb 0 (length ts) ≡ true
unfolding mem
mem-length s [] h = absurd (ground (arith, h))
mem-length s (t ∷ ts) h = ground arith

length-mem : (ts : List ℕ) → ltb 0 (length ts) ≡ true → (s : ℕ) × (mem s ts ≡ true)
unfolding mem
length-mem [] h = absurd (ground (arith, h))
length-mem (t ∷ ts) h = (t, ground arith)

-- Under the same condition, a user is shown as online exactly if he has an open subscription.
pub is_online_iff :
    (h : Hub) (uid : ℕ)
    → Reachable h
    → (is_online uid h ≡ true)
      ↔ ((s : ℕ) × (is_open s h.channels ≡ true) × (user_of s h.channels ≡ uid))
unfolding is_online
is_online_iff h uid reach = (
  λ on.
      let (s, here) = length-mem (at [] uid h.users) (ground (arith, on, c.counts uid)) in
      (s, ground (arith, here, c.sessions uid s), ground (arith, here, c.sessions uid s)),
  λ (s, open_, same). ground (
    arith,
    c.counts uid,
    mem-length s (at [] uid h.users) (ground (arith, open_, same, c.sessions uid s)),
  ),
)
  where
    c : IsConsistent h
    c = Reachable-IsConsistent h reach

pub with_sent-is_open :
    (s : ℕ) (ss : List ℕ) (ev : Event) (h h' : Hub)
    → with_sent h (send_all ss ev h.channels) ≡ some h'
    → is_open s h'.channels ≡ is_open s h.channels
with_sent-is_open s ss ev h h' k = elim (Option-cases (send_all ss ev h.channels)) [
  | inl e ↦ absurd (ground (arith, e, k))
  | inr (cs, e) ↦ ground (arith, e, k, send_all-is_open s ss ev h.channels cs e)
]

pub unsubscribe-closes :
    (s : ℕ) (h h' : Hub) → unsubscribe s h ≡ some h' → is_open s h'.channels ≡ false
unfolding unsubscribe broadcast_presence
unsubscribe-closes s h h' k = ground (
  arith,
  k,
  close_channel-is_open s s h.channels,
  with_sent-is_open s (in_rooms (left s h).rooms) (presence_event (user_of s h.channels) false)
      (left s h) h',
)

-- No other subscription is opened or closed.
pub unsubscribe-is_open :
    (s t : ℕ) (h h' : Hub)
    → (t == s) ≡ false
    → unsubscribe s h ≡ some h'
    → is_open t h'.channels ≡ is_open t h.channels
unfolding unsubscribe broadcast_presence
unsubscribe-is_open s t h h' n k = ground (
  arith,
  k,
  n,
  close_channel-is_open s t h.channels,
  with_sent-is_open t (in_rooms (left s h).rooms) (presence_event (user_of s h.channels) false)
      (left s h) h',
)

pub subscribe-is_open :
    (uid t : ℕ) (h h' : Hub)
    → (t == new_sub h) ≡ false
    → subscribe uid h ≡ some h'
    → is_open t h'.channels ≡ is_open t h.channels
unfolding subscribe broadcast_presence opened is_open
subscribe-is_open uid t h h' n k = ground (
  arith,
  k,
  n,
  with_sent-is_open t (in_rooms h.rooms) (presence_event uid true) (opened uid h) h',
)
