-- ===== src/Hub/Consistency.antt =====
-- The maps of internal/hub/hub.go between its operations.
pub mod Sessions
pub mod Reachable
pub mod Removal
use Prim.Native.Nat.{max}
use terminal_social.Common.{
  ℕ, suc, ◌+◌, ◌-◌, ◌≤◌, ◌≡◌, refl, ap, sym, subst, ◌∙◌, Bool, true, false, not, ◌&&◌, ◌||◌, List,
  [], ◌∷◌, Option, none, some, inl, inr, arith, ◌==◌, ltb, leb, length, any_row, Bool-cases,
  if◌then◌else◌,
}
use terminal_social.Common.Sets.{
  mem, insert, remove, is_distinct, at, erase, put, mem-insert, mem-remove, is_distinct-insert,
  is_distinct-remove, remove-absent, length-remove, at-put, at-erase,
}
use terminal_social.Store.Schema.{next_id}
use terminal_social.Store.Schema.Keys.{next_id-fresh}
use terminal_social.Hub.{
  Sub, Hub, Event, is_open, is_open_sub, user_of, send_all, close_channel, store_set, with_sent,
  in_rooms, presence_event, broadcast_presence, new_sub, opened, subscribe, leave_all, is_last,
  dropped, unsubscribe, join_room, leave_room, owned, removed_event, remove_user_from_room,
  publish_room, publish_user,
}
use terminal_social.Hub.Channels.{
  AllBounded, IsSame, send_all-IsSame, close_channel-is_open, close_channel-user_of,
}
use terminal_social.Hub.Rooms.{
  in_rooms-at, in_rooms-put, in_rooms-store_set, in_rooms-leave_all, mem-owned,
}

-- The presence count of a user is the number of his sessions; his sessions are the open subscriptions
-- of his; only open subscriptions are in a room; and no channel holds more than it has room for.
pub record IsConsistent (h : Hub) : Type 0 where
  pub counts : (uid : ℕ) → at 0 uid h.presence_cnt ≡ length (at [] uid h.users)
  pub sessions :
      (uid s : ℕ)
      → mem s (at [] uid h.users) ≡ (is_open s h.channels && user_of s h.channels == uid)
  pub distinct : (uid : ℕ) → is_distinct (at [] uid h.users) ≡ true
  pub in_room : (s : ℕ) → mem s (in_rooms h.rooms) ≡ true → is_open s h.channels ≡ true
  pub bounded : AllBounded h.channels

-- The source does not panic, and the maps are consistent afterwards.
abbrev pub Survives : Option Hub → Type 0
Survives o = (h : Hub) × (o ≡ some h) × IsConsistent h

sent-IsConsistent :
    (h : Hub) (cs : List Sub)
    → IsSame h.channels cs
    → IsConsistent h
    → IsConsistent (record h { channels = cs })
sent-IsConsistent h cs same c = record {
  counts = c.counts;
  sessions = λ uid s. ground (arith, c.sessions uid s, same.open_same s, same.user_same s);
  distinct = c.distinct;
  in_room = λ s k. same.open_same s ∙ c.in_room s k;
  bounded = same.bounded_same c.bounded;
}

-- An event for subscriptions that are all open reaches the end of the loop.
pub send_all-Survives :
    (h : Hub) (ss : List ℕ) (ev : Event)
    → IsConsistent h
    → ((s : ℕ) → mem s ss ≡ true → is_open s h.channels ≡ true)
    → Survives (with_sent h (send_all ss ev h.channels))
send_all-Survives h ss ev c k =
    let (cs, sent, same) = send_all-IsSame ss ev h.channels k in
    (record h { channels = cs }, ap (with_sent h) sent, sent-IsConsistent h cs same c)

pub broadcast_presence-Survives :
    (uid : ℕ) (on : Bool) (h : Hub) → IsConsistent h → Survives (broadcast_presence uid on h)
unfolding broadcast_presence
broadcast_presence-Survives uid on h c =
    send_all-Survives h (in_rooms h.rooms) (presence_event uid on) c c.in_room

-- The announcement is made or not.
pub if-Survives :
    (b : Bool) (x : Option Hub) (h : Hub)
    → Survives x
    → IsConsistent h
    → Survives (if b then x else some h)
if-Survives true x h s c = s
if-Survives false x h s c = (h, refl, c)

pub publish_room-Survives :
    (rid : ℕ) (ev : Event) (h : Hub) → IsConsistent h → Survives (publish_room rid ev h)
unfolding publish_room
publish_room-Survives rid ev h c =
    send_all-Survives h (at [] rid h.rooms) ev c (λ s k. c.in_room s (in_rooms-at s rid h.rooms k))

pub publish_user-Survives :
    (uid : ℕ) (ev : Event) (h : Hub) → IsConsistent h → Survives (publish_user uid ev h)
unfolding publish_user
publish_user-Survives uid ev h c =
    send_all-Survives h (at [] uid h.users) ev c (λ s k. ground (arith, k, c.sessions uid s))

pub join_room-IsConsistent :
    (s rid : ℕ) (h : Hub)
    → is_open s h.channels ≡ true
    → IsConsistent h
    → IsConsistent (join_room s rid h)
unfolding join_room
join_room-IsConsistent s rid h open_ c = record {
  counts = c.counts;
  sessions = c.sessions;
  distinct = c.distinct;
  in_room = λ t k. elim (Bool-cases (t == s)) [
    | inl e ↦
        let one : s ≡ t = ground (arith, e) in ap (λ x. is_open x h.channels) (sym one) ∙ open_
    | inr e ↦ ground (
      arith,
      e,
      in_rooms-put t rid (insert s (at [] rid h.rooms)) h.rooms k,
      mem-insert s t (at [] rid h.rooms),
      in_rooms-at t rid h.rooms,
      c.in_room t,
    )
  ];
  bounded = c.bounded;
}

-- A room may always lose subscriptions.
pub store_set-IsConsistent :
    (rid : ℕ) (v : List ℕ) (h : Hub)
    → ((t : ℕ) → mem t v ≡ true → mem t (at [] rid h.rooms) ≡ true)
    → IsConsistent h
    → IsConsistent (record h { rooms = store_set rid v h.rooms })
store_set-IsConsistent rid v h fewer c = record {
  counts = c.counts;
  sessions = c.sessions;
  distinct = c.distinct;
  in_room = λ t k. ground (
    arith,
    in_rooms-store_set t rid v h.rooms k,
    fewer t,
    in_rooms-at t rid h.rooms,
    c.in_room t,
  );
  bounded = c.bounded;
}

pub leave_room-IsConsistent :
    (s rid : ℕ) (h : Hub) → IsConsistent h → IsConsistent (leave_room s rid h)
unfolding leave_room
leave_room-IsConsistent s rid h c =
    store_set-IsConsistent rid (remove s (at [] rid h.rooms)) h
      (λ t k. ground (arith, k, mem-remove s t (at [] rid h.rooms))) c

pub remove_user_from_room-Survives :
    (uid rid : ℕ) (h : Hub) → IsConsistent h → Survives (remove_user_from_room uid rid h)
unfolding remove_user_from_room
remove_user_from_room-Survives uid rid h c =
    send_all-Survives _ (owned true uid h.channels subs) (removed_event uid rid)
      (store_set-IsConsistent rid (owned false uid h.channels subs) h
        (λ t. mem-owned false uid h.channels t subs) c)
      (λ s k. c.in_room s (in_rooms-at s rid h.rooms (mem-owned true uid h.channels s subs k)))
  where
    subs : List ℕ
    subs = at [] rid h.rooms
