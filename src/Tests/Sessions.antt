-- ===== src/Tests/Sessions.antt =====
-- Two sessions of a user on the hub.
use terminal_social.Common.{ℕ, ◌≡◌, ◌↔◌, refl, Bool, true, false, [], ◌∷◌, none, some}
use terminal_social.Common.Sets.{mem, insert, remove, at, erase, put}
use terminal_social.Store.Schema.{next_id}
use terminal_social.Hub.Overlap.{advance_by, interrupted, has_sent, publish_room-overlapped}
use terminal_social.Hub.{
  publish_room, copying, Sub, Hub, new_hub, is_open, user_of, send_all, in_rooms, presence_event,
  broadcast_presence, opened, close_channel, subscribe, leave_all, dropped, unsubscribe, join_room,
  is_online,
}
use terminal_social.Hub.Consistency.{IsConsistent}
use terminal_social.Hub.Consistency.Reachable.{
  subscribes, joins, unsubscribes, perform, allowed, Reachable, start, step, perform-returns,
  is_online_iff,
}

abbrev session : ℕ → Bool → Sub
session s shut = record { id = s; user_id = 5; queue = []; closed = shut }

-- User 5 has opened a session and then entered room 7.
abbrev one_session : Hub
one_session = record new_hub {
  users = (5, 1 ∷ []) ∷ [];
  presence_cnt = (5, 1) ∷ [];
  channels = session 1 false ∷ [];
}

abbrev pub in_a_room : Hub
in_a_room = record one_session { rooms = (7, 1 ∷ []) ∷ [] }

abbrev gone : Hub
gone = record new_hub { channels = session 1 true ∷ [] }

opens : perform (subscribes 5) new_hub ≡ some one_session
unfolding perform subscribe opened broadcast_presence in_rooms send_all insert mem at put erase
    next_id
opens = refl

enters : perform (joins 1 7) one_session ≡ some in_a_room
unfolding perform join_room insert mem at put erase
enters = refl

ends : unsubscribe 1 in_a_room ≡ some gone
unfolding unsubscribe dropped leave_all close_channel broadcast_presence in_rooms send_all is_open
    user_of remove mem at erase
ends = refl

pub in_a_room-Reachable : Reachable in_a_room
unfolding allowed is_open
in_a_room-Reachable = step (joins 1 7) (step (subscribes 5) start refl opens) refl enters

perform-returns_example : (h : Hub) × (perform (unsubscribes 1) in_a_room ≡ some h) × IsConsistent h
unfolding allowed is_open
perform-returns_example = perform-returns in_a_room (unsubscribes 1) in_a_room-Reachable refl

is_online_iff_example :
    (is_online 5 in_a_room ≡ true)
    ↔ ((s : ℕ) × (is_open s in_a_room.channels ≡ true) × (user_of s in_a_room.channels ≡ 5))
is_online_iff_example = is_online_iff in_a_room 5 in_a_room-Reachable

publish_room-overlapped_example :
    (advance_by 2 (copying 7 (presence_event 5 true)) in_a_room
      ≡ has_sent (presence_event 5 true) (publish_room 7 (presence_event 5 true) in_a_room))
    × (interrupted (unsubscribe 1) 1 (copying 7 (presence_event 5 true)) in_a_room ≡ none)
unfolding mem at
publish_room-overlapped_example =
    publish_room-overlapped 7 1 (presence_event 5 true) in_a_room gone refl ends
