-- ===== src/Hub/Overlap.antt =====
-- `PublishRoom` of internal/hub/hub.go among other sessions.
use terminal_social.Common.{
  ℕ, zero, suc, ◌≡◌, refl, true, List, [], ◌∷◌, Option, none, some, inl, inr, length, Option-cases,
}
use terminal_social.Common.Sets.{mem, at}
use terminal_social.Hub.{
  Hub, Event, send, send_all, and_then, with_sent, unsubscribe, publish_room, Publisher, copying,
  sending, advance,
}
use terminal_social.Hub.Channels.{send_all-closed}
use terminal_social.Hub.Consistency.Reachable.{unsubscribe-closes}

-- A number of steps of the publisher, without another session in between.
pub advance_by : ℕ → Publisher → Hub → Option (Publisher × Hub)
advance_by zero p h = some (p, h)
advance_by (suc n) p h = and_then (advance p h) (λ r. advance_by n r.0 r.1)

-- The publisher takes its first step, another session runs, and the publisher goes on.
pub interrupted : (Hub → Option Hub) → ℕ → Publisher → Hub → Option (Publisher × Hub)
interrupted other n p h =
    and_then (advance p h) (λ r. and_then (other r.1) (λ h'. advance_by n r.0 h'))

-- The publisher has sent to everyone.
abbrev pub has_sent : Event → Option Hub → Option (Publisher × Hub)
has_sent ev o = and_then o (λ h. some (sending [] ev, h))

advance_by-sending :
    (ss : List ℕ) (ev : Event) (h : Hub)
    → advance_by (length ss) (sending ss ev) h
      ≡ has_sent ev (with_sent h (send_all ss ev h.channels))
unfolding advance_by advance send_all
advance_by-sending [] ev h = refl
advance_by-sending (s ∷ ss) ev h = elim (Option-cases (send s ev h.channels)) [
  | inl e ↦ rw e refl
  | inr (cs, e) ↦ rw e (advance_by-sending ss ev (record h { channels = cs }))
]

-- Left alone, a publisher sends what `PublishRoom` sends as a whole; if one of the subscriptions of the
-- room ends behind its first step, in which it copies them under the mutex, the rest of it panics.
pub publish_room-overlapped :
    (rid s : ℕ) (ev : Event) (h h' : Hub)
    → mem s (at [] rid h.rooms) ≡ true
    → unsubscribe s h ≡ some h'
    → let n = length (at [] rid h.rooms) in
      (advance_by (suc n) (copying rid ev) h ≡ has_sent ev (publish_room rid ev h))
      × (interrupted (unsubscribe s) n (copying rid ev) h ≡ none)
unfolding advance_by interrupted advance publish_room
publish_room-overlapped rid s ev h h' here ended = (
  advance_by-sending (at [] rid h.rooms) ev h,
  rw ended (
      rw (advance_by-sending (at [] rid h.rooms) ev h') (
        rw
          (send_all-closed s (at [] rid h.rooms) ev h'.channels here
            (unsubscribe-closes s h h' ended))
          refl)),
)
