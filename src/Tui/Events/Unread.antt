-- ===== src/Tui/Events/Unread.antt =====
-- The unread count of a room, behind the events that one message sends to a session.
use terminal_social.Common.{
  ℕ, suc, ◌+◌, ◌≡◌, refl, inl, inr, arith, Bool, true, false, not, ◌&&◌, List, [], ◌∷◌, ◌++◌, some,
  ◌==◌, ==_self, Bool-cases, if◌then◌else◌,
}
use terminal_social.Common.Sets.{mem, at, at-put}
use terminal_social.Domain.{Message}
use terminal_social.Store.Notifications.{mark_room_read}
use terminal_social.Hub.{Event}
use terminal_social.Tui.Render.{renders, render_history}
use terminal_social.Tui.{
  Screen, ViewKind, view_room, view_dm, view_none, is_room, key_of, same_chat, cur_key, room_chat,
  shows_room,
}
use terminal_social.Tui.Ui.{Ui, ran, give, look, change, call, ◌>>=◌, ◌>>◌}
use terminal_social.Tui.Chat.{room_msg_event, notify_event}
use terminal_social.Tui.Events.{append_chat, bump_room, on_notify, handle_hub_event}

pub hear_all : List Event → Ui (Unit {0})
hear_all [] = give tt
hear_all (ev ∷ evs) = do handle_hub_event ev; hear_all evs

-- What a session in the room gets for a message: the message, and a notification if its user is
-- among the notified.
abbrev pub events_for : ℕ → ℕ → Message → List ℕ → List Event
events_for uid rid msg notified =
    room_msg_event rid msg notified ∷ (if mem uid notified then notify_event uid rid ∷ [] else [])

abbrev pub counts : Bool → ℕ
counts true = 1
counts false = 0

-- If the session shows the room, all its texts and the new one can be rendered.
abbrev pub CanShow : ℕ → Message → Screen → Type 0
CanShow rid msg s =
    shows_room rid s.app ≡ true
    → renders s.renderer s.app.user.handle s.app.blocked
        (s.app.messages (room_chat rid) ++ msg ∷ [])
      ≡ true

abbrev heard_msg : ℕ → Message → List ℕ → Screen → Screen
heard_msg rid msg notified s =
    let a = append_chat (room_chat rid) msg s.app in
    if shows_room rid s.app
    then record s { app = a; conn = (mark_room_read s.now s.app.user.id rid s.conn).1 }
    else if not (mem s.app.user.id notified)
    then record s { app = bump_room rid a }
    else record s { app = a }

shown-same_chat :
    (rid : ℕ) (v : ViewKind) (r p : ℕ)
    → (is_room v && r == rid) ≡ true
    → same_chat (key_of v r p) (room_chat rid) ≡ true
shown-same_chat rid view_room r p h = h
shown-same_chat rid view_dm r p h = absurd (ground (arith, h))
shown-same_chat rid view_none r p h = absurd (ground (arith, h))

-- What is rendered for the room that is shown.
shown_renders :
    (rid : ℕ) (msg : Message) (s : Screen)
    → shows_room rid s.app ≡ true
    → renders s.renderer s.app.user.handle s.app.blocked
        (s.app.messages (room_chat rid) ++ msg ∷ [])
      ≡ true
    → let a = append_chat (room_chat rid) msg s.app in
      renders s.renderer a.user.handle a.blocked (a.messages (cur_key a)) ≡ true
shown_renders rid msg s e k =
    rw (shown-same_chat rid s.app.current s.app.current_room_id s.app.current_peer_id e) k

heard_msg_lem :
    (rid : ℕ) (msg : Message) (notified : List ℕ) (s : Screen)
    → CanShow rid msg s
    → handle_hub_event (room_msg_event rid msg notified) s ≡ ran (tt, heard_msg rid msg notified s)
unfolding handle_hub_event ◌>>=◌ change look call give render_history
heard_msg_lem rid msg notified s can = elim (Bool-cases (shows_room rid s.app)) [
  | inl e ↦ rw (e, shown_renders rid msg s e (can e)) refl
  | inr e ↦ elim (Bool-cases (mem s.app.user.id notified)) [
    | inl e' ↦ rw (e, e') refl
    | inr e' ↦ rw (e, e') refl
  ]
]

abbrev heard_all : ℕ → Message → List ℕ → Screen → Screen
heard_all rid msg notified s =
    let t = heard_msg rid msg notified s in
    if mem s.app.user.id notified then record t { app = on_notify (some rid) t.app } else t

heard_all_lem :
    (rid : ℕ) (msg : Message) (notified : List ℕ) (s : Screen)
    → CanShow rid msg s
    → hear_all (events_for s.app.user.id rid msg notified) s
      ≡ ran (tt, heard_all rid msg notified s)
unfolding hear_all ◌>>=◌ handle_hub_event change give
heard_all_lem rid msg notified s can =
    rw (heard_msg_lem rid msg notified s can) (rest (mem s.app.user.id notified))
  where
    rest :
        (b : Bool)
        → hear_all
            (if b then notify_event s.app.user.id rid ∷ [] else [])
            (heard_msg rid msg notified s)
          ≡ ran (
            tt,
            (let t = heard_msg rid msg notified s in
                if b then record t { app = on_notify (some rid) t.app } else t),
          )
    rest true = refl
    rest false = refl

-- If the texts of the room and the new one can be rendered, in case the session shows the room, then
-- the events that one message sends to a session of the room do not panic. They append the message once
-- to the texts of the room, and raise the unread count of the room by 1, whether the user of the
-- session is mentioned or not, unless the session shows the room; if it does, a mention raises the
-- count by 1 all the same, and any other message leaves it. No other room's count changes.
pub hear_all-unread :
    (rid : ℕ) (msg : Message) (notified : List ℕ) (s : Screen)
    → CanShow rid msg s
    → (t : Screen) × (hear_all (events_for s.app.user.id rid msg notified) s ≡ ran (tt, t))
      × (t.app.messages (room_chat rid) ≡ s.app.messages (room_chat rid) ++ msg ∷ [])
      × ((r : ℕ)
          → at 0 r t.app.unread_room
            ≡ at 0 r s.app.unread_room
              + (if r == rid
                  then (if shows_room rid s.app then counts (mem s.app.user.id notified) else 1)
                  else 0))
hear_all-unread rid msg notified s can = (
  heard_all rid msg notified s,
  heard_all_lem rid msg notified s can,
  ground (arith, ==_self rid),
  λ r. ground (arith, at-put 0 r rid (suc (at 0 rid s.app.unread_room)) s.app.unread_room),
)
