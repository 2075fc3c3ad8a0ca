-- ===== src/Tui/Live/Events.antt =====
-- Sending a text, and hearing an event.
use terminal_social.Common.{ℕ, ◌≡◌, refl, sym, subst, List, [], ◌∷◌, Option, none, some}
use terminal_social.Text.{Bytes}
use terminal_social.Domain.{User, Message, Role}
use terminal_social.Store.Exec.{Result, ok, err}
use terminal_social.Hub.{
  Event, EventKind, room_msg, dm_msg, msg_deleted, presence, notify, room_meta, room_removed,
}
use terminal_social.Tui.{App, Library, ViewKind, view_room, view_dm, view_none}
use terminal_social.Tui.Chat.{
  notify_users, posted, sent_dm, send_dm, post, send_to_room, send_in, send_current,
}
use terminal_social.Tui.Events.{
  on_room_msg, add_first, ensure_peer, on_dm_msg, reload, on_notify, on_room_removed, on_event,
  handle_hub_event,
}
use terminal_social.Tui.Live.{
  Keeps, core, give-Keeps, rate_msg-Keeps, publish_room-Keeps, publish_user-Keeps, leave_room-Keeps,
}
use terminal_social.Tui.Live.Channels.{
  handlers, refresh_rooms-Keeps, cached_user-Keeps, refresh_members-Keeps, open_first-Keeps,
}

notify_users-Keeps : (rid : ℕ) (uids : List ℕ) → Keeps (notify_users rid uids)
unfolding notify_users
notify_users-Keeps rid [] = give-Keeps tt
notify_users-Keeps rid (uid ∷ uids) =
    search (handlers, publish_user-Keeps, notify_users-Keeps rid uids) depth 12

posted-Keeps : (rid : ℕ) (r : Result (Message × List ℕ)) → Keeps (posted rid r)
posted-Keeps rid (err e) = give-Keeps _
posted-Keeps rid (ok (msg, notified)) =
    search (handlers, publish_room-Keeps, notify_users-Keeps) depth 12

sent_dm-Keeps : (uid peer : ℕ) (r : Result Message) → Keeps (sent_dm uid peer r)
sent_dm-Keeps uid peer (err e) = give-Keeps _
sent_dm-Keeps uid peer (ok msg) = search (handlers, publish_user-Keeps) depth 12

send_dm-Keeps : (body : Bytes) → Keeps (send_dm body)
unfolding send_dm
send_dm-Keeps body = search (handlers, sent_dm-Keeps) depth 12

module _ (lib : Library) where
  post-Keeps : (body : Bytes) (r : Result (Option Role)) → Keeps (post lib body r)
  post-Keeps body (err e) = give-Keeps _
  post-Keeps body (ok none) = give-Keeps _
  post-Keeps body (ok (some r)) = search (handlers, posted-Keeps) depth 12

  send_to_room-Keeps : (body : Bytes) → Keeps (send_to_room lib body)
  unfolding send_to_room
  send_to_room-Keeps body = search (handlers, post-Keeps) depth 12

  send_in-Keeps : (v : ViewKind) (body : Bytes) → Keeps (send_in lib v body)
  send_in-Keeps view_room body = send_to_room-Keeps body
  send_in-Keeps view_dm body = send_dm-Keeps body
  send_in-Keeps view_none body = give-Keeps _

  pub send_current-Keeps : (body : Bytes) → Keeps (send_current lib body)
  unfolding send_current
  send_current-Keeps body = search (handlers, rate_msg-Keeps, send_in-Keeps) depth 12

-- A message comes with the events that announce one.
abbrev pub HasMessage : EventKind → Option Message → Type 0
HasMessage room_msg o = (msg : Message) × (o ≡ some msg)
HasMessage dm_msg o = (msg : Message) × (o ≡ some msg)
HasMessage msg_deleted o = Unit
HasMessage presence o = Unit
HasMessage notify o = Unit
HasMessage room_meta o = Unit
HasMessage room_removed o = Unit

on_room_msg-Keeps : (ev : Event) (msg : Message) → Keeps (on_room_msg ev (some msg))
on_room_msg-Keeps ev msg = search handlers depth 12

add_first-core : (o : Option User) (a : App) → core (add_first o a) ≡ core a
add_first-core none a = refl
add_first-core (some u) a = refl

ensure_peer-Keeps : (pid : ℕ) → Keeps (ensure_peer pid)
unfolding ensure_peer
ensure_peer-Keeps pid = search (handlers, cached_user-Keeps, add_first-core) depth 12

on_dm_msg-Keeps : (ev : Event) (msg : Message) → Keeps (on_dm_msg ev (some msg))
on_dm_msg-Keeps ev msg = search (handlers, ensure_peer-Keeps) depth 12

reload-Keeps : (v : ViewKind) → Keeps (reload v)
reload-Keeps view_room = search handlers depth 12
reload-Keeps view_dm = search handlers depth 12
reload-Keeps view_none = give-Keeps tt

on_notify-core : (o : Option ℕ) (a : App) → core (on_notify o a) ≡ core a
on_notify-core none a = refl
on_notify-core (some rid) a = refl

on_room_removed-Keeps : (rid : ℕ) → Keeps (on_room_removed rid)
unfolding on_room_removed
on_room_removed-Keeps rid =
    search (handlers, leave_room-Keeps, refresh_rooms-Keeps, open_first-Keeps) depth 12

on_event-Keeps :
    (kind : EventKind) (ev : Event) → HasMessage kind ev.message → Keeps (on_event kind ev)
on_event-Keeps room_msg ev (msg, e) =
    subst (λ o. Keeps (on_room_msg ev o)) (sym e) (on_room_msg-Keeps ev msg)
on_event-Keeps dm_msg ev (msg, e) =
    subst (λ o. Keeps (on_dm_msg ev o)) (sym e) (on_dm_msg-Keeps ev msg)
on_event-Keeps msg_deleted ev h = search (handlers, reload-Keeps) depth 12
on_event-Keeps presence ev h = search handlers depth 12
on_event-Keeps notify ev h = search (handlers, on_notify-core) depth 12
on_event-Keeps room_meta ev h =
    search (handlers, refresh_rooms-Keeps, refresh_members-Keeps) depth 12
on_event-Keeps room_removed ev h = on_room_removed-Keeps ev.room_id

pub handle_hub_event-Keeps :
    (ev : Event) → HasMessage ev.kind ev.message → Keeps (handle_hub_event ev)
unfolding handle_hub_event
handle_hub_event-Keeps ev h = on_event-Keeps ev.kind ev h
