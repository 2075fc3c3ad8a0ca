-- ===== src/Tui/Chat.antt =====
-- `sendCurrent` of internal/tui/app.go.
use terminal_social.Common.{ℕ, false, List, [], ◌∷◌, Option, none, some, if◌then◌else◌}
use terminal_social.Text.{Bytes}
use terminal_social.Domain.{Role, Message, Notification, mention_kind}
use terminal_social.Store.Exec.{Result, ok, err}
use terminal_social.Store.Rooms.{is_member}
use terminal_social.Store.Blocks.{is_blocked}
use terminal_social.Store.Messages.{clip, insert_room_message, insert_dm}
use terminal_social.Store.Mentions.{parse_mentions}
use terminal_social.Store.Maintenance.{resolve_handles}
use terminal_social.Hub.{EventKind, room_msg, dm_msg, notify, Event, publish_room, publish_user}
use terminal_social.Tui.{
  Library, Cmd, idle, flash, rate_limited, not_member_here, cannot_dm, send_failed, ViewKind,
  view_room, view_dm, view_none,
}
use terminal_social.Tui.Ui.{Ui, give, call, look, tell, rate_msg, ◌>>=◌, ◌>>◌, value_or}

-- `hub.Event{Kind: kind}`.
abbrev pub blank : EventKind → Event
blank kind = record {
  kind = kind;
  room_id = 0;
  user_id = 0;
  peer_id = 0;
  message = none;
  online = false;
  notif = none;
  mention_set = [];
}

abbrev pub room_msg_event : ℕ → Message → List ℕ → Event
room_msg_event rid msg notified = record (blank room_msg) {
  room_id = rid;
  message = some msg;
  mention_set = notified;
}

abbrev pub mention_of : ℕ → Notification
mention_of rid = record {
  id = 0;
  user_id = 0;
  kind = mention_kind;
  message_id = none;
  room_id = some rid;
  created_at = 0;
  read = false;
}

abbrev pub notify_event : ℕ → ℕ → Event
notify_event uid rid = record (blank notify) { user_id = uid; notif = some (mention_of rid) }

abbrev pub dm_event : ℕ → ℕ → Message → Event
dm_event uid peer msg = record (blank dm_msg) { user_id = uid; peer_id = peer; message = some msg }

unfoldable pub notify_users : ℕ → List ℕ → Ui (Unit {0})
notify_users rid [] = give tt
notify_users rid (uid ∷ uids) = do
  tell (publish_user uid (notify_event uid rid))
  notify_users rid uids

abbrev pub posted : ℕ → Result (Message × List ℕ) → Ui Cmd
posted rid (err e) = give (flash (send_failed e))
posted rid (ok (msg, notified)) = do
  tell (publish_room rid (room_msg_event rid msg notified))
  notify_users rid notified
  give idle

abbrev pub sent_dm : ℕ → ℕ → Result Message → Ui Cmd
sent_dm uid peer (err e) = give (flash (send_failed e))
sent_dm uid peer (ok msg) = do
  tell (publish_user peer (dm_event peer uid msg))
  tell (publish_user uid (dm_event uid peer msg))
  give idle

unfoldable pub send_dm : Bytes → Ui Cmd
send_dm body = do
  s ← look (λ s. s)
  blocked ← call (is_blocked s.app.current_peer_id s.app.user.id)
  if value_or false blocked then give (flash cannot_dm) else do
    r ← call (insert_dm s.now s.app.user.id s.app.current_peer_id body)
    sent_dm s.app.user.id s.app.current_peer_id r

module _ (lib : Library) where
  abbrev pub post : Bytes → Result (Option Role) → Ui Cmd
  post body (err e) = give (flash (send_failed e))
  post body (ok none) = give (flash not_member_here)
  post body (ok (some r)) = do
    s ← look (λ s. s)
    ids ← call (resolve_handles (parse_mentions lib.to_lower body))
    r ← call (insert_room_message s.now s.app.current_room_id s.app.user.id body (value_or [] ids))
    posted s.app.current_room_id r

  unfoldable pub send_to_room : Bytes → Ui Cmd
  send_to_room body = do
    a ← look (λ s. s.app)
    r ← call (is_member a.current_room_id a.user.id)
    post body r

  abbrev pub send_in : ViewKind → Bytes → Ui Cmd
  send_in view_room body = send_to_room body
  send_in view_dm body = send_dm body
  send_in view_none body = give idle

  unfoldable pub send_current : Bytes → Ui Cmd
  unfolding send_to_room send_dm
  send_current body = do
    allowed ← rate_msg
    a ← look (λ s. s.app)
    if allowed then send_in a.current (clip body) else give (flash rate_limited)
