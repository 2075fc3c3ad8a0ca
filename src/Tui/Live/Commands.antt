-- ===== src/Tui/Live/Commands.antt =====
-- The commands that begin with a slash, but for the one that ends the session.
use terminal_social.Common.{
  ℕ, ◌≡◌, refl, Bool, true, false, List, [], ◌∷◌, Option, none, some, if◌then◌else◌,
}
use terminal_social.Common.Sets.{put}
use terminal_social.Text.{Bytes}
use terminal_social.Text.Numbers.{Number, parse_int}
use terminal_social.Domain.{User, UserKey, Room, Message, Notification}
use terminal_social.Store.Exec.{Result, ok, err}
use terminal_social.Tui.{App, Notice}
use terminal_social.Tui.Commands.People.{meet, saved_profile, save_profile, save_segs, profile_cmd}
use terminal_social.Tui.Commands.Rooms.{
  announce, may_enter, entered, enter_found, leave_cmd, created, create_named, own_role, topic_cmd,
}
use terminal_social.Tui.Commands.Texts.{
  answer, report_id, report_cmd, tell_deleted, after_delete, delete_found, delete_id, delete_cmd,
  show_results, list_keys, keys_cmd, list_notifs, notifications_cmd, key_added_as, attach_key,
  add_parsed,
}
use terminal_social.Tui.Events.{is_peer}
use terminal_social.Tui.Live.{
  Keeps, core, >>=-Keeps, give-Keeps, publish_room-Keeps, leave_room-Keeps,
}
use terminal_social.Tui.Live.Channels.{
  handlers, refresh_rooms-Keeps, open_room-Keeps, open_first-Keeps, join_room_then-Keeps,
}

pub announce-Keeps : (rid : ℕ) → Keeps (announce rid)
unfolding announce
announce-Keeps rid = publish_room-Keeps rid _

entered-Keeps : (name : Bytes) (rid : ℕ) (r : Result (Unit {0})) → Keeps (entered name rid r)
entered-Keeps name rid (err e) = give-Keeps _
entered-Keeps name rid (ok t) =
    >>=-Keeps _ _ refresh_rooms-Keeps
      (λ _. join_room_then-Keeps rid _ (search (handlers, announce-Keeps, open_room-Keeps)))

may_enter-Keeps : (r : Room) → Keeps (may_enter r)
may_enter-Keeps r = search handlers

pub enter_found-Keeps : (name : Bytes) (r : Result Room) → Keeps (enter_found name r)
enter_found-Keeps name (err e) = give-Keeps _
enter_found-Keeps name (ok r) = search (handlers, may_enter-Keeps, entered-Keeps) depth 12

pub leave_cmd-Keeps : Keeps leave_cmd
unfolding leave_cmd
leave_cmd-Keeps =
    search (handlers, leave_room-Keeps, refresh_rooms-Keeps, open_first-Keeps, announce-Keeps) depth
      16

created-Keeps : (name : Bytes) (r : Result Room) → Keeps (created name r)
created-Keeps name (err e) = give-Keeps _
created-Keeps name (ok r) =
    >>=-Keeps _ _ refresh_rooms-Keeps
      (λ _. join_room_then-Keeps r.id _ (search (handlers, open_room-Keeps)))

pub create_named-Keeps : (name : Bytes) (priv : Bool) → Keeps (create_named name priv)
unfolding create_named
create_named-Keeps name priv = search (handlers, created-Keeps) depth 12

pub own_role-Keeps : Keeps own_role
unfolding own_role
own_role-Keeps = search handlers

pub topic_cmd-Keeps : (rest : Bytes) → Keeps (topic_cmd rest)
unfolding topic_cmd
topic_cmd-Keeps rest = search (handlers, own_role-Keeps, announce-Keeps) depth 12

tell_deleted-Keeps : (o : Option ℕ) → Keeps (tell_deleted o)
tell_deleted-Keeps none = give-Keeps _
tell_deleted-Keeps (some rid) = search (handlers, publish_room-Keeps)

after_delete-Keeps : (msg : Message) (r : Result (Unit {0})) → Keeps (after_delete msg r)
after_delete-Keeps msg (err e) = give-Keeps _
after_delete-Keeps msg (ok t) = tell_deleted-Keeps msg.room_id

delete_found-Keeps : (n : Number) (r : Result Message) → Keeps (delete_found n r)
delete_found-Keeps n (err e) = give-Keeps _
delete_found-Keeps n (ok msg) = search (handlers, after_delete-Keeps)

delete_id-Keeps : (o : Option Number) → Keeps (delete_id o)
delete_id-Keeps none = give-Keeps _
delete_id-Keeps (some n) = search (handlers, delete_found-Keeps)

pub delete_cmd-Keeps : (args : List Bytes) → Keeps (delete_cmd args)
unfolding delete_cmd
delete_cmd-Keeps [] = give-Keeps _
delete_cmd-Keeps (arg ∷ args) = delete_id-Keeps (parse_int arg)

answer-Keeps : (n : Notice) (r : Result (Unit {0})) → Keeps (answer n r)
answer-Keeps n (ok t) = give-Keeps _
answer-Keeps n (err e) = give-Keeps _

report_id-Keeps : (reason : Bytes) (o : Option Number) → Keeps (report_id reason o)
report_id-Keeps reason none = give-Keeps _
report_id-Keeps reason (some n) = search (handlers, answer-Keeps)

pub report_cmd-Keeps : (args : List Bytes) → Keeps (report_cmd args)
unfolding report_cmd
report_cmd-Keeps [] = give-Keeps _
report_cmd-Keeps (arg ∷ []) = give-Keeps _
report_cmd-Keeps (arg ∷ w ∷ words) = report_id-Keeps _ (parse_int arg)

list_keys-Keeps : (fp : Bytes) (r : Result (List UserKey)) → Keeps (list_keys fp r)
list_keys-Keeps fp (err e) = give-Keeps _
list_keys-Keeps fp (ok ks) = give-Keeps _

pub keys_cmd-Keeps : Keeps keys_cmd
unfolding keys_cmd
keys_cmd-Keeps = search (handlers, list_keys-Keeps)

list_notifs-Keeps : (ns : List Notification) → Keeps (list_notifs ns)
list_notifs-Keeps [] = give-Keeps _
list_notifs-Keeps (n ∷ ns) = give-Keeps _

pub notifications_cmd-Keeps : Keeps notifications_cmd
unfolding notifications_cmd
notifications_cmd-Keeps = search (handlers, list_notifs-Keeps)

key_added_as-Keeps : (fp : Bytes) (r : Result (Unit {0})) → Keeps (key_added_as fp r)
key_added_as-Keeps fp (err e) = give-Keeps _
key_added_as-Keeps fp (ok t) = give-Keeps _

attach_key-Keeps : (rest key fp : Bytes) (r : Result User) → Keeps (attach_key rest key fp r)
attach_key-Keeps rest key fp (ok u) = search handlers
attach_key-Keeps rest key fp (err e) = search (handlers, key_added_as-Keeps)

pub add_parsed-Keeps : (rest : Bytes) (o : Option (Bytes × Bytes)) → Keeps (add_parsed rest o)
add_parsed-Keeps rest none = give-Keeps _
add_parsed-Keeps rest (some (key, fp)) = search (handlers, attach_key-Keeps)

saved_profile-Keeps :
    (name bio pron : Bytes) (r : Result (Unit {0})) → Keeps (saved_profile name bio pron r)
saved_profile-Keeps name bio pron (err e) = give-Keeps _
saved_profile-Keeps name bio pron (ok t) = search handlers

save_profile-Keeps : (name bio pron : Bytes) → Keeps (save_profile name bio pron)
save_profile-Keeps name bio pron = search (handlers, saved_profile-Keeps)

save_segs-Keeps : (u : User) (segs : List Bytes) → Keeps (save_segs u segs)
save_segs-Keeps u [] = search save_profile-Keeps
save_segs-Keeps u (n ∷ []) = search save_profile-Keeps
save_segs-Keeps u (n ∷ b ∷ []) = search save_profile-Keeps
save_segs-Keeps u (n ∷ b ∷ p ∷ ps) = search save_profile-Keeps

pub profile_cmd-Keeps : (rest : Bytes) → Keeps (profile_cmd rest)
unfolding profile_cmd
profile_cmd-Keeps rest = search (handlers, save_segs-Keeps)

pub show_results-Keeps : (r : Result (List Message)) → Keeps (show_results r)
show_results-Keeps (err e) = give-Keeps _
show_results-Keeps (ok []) = give-Keeps _
show_results-Keeps (ok (m ∷ ms)) = search handlers

pub meet-core : (u : User) (a : App) → core (meet u a) ≡ core a
meet-core u a = go (is_peer u.id a)
  where
    go :
        (b : Bool)
        → core (
            if b
            then a
            else record a { dm_peers = u ∷ a.dm_peers; user_cache = put u.id u a.user_cache })
          ≡ core a
    go true = refl
    go false = refl
