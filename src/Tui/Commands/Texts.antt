-- ===== src/Tui/Commands/Texts.antt =====
-- internal/tui/commands.go: the commands on messages, keys and notifications.
use terminal_social.Common.{
  ℕ, not, ◌||◌, List, [], ◌∷◌, ◌++◌, map, Option, none, some, length, ◌==◌, if◌then◌else◌,
}
use terminal_social.Text.{Bytes, codes, bytes_eq}
use terminal_social.Text.Words.{fields, trim_space, join}
use terminal_social.Text.Numbers.{Number, plain, minus, parse_int}
use terminal_social.Domain.{User, UserKey, Message, Notification}
use terminal_social.Store.Exec.{no_rows, Result, ok, err, Action, query}
use terminal_social.Store.Users.{user_by_fingerprint, add_key, user_keys}
use terminal_social.Store.Messages.{
  is_empty, message_by_id, message_by_id_for_user, delete_message_for_user,
}
use terminal_social.Store.History.{search_room_for_user}
use terminal_social.Store.Notifications.{list_notifications, report_message_for_user}
use terminal_social.Hub.{msg_deleted, publish_room}
use terminal_social.Tui.{
  Library, Cmd, flash, Notice, usage, failed, bad_id, not_found, reported, deleted, no_matches,
  matches, bad_key, key_is_yours, key_is_taken, key_added, keys, notifications, no_notifications,
  put_chat, cur_key, is_room,
}
use terminal_social.Tui.Render.{render_history}
use terminal_social.Tui.Ui.{Ui, give, call, look, change, tell, ◌>>=◌, ◌>>◌, value_or}
use terminal_social.Tui.Chat.{blank, send_current}

-- No row has a number below 0.
abbrev pub by_number {ℓ} : {A : Type ℓ} → (ℕ → Action A) → Number → Action A
by_number f (plain n) = f n
by_number f (minus n) = query (λ db. err no_rows)

abbrev pub answer : Notice → Result (Unit {0}) → Ui Cmd
answer n (ok t) = give (flash n)
answer n (err e) = give (flash (failed e))

-- `/report`.
abbrev pub report_id : Bytes → Option Number → Ui Cmd
report_id reason none = give (flash bad_id)
report_id reason (some n) = do
  s ← look (λ s. s)
  r ← call (by_number (λ mid. report_message_for_user s.now s.app.user.id mid reason) n)
  answer reported r

unfoldable pub report_cmd : List Bytes → Ui Cmd
unfolding parse_int
report_cmd [] = give (flash usage)
report_cmd (arg ∷ []) = give (flash usage)
report_cmd (arg ∷ w ∷ words) = report_id (join (codes " ") (w ∷ words)) (parse_int arg)

-- `/delete`.
abbrev pub tell_deleted : Option ℕ → Ui Cmd
tell_deleted none = give (flash deleted)
tell_deleted (some rid) = do
  tell (publish_room rid (record (blank msg_deleted) { room_id = rid }))
  give (flash deleted)

abbrev pub after_delete : Message → Result (Unit {0}) → Ui Cmd
after_delete msg (err e) = give (flash (failed e))
after_delete msg (ok t) = tell_deleted msg.room_id

abbrev pub delete_found : Number → Result Message → Ui Cmd
delete_found n (err e) = give (flash not_found)
delete_found n (ok msg) = do
  s ← look (λ s. s)
  r ←
      call
        (by_number (λ mid. delete_message_for_user s.now mid s.app.user.id s.app.user.is_admin) n)
  after_delete msg r

abbrev pub delete_id : Option Number → Ui Cmd
delete_id none = give (flash bad_id)
delete_id (some n) = do
  a ← look (λ s. s.app)
  msg ← call (
      if a.user.is_admin
      then by_number message_by_id n
      else by_number (message_by_id_for_user a.user.id) n)
  delete_found n msg

unfoldable pub delete_cmd : List Bytes → Ui Cmd
unfolding parse_int
delete_cmd [] = give (flash usage)
delete_cmd (arg ∷ args) = delete_id (parse_int arg)

-- `/search`.
abbrev pub show_results : Result (List Message) → Ui Cmd
show_results (err e) = give (flash (failed e))
show_results (ok []) = give (flash no_matches)
show_results (ok (m ∷ ms)) = do
  change (λ a. record a { messages = put_chat (cur_key a) (m ∷ ms) a.messages })
  render_history
  give (flash (matches (length (m ∷ ms))))

-- `/keys`.
abbrev pub list_keys : Bytes → Result (List UserKey) → Ui Cmd
list_keys fp (err e) = give (flash (failed e))
list_keys fp (ok ks) =
    give (flash (keys (map (λ (k : UserKey). (bytes_eq k.fingerprint fp, k)) ks)))

unfoldable pub keys_cmd : Ui Cmd
keys_cmd = do s ← look (λ s. s); ks ← call (user_keys s.app.user.id); list_keys s.fingerprint ks

-- `/notifications`.
abbrev pub list_notifs : List Notification → Ui Cmd
list_notifs [] = give (flash no_notifications)
list_notifs (n ∷ ns) = give (flash (notifications (n ∷ ns)))

unfoldable pub notifications_cmd : Ui Cmd
notifications_cmd = do
  a ← look (λ s. s.app)
  ns ← call (list_notifications a.user.id 20)
  list_notifs (value_or [] ns)

abbrev comment_of : List Bytes → Bytes
comment_of (a ∷ b ∷ c ∷ ws) = join (codes " ") (c ∷ ws)
comment_of (a ∷ b ∷ []) = []
comment_of (a ∷ []) = []
comment_of [] = []

-- `keyComment`.
unfoldable pub key_comment : Bytes → Bytes
key_comment line = comment_of (fields (trim_space line))

-- `/addkey`.
abbrev pub key_added_as : Bytes → Result (Unit {0}) → Ui Cmd
key_added_as fp (err e) = give (flash (failed e))
key_added_as fp (ok t) = give (flash (key_added fp))

abbrev pub attach_key : Bytes → Bytes → Bytes → Result User → Ui Cmd
attach_key rest key fp (ok u) = do
  a ← look (λ s. s.app)
  give (flash (if u.id == a.user.id then key_is_yours else key_is_taken))
attach_key rest key fp (err e) = do
  s ← look (λ s. s)
  r ← call (add_key s.now s.app.user.id fp key (key_comment rest))
  key_added_as fp r

abbrev pub add_parsed : Bytes → Option (Bytes × Bytes) → Ui Cmd
add_parsed rest none = give (flash bad_key)
add_parsed rest (some (key, fp)) = do u ← call (user_by_fingerprint fp); attach_key rest key fp u

module _ (lib : Library) where
  unfoldable pub search_cmd : Bytes → Ui Cmd
  search_cmd rest = do
    a ← look (λ s. s.app)
    if not (is_room a.current) || is_empty rest then give (flash usage) else (do
      r ← call (search_room_for_user lib.fts lib.like a.user.id a.current_room_id rest 50)
      show_results r)

  unfoldable pub me_cmd : Bytes → Ui Cmd
  me_cmd rest = do
    a ← look (λ s. s.app)
    if is_empty rest
        then give (flash usage)
        else send_current lib (codes "* " ++ a.user.handle ++ codes " " ++ rest)

  unfoldable pub addkey_cmd : Bytes → Ui Cmd
  unfolding key_comment
  addkey_cmd rest =
      if is_empty rest then give (flash usage) else add_parsed rest (lib.parse_key rest)
