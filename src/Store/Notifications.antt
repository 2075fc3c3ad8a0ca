-- ===== src/Store/Notifications.antt =====
-- The methods of store.go under "Notifications" and "Reports". `now` is `time.Now().Unix()`.
pub mod Unread
pub mod Reports
use terminal_social.Common.{
  ℕ, suc, Bool, true, false, not, ◌&&◌, ◌||◌, List, [], ◌∷◌, ◌++◌, Option, none, some, map, leb,
  ◌==◌, take, any_row, select, find_row, update_rows, sort_by, if◌then◌else◌,
}
use terminal_social.Common.Sets.{at, put}
use terminal_social.Text.{Bytes, codes, bytes_eq}
use terminal_social.Domain.{
  Message, MessageKind, room, dm, Notification, NotificationKind, mention_kind, dm_kind,
  invite_kind, dm_key,
}
use terminal_social.Domain.Sanitize.{sanitize_user_text}
use terminal_social.Store.Schema.{
  Db, MessageRow, NotificationRow, ReportRow, TargetKind, message_target, user_target, next_id,
  holds, user_exists,
}
use terminal_social.Store.Exec.{
  constraint, invalid_target_kind, Result, ok, err, Action, pure, fail, statement, query, attempt,
  ◌>>=◌, ◌>>◌, or_no_rows, done,
}
use terminal_social.Store.Messages.{message_by_id, can_read_message}
use terminal_social.Store.History.{in_dm}

abbrev pub notification_of : NotificationRow → Notification
notification_of n = record {
  id = n.id;
  user_id = n.user_id;
  kind = n.kind;
  message_id = n.message_id;
  room_id = n.room_id;
  created_at = n.created_at;
  read = elim n.read_at [ none ↦ false | some _ ↦ true ];
}

unfoldable pub list_notifications : ℕ → ℕ → Action (List Notification)
list_notifications uid limit = query (λ db. ok (
    map notification_of (
      take limit
        (sort_by (λ a b. leb b.id a.id) (select (λ n. n.user_id == uid) db.notifications)))))

-- `user_id=? AND read_at IS NULL`.
abbrev pub is_unread : ℕ → NotificationRow → Bool
is_unread uid n = n.user_id == uid && (elim n.read_at [ none ↦ true | some _ ↦ false ])

-- `counts[k]++`.
abbrev pub bump : ℕ → List (ℕ × ℕ) → List (ℕ × ℕ)
bump k counts = put k (suc (at 0 k counts)) counts

-- The peer of a direct message; a message with a column that is NULL does not scan.
abbrev pub peer_of : ℕ → Option MessageRow → Option ℕ
peer_of uid none = none
peer_of uid (some m) = elim m.dm_peer_a [
  | none ↦ none
  | some a ↦ (elim m.dm_peer_b [ none ↦ none | some b ↦ if a == uid then some b else some a ])
]

abbrev pub bump_if : Option ℕ → List (ℕ × ℕ) → List (ℕ × ℕ)
bump_if none counts = counts
bump_if (some k) counts = bump k counts

-- The key in `rooms` that a notification counts under.
abbrev pub room_key : NotificationRow → Option ℕ
room_key n = elim n.kind [ mention_kind ↦ n.room_id | dm_kind ↦ none | invite_kind ↦ none ]

-- `SELECT dm_peer_a, dm_peer_b, author_id FROM messages`.
unfoldable pub query_peer : ℕ → ℕ → Action ℕ
query_peer uid mid =
    query (λ db. or_no_rows (peer_of uid (find_row (λ m. m.id == mid) db.messages)))

-- `err == nil`.
abbrev pub known_peer : Result ℕ → Option ℕ
known_peer (ok p) = some p
known_peer (err e) = none

-- The case of a direct message.
unfoldable pub count_dm : ℕ → Option ℕ → List (ℕ × ℕ) → Action (List (ℕ × ℕ))
count_dm uid none dms = pure dms
count_dm uid (some mid) dms = do
  peer ← attempt (query_peer uid mid)
  pure (bump_if (known_peer peer) dms)

abbrev pub dm_message_id : NotificationRow → Option ℕ
dm_message_id n = elim n.kind [ mention_kind ↦ none | dm_kind ↦ n.message_id | invite_kind ↦ none ]

-- The loop of `UnreadCounts` over the rows.
unfoldable pub count_unread :
    ℕ → List NotificationRow → List (ℕ × ℕ) → List (ℕ × ℕ) → Action (List (ℕ × ℕ) × List (ℕ × ℕ))
count_unread uid [] rooms dms = pure (rooms, dms)
count_unread uid (n ∷ ns) rooms dms = do
  counted ← count_dm uid (dm_message_id n) dms
  count_unread uid ns (bump_if (room_key n) rooms) counted

unfoldable pub unread_counts : ℕ → Action (List (ℕ × ℕ) × List (ℕ × ℕ))
unread_counts uid = do
  rows ← query (λ db. ok (select (is_unread uid) db.notifications))
  count_unread uid rows [] []

abbrev pub read_row : ℕ → NotificationRow → NotificationRow
read_row now n = record n { read_at = some now }

unfoldable pub mark_room_read : ℕ → ℕ → ℕ → Action (Unit {0})
mark_room_read now uid rid = statement (λ db. done (record db {
  notifications =
      update_rows (λ n. is_unread uid n && holds n.room_id rid) (read_row now) db.notifications;
}))

-- `kind='dm' AND message_id IN (…)`.
abbrev pub is_of_dm : ℕ → ℕ → Db → NotificationRow → Bool
is_of_dm a b db n =
    (elim n.kind [ mention_kind ↦ false | dm_kind ↦ true | invite_kind ↦ false ])
    && any_row (λ m. holds n.message_id m.id && in_dm a b m) db.messages

unfoldable pub mark_dm_read : ℕ → ℕ → ℕ → Action (Unit {0})
mark_dm_read now uid peer = statement (λ db. done (record db {
  notifications =
      update_rows (λ n. is_unread uid n && is_of_dm (dm_key uid peer).0 (dm_key uid peer).1 db n)
        (read_row now) db.notifications;
}))

-- A target kind as the text that the schema stores.
unfoldable pub parse_target : Bytes → Option TargetKind
parse_target s =
    if bytes_eq s (codes "message")
    then some message_target
    else if bytes_eq s (codes "user")
    then some user_target
    else none

-- `INSERT INTO reports`; nothing ties the target to a row.
abbrev pub insert_report : ℕ → ℕ → TargetKind → ℕ → Bytes → Db → Result (Unit {0} × Db)
insert_report now reporter kind target reason db =
    let row : ReportRow = record {
      id = next_id (λ (r : ReportRow). r.id) db.reports;
      reporter_id = reporter;
      target_kind = kind;
      target_id = target;
      reason = reason;
      created_at = now;
    } in
    if user_exists reporter db
    then done (record db { reports = db.reports ++ row ∷ [] })
    else err constraint

abbrev pub store_report : ℕ → ℕ → Option TargetKind → ℕ → Bytes → Action (Unit {0})
store_report now reporter none target reason = fail invalid_target_kind
store_report now reporter (some kind) target reason =
    statement (insert_report now reporter kind target (sanitize_user_text reason))

unfoldable pub report : ℕ → ℕ → Bytes → ℕ → Bytes → Action (Unit {0})
report now reporter kind target reason = store_report now reporter (parse_target kind) target reason

unfoldable pub report_message_for_user : ℕ → ℕ → ℕ → Bytes → Action (Unit {0})
report_message_for_user now reporter mid reason = do
  msg ← message_by_id mid
  can_read_message reporter msg
  report now reporter (codes "message") mid reason
