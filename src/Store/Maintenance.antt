-- ===== src/Store/Maintenance.antt =====
-- `PurgeDeletedOlderThan`, `ResolveHandles`, `DMPeers` and `Stats` of store.go. `cutoff` is
-- `time.Now().Add(-d).Unix()`.
pub mod Purge
pub mod Peers
use terminal_social.Common.{
  ℕ, suc, ◌+◌, Bool, true, false, not, ◌&&◌, ◌||◌, List, [], ◌∷◌, ◌++◌, Option, none, some, map,
  ltb, leb, ◌==◌, length, any_row, select, find_row, delete_rows, sort_by, if◌then◌else◌,
}
use terminal_social.Text.{Bytes, nocase_eq}
use terminal_social.Domain.{MessageKind, room, dm}
use terminal_social.Store.Schema.{Db, MessageRow, NotificationRow, MentionRow, holds}
use terminal_social.Store.Rooms.{is_live}
use terminal_social.Store.Exec.{
  Error, Result, ok, err, Action, pure, fail, statement, query, ◌>>=◌, ◌>>◌, done,
}

-- `deleted_at IS NOT NULL AND deleted_at < ?`.
abbrev pub is_expired : ℕ → MessageRow → Bool
is_expired cutoff m = elim m.deleted_at [ none ↦ false | some t ↦ ltb t cutoff ]

abbrev pub is_purged : ℕ → Db → ℕ → Bool
is_purged cutoff db mid = any_row (λ m. m.id == mid && is_expired cutoff m) db.messages

abbrev pub of_purged : ℕ → Db → Option ℕ → Bool
of_purged cutoff db none = false
of_purged cutoff db (some mid) = is_purged cutoff db mid

-- The mentions and the notifications of a message go with it (`ON DELETE CASCADE`). The result is
-- `RowsAffected`.
unfoldable pub purge_deleted : ℕ → Action ℕ
purge_deleted cutoff = statement (λ db. ok (
  length (select (is_expired cutoff) db.messages),
  record db {
    messages = delete_rows (is_expired cutoff) db.messages;
    mentions = delete_rows (λ x. is_purged cutoff db x.message_id) db.mentions;
    notifications = delete_rows (λ n. of_purged cutoff db n.message_id) db.notifications;
  },
))

-- `handle IN (…) COLLATE NOCASE`. The query names no order; the model takes the table's.
unfoldable pub resolve_handles : List Bytes → Action (List ℕ)
resolve_handles [] = pure []
resolve_handles (h ∷ hs) = query (λ db.
    ok (map (λ u. u.id) (select (λ u. any_row (λ x. nocase_eq u.handle x) (h ∷ hs)) db.users)))

-- The other side of a direct message, and the message's id, for the messages of the user. `InsertDM`,
-- which alone inserts direct messages, leaves neither side NULL.
abbrev pub sides : ℕ → ℕ → Option ℕ → Option ℕ → List (ℕ × ℕ)
sides uid mid none b = []
sides uid mid (some a) none = []
sides uid mid (some a) (some b) =
    if a == uid then (b, mid) ∷ [] else if b == uid then (a, mid) ∷ [] else []

abbrev pub peer_row : ℕ → MessageRow → List (ℕ × ℕ)
peer_row uid m = elim m.kind [ room ↦ [] | dm ↦ sides uid m.id m.dm_peer_a m.dm_peer_b ]

unfoldable pub peer_rows : ℕ → List MessageRow → List (ℕ × ℕ)
peer_rows uid [] = []
peer_rows uid (m ∷ ms) = peer_row uid m ++ peer_rows uid ms

-- `GROUP BY peer` of rows that stand newest first: the first row of each peer stays.
unfoldable pub first_of_each : List (ℕ × ℕ) → List (ℕ × ℕ)
first_of_each [] = []
first_of_each ((p, i) ∷ rows) = (p, i) ∷ delete_rows (λ (r : ℕ × ℕ). r.0 == p) (first_of_each rows)

-- The largest id of each peer orders the peers.
unfoldable pub dm_peers : ℕ → Action (List ℕ)
unfolding peer_rows first_of_each
dm_peers uid = query (λ db. ok (
    map (λ (r : ℕ × ℕ). r.0)
      (first_of_each (sort_by (λ a b. leb b.1 a.1) (peer_rows uid db.messages)))))

pub record Stats : Type 0 where
  pub users : ℕ
  pub rooms : ℕ
  pub messages : ℕ

unfoldable pub stats : Action Stats
stats = do
  users ← query (λ db. ok (length db.users))
  rooms ← query (λ db. ok (length (select is_live db.rooms)))
  messages ← query (λ db. ok (length db.messages))
  pure (record { users = users; rooms = rooms; messages = messages })
