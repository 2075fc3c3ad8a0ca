-- ===== src/Store/History.antt =====
-- The methods of store.go that list messages: histories and search.
pub mod Access
pub mod Order
pub mod Search
use mathlib.Core.List.{filter_map}
use terminal_social.Common.{
  ℕ, Bool, true, false, not, ◌&&◌, ◌||◌, List, [], ◌∷◌, ◌++◌, Option, none, some, map, reverse, ltb,
  leb, ◌==◌, length, take, any_row, select, find_row, sort_by, if◌then◌else◌,
}
use terminal_social.Text.{Bytes}
use terminal_social.Domain.{Message, MessageKind, room, dm, dm_key}
use terminal_social.Store.Schema.{Db, MessageRow, holds}
use terminal_social.Store.Exec.{
  Error, dm_to_self, Result, ok, err, Action, pure, fail, query, attempt, ◌>>=◌, ◌>>◌, reject,
}
use terminal_social.Store.Rooms.{require_member}
use terminal_social.Store.Messages.{with_author}

-- `ORDER BY m.id DESC`.
abbrev pub newest_first : List MessageRow → List MessageRow
newest_first ms = sort_by (λ a b. leb b.id a.id) ms

-- The inner join with the authors.
unfoldable pub with_authors : Db → List MessageRow → List Message
with_authors db ms = filter_map (with_author db) ms

-- `m.kind='room' AND m.room_id=?`.
abbrev pub in_room : ℕ → MessageRow → Bool
in_room rid m = (elim m.kind [ room ↦ true | dm ↦ false ]) && holds m.room_id rid

-- `m.kind='dm' AND m.dm_peer_a=? AND m.dm_peer_b=?`.
abbrev pub in_dm : ℕ → ℕ → MessageRow → Bool
in_dm a b m =
    (elim m.kind [ room ↦ false | dm ↦ true ]) && holds m.dm_peer_a a && holds m.dm_peer_b b

-- The rows that pass the test, the last `limit` of them by id, newest first.
abbrev pub recent : (MessageRow → Bool) → ℕ → Db → List Message
recent p limit db = take limit (with_authors db (newest_first (select p db.messages)))

-- The swap loop behind the query reverses the slice.
unfoldable pub room_history : ℕ → ℕ → Action (List Message)
room_history rid limit = do
  out ← query (λ db. ok (recent (in_room rid) limit db))
  pure (reverse out)

unfoldable pub room_history_for_user : ℕ → ℕ → ℕ → Action (List Message)
room_history_for_user uid rid limit = do require_member rid uid; room_history rid limit

unfoldable pub dm_history : ℕ → ℕ → ℕ → Action (List Message)
dm_history u1 u2 limit = do
  out ← query (λ db. ok (recent (in_dm (dm_key u1 u2).0 (dm_key u1 u2).1) limit db))
  pure (reverse out)

unfoldable pub dm_history_for_user : ℕ → ℕ → ℕ → Action (List Message)
dm_history_for_user uid peer limit = do reject (uid == peer) dm_to_self; dm_history uid peer limit

-- Full-text search and `LIKE` are SQLite's: `fts q` finds the rows that match, or fails on a malformed
-- query; `like q` is the test of the fall-back.
module _ (fts : Bytes → Db → Result (MessageRow → Bool)) (like : Bytes → MessageRow → Bool) where
  -- An error of the first query, of whichever kind, leads to the second.
  abbrev pub first_or_like : Result (List Message) → ℕ → Bytes → ℕ → Action (List Message)
  first_or_like (ok found) rid q limit = pure found
  first_or_like (err e) rid q limit =
      query (λ db. ok (recent (λ m. in_room rid m && like q m) limit db))

  abbrev pub found_rows : ℕ → ℕ → Db → Result (MessageRow → Bool) → Result (List Message)
  found_rows rid limit db (ok hit) = ok (recent (λ m. hit m && in_room rid m) limit db)
  found_rows rid limit db (err e) = err e

  unfoldable pub search_room : ℕ → Bytes → ℕ → Action (List Message)
  search_room rid q limit = do
    first ← attempt (query (λ db. found_rows rid limit db (fts q db)))
    first_or_like first rid q limit

  unfoldable pub search_room_for_user : ℕ → ℕ → Bytes → ℕ → Action (List Message)
  search_room_for_user uid rid q limit = do require_member rid uid; search_room rid q limit
