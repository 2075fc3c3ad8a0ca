-- ===== src/Store/History/Search.antt =====
-- `SearchRoomForUser` of internal/store/store.go: where it looks.
use terminal_social.Common.{
  ℕ, ◌≡◌, ◌≤◌, refl, ap, subst, ◌∙◌, Bool, true, ◌&&◌, List, arith, length, any_row,
}
use terminal_social.Common.Records.Order.{All}
use terminal_social.Text.{Bytes}
use terminal_social.Domain.{Message}
use terminal_social.Store.Schema.{Db, MessageRow, is_member_row}
use terminal_social.Store.Exec.{Result, ok, err, Conn, pure, query, attempt}
use terminal_social.Store.Exec.Inversion.{>>=-ok, query-ok, attempt-ok}
use terminal_social.Store.Rooms.{require_member}
use terminal_social.Store.Rooms.Tables.{require_member-ok}
use terminal_social.Store.History.{
  in_room, first_or_like, found_rows, search_room, search_room_for_user,
}
use terminal_social.Store.History.Access.{IsInRoom, in_room-IsInRoom, recent-All, length-recent}

-- Messages of the room, at most `limit`.
abbrev pub AreOf : ℕ → ℕ → List Message → Type 0
AreOf rid limit ms = All (IsInRoom rid) ms × (length ms ≤ limit)

module _ (fts : Bytes → Db → Result (MessageRow → Bool)) (like : Bytes → MessageRow → Bool) where
  found_rows-AreOf :
      (rid limit : ℕ) (db : Db) (r : Result (MessageRow → Bool)) (ms : List Message)
      → found_rows fts like rid limit db r ≡ ok ms
      → AreOf rid limit ms
  found_rows-AreOf rid limit db (err e) ms h = absurd (ground (arith, h))
  found_rows-AreOf rid limit db (ok hit) ms h = subst (AreOf rid limit) (ground (arith, h)) (
    recent-All (IsInRoom rid) (λ m. hit m && in_room rid m) limit db
        (λ row k u. in_room-IsInRoom rid row (ground (arith, k)) u),
    length-recent (λ m. hit m && in_room rid m) limit db,
  )

  first_or_like-AreOf :
      (rid limit : ℕ) (q : Bytes) (first : Result (List Message)) (c c' : Conn) (ms : List Message)
      → ((found : List Message) → first ≡ ok found → AreOf rid limit found)
      → first_or_like fts like first rid q limit c ≡ (ok ms, c')
      → AreOf rid limit ms
  unfolding pure
  first_or_like-AreOf rid limit q (ok found) c c' ms h k =
      subst (AreOf rid limit) (ground (arith, k)) (h found refl)
  first_or_like-AreOf rid limit q (err e) c c' ms h k =
      subst (AreOf rid limit) (ground (arith, (query-ok _ c c' ms k).0)) (
        recent-All (IsInRoom rid) (λ m. in_room rid m && like q m) limit c.db
            (λ row t u. in_room-IsInRoom rid row (ground (arith, t)) u),
        length-recent (λ m. in_room rid m && like q m) limit c.db,
      )

  -- Whatever calls of the database fail on the way, whatever the full-text index finds, and whether or
  -- not the search falls back to LIKE: a search that a user gets an answer to is in a room that he is a
  -- member of, and each message that is found was sent to that room; there are at most `limit`.
  pub search_room_for_user-guard :
      (uid rid limit : ℕ) (q : Bytes) (c c' : Conn) (ms : List Message)
      → search_room_for_user fts like uid rid q limit c ≡ (ok ms, c')
      → (any_row (is_member_row rid uid) c.db.room_members ≡ true)
        × All (IsInRoom rid) ms
        × (length ms ≤ limit)
  unfolding search_room_for_user search_room
  search_room_for_user-guard uid rid limit q c c' ms h =
      let (a, c1, first, h1) = >>=-ok (require_member rid uid) _ c c' ms h in
      let (joined, same) = require_member-ok rid uid c c1 a first in
      let (found, c2, asked, h2) = >>=-ok (attempt (query _)) _ c1 c' ms h1 in
      let (all, bound) =
        first_or_like-AreOf rid limit q found c2 c' ms
          (λ rows e.
            found_rows-AreOf rid limit c1.db (fts q c1.db) rows
              (query-ok _ c1 c2 rows (attempt-ok _ c1 c2 found asked ∙ ap (λ r. (r, c2)) e)).0)
          h2 in
      (joined, all, bound)
