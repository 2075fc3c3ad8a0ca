-- ===== src/Store/History/Order.antt =====
-- `RoomHistory` of internal/store/store.go: which messages, in which order.
use mathlib.Core.List.{filter_map, filter_map-cons-none, filter_map-cons-some, Perm}
use mathlib.Core.List.Perm
use terminal_social.Common.{
  ℕ, ◌≡◌, ◌≤◌, sym, subst, List, [], ◌∷◌, some, inl, inr, arith, take, reverse, select,
  Option-cases,
}
use terminal_social.Common.Records.Order.{
  AllBelow, IsDescending, IsDescending-sort_by, sort_by-perm,
}
use terminal_social.Domain.{Message}
use terminal_social.Store.Schema.{Db, MessageRow}
use terminal_social.Store.Exec.{ok, Conn}
use terminal_social.Store.Messages.{with_author}
use terminal_social.Store.History.{newest_first, with_authors, in_room, room_history}
use terminal_social.Store.History.Access.{with_author-some, room_history-rows}

abbrev pub message_id : Message → ℕ
message_id m = m.id

abbrev row_id : MessageRow → ℕ
row_id m = m.id

with_author-id :
    (db : Db) (row : MessageRow) (m : Message) → with_author db row ≡ some m → m.id ≡ row.id
with_author-id db row m h = let (u, same) = with_author-some db row m h in ground (arith, same)

with_authors-AllBelow :
    (db : Db) (n : ℕ) (rows : List MessageRow)
    → AllBelow row_id n rows
    → AllBelow message_id n (with_authors db rows)
unfolding with_authors filter_map
with_authors-AllBelow db n [] h = tt
with_authors-AllBelow db n (row ∷ rows) h = elim (Option-cases (with_author db row)) [
  | inl e ↦
      subst (AllBelow message_id n) (sym (filter_map-cons-none (with_author db) row rows e))
        (with_authors-AllBelow db n rows h.1)
  | inr (m, e) ↦
      subst (AllBelow message_id n) (sym (filter_map-cons-some (with_author db) row rows e)) (
        subst (λ k. k ≤ n) (sym (with_author-id db row m e)) h.0,
        with_authors-AllBelow db n rows h.1,
      )
]

with_authors-IsDescending :
    (db : Db) (rows : List MessageRow)
    → IsDescending row_id rows
    → IsDescending message_id (with_authors db rows)
unfolding with_authors filter_map
with_authors-IsDescending db [] h = tt
with_authors-IsDescending db (row ∷ rows) h = elim (Option-cases (with_author db row)) [
  | inl e ↦
      subst (IsDescending message_id) (sym (filter_map-cons-none (with_author db) row rows e))
        (with_authors-IsDescending db rows h.1)
  | inr (m, e) ↦
      subst (IsDescending message_id) (sym (filter_map-cons-some (with_author db) row rows e)) (
        subst (λ k. AllBelow message_id k (with_authors db rows)) (sym (with_author-id db row m e))
            (with_authors-AllBelow db row.id rows h.0),
        with_authors-IsDescending db rows h.1,
      )
]

-- Whatever calls of the database fail on the way: if all messages of the room are listed by falling
-- id, a list with the same messages, then the history is the first `limit` of that list, turned round:
-- the most recent messages, oldest first.
pub room_history-recent :
    (rid limit : ℕ) (c c' : Conn) (ms : List Message)
    → room_history rid limit c ≡ (ok ms, c')
    → (all : List Message) × IsDescending message_id all
      × Perm all (with_authors c.db (select (in_room rid) c.db.messages))
      × (ms ≡ reverse (take limit all))
room_history-recent rid limit c c' ms h = (
  with_authors c.db (newest_first (select (in_room rid) c.db.messages)),
  with_authors-IsDescending c.db _
      (IsDescending-sort_by row_id (select (in_room rid) c.db.messages)),
  with_authors-perm,
  room_history-rows rid limit c c' ms h,
)
  where
    with_authors-perm :
        Perm
          (with_authors c.db (newest_first (select (in_room rid) c.db.messages)))
          (with_authors c.db (select (in_room rid) c.db.messages))
    with_authors-perm =
        unfold with_authors in
        Perm.filter_map (with_author c.db) (sort_by-perm _ (select (in_room rid) c.db.messages))
