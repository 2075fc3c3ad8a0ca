-- ===== src/Store/History/Access.antt =====
-- Who sees a history, and of what.
use mathlib.Core.List.{filter_map, filter_map-cons-none, filter_map-cons-some}
use terminal_social.Common.{
  ℕ, ◌≢◌, ◌≡◌, ◌≤◌, refl, sym, subst, ◌∙◌, ◌⊎◌, Bool, true, List, [], ◌∷◌, Option, none, some, inl,
  inr, arith, ◌==◌, length, reverse, any_row, select, find_row, Option-cases, length-take,
  length-reverse,
}
use terminal_social.Common.Records.Order.{All, All-reverse, All-take, All-select, All-sort_by}
use terminal_social.Domain.{User, Message, room, dm, dm_key}
use terminal_social.Store.Schema.{Db, MessageRow, is_member_row}
use terminal_social.Store.Exec.{ok, Conn}
use terminal_social.Store.Exec.Inversion.{>>=-ok, pure-ok, query-then, reject-then}
use terminal_social.Store.Rooms.{require_member}
use terminal_social.Store.Rooms.Tables.{require_member-ok}
use terminal_social.Store.Messages.{message_of, with_author}
use terminal_social.Store.History.{
  newest_first, with_authors, in_room, in_dm, recent, room_history, room_history_for_user,
  dm_history, dm_history_for_user,
}

-- A message that is read is its row with the author's handle.
pub with_author-some :
    (db : Db) (row : MessageRow) (m : Message)
    → with_author db row ≡ some m
    → (u : User) × (m ≡ message_of row u.handle)
with_author-some db row m h = go (find_row (λ u. u.id == row.author_id) db.users) refl
  where
    go :
        (o : Option User)
        → find_row (λ u. u.id == row.author_id) db.users ≡ o
        → (u : User) × (m ≡ message_of row u.handle)
    go none e = absurd (ground (arith, e, h))
    go (some u) e = (u, ground (arith, e, h))

-- A property of the rows, seen as messages, is one of the messages.
with_authors-All :
    (P : Message → Type 0) (db : Db) (rows : List MessageRow)
    → All (λ row. (u : User) → P (message_of row u.handle)) rows
    → All P (with_authors db rows)
unfolding with_authors filter_map
with_authors-All P db [] h = tt
with_authors-All P db (row ∷ rows) h = elim (Option-cases (with_author db row)) [
  | inl e ↦
      subst (All P) (sym (filter_map-cons-none (with_author db) row rows e))
        (with_authors-All P db rows h.1)
  | inr (m, e) ↦ subst (All P) (sym (filter_map-cons-some (with_author db) row rows e)) (
    (let (u, same) = with_author-some db row m e in subst P (sym same) (h.0 u)),
    with_authors-All P db rows h.1,
  )
]

-- What a query of the recent messages returns passes its test.
pub recent-All :
    (P : Message → Type 0) (p : MessageRow → Bool) (limit : ℕ) (db : Db)
    → ((row : MessageRow) → p row ≡ true → (u : User) → P (message_of row u.handle))
    → All P (recent p limit db)
recent-All P p limit db h = All-take P limit _ (
    with_authors-All P db _ (All-sort_by _ _ (select p db.messages) (All-select _ p db.messages h)))

pub length-recent :
    (p : MessageRow → Bool) (limit : ℕ) (db : Db) → length (recent p limit db) ≤ limit
length-recent p limit db =
    omega (arith, length-take limit (with_authors db (newest_first (select p db.messages))))

length-reversed :
    (p : MessageRow → Bool) (limit : ℕ) (db : Db) → length (reverse (recent p limit db)) ≤ limit
length-reversed p limit db =
    omega (arith, length-reverse (recent p limit db), length-recent p limit db)

abbrev pub IsInRoom : ℕ → Message → Type 0
IsInRoom rid m = (m.kind ≡ room) × (m.room_id ≡ some rid)

pub in_room-IsInRoom :
    (rid : ℕ) (row : MessageRow)
    → in_room rid row ≡ true
    → (u : User) → IsInRoom rid (message_of row u.handle)
in_room-IsInRoom rid row h u = ground (arith, h)

pub room_history-rows :
    (rid limit : ℕ) (c c' : Conn) (ms : List Message)
    → room_history rid limit c ≡ (ok ms, c')
    → ms ≡ reverse (recent (in_room rid) limit c.db)
unfolding room_history
room_history-rows rid limit c c' ms h =
    let (out, c1, found, same, rest) = query-then _ _ c c' ms h in
    let (result, last) = pure-ok _ ms c1 c' rest in sym result ∙ ground (arith, found)

-- Whatever calls of the database fail on the way: a history that a user gets is of a room that he is a
-- member of, each message in it was sent to that room, and it has at most `limit` messages.
pub room_history_for_user-guard :
    (uid rid limit : ℕ) (c c' : Conn) (ms : List Message)
    → room_history_for_user uid rid limit c ≡ (ok ms, c')
    → (any_row (is_member_row rid uid) c.db.room_members ≡ true)
      × All (IsInRoom rid) ms
      × (length ms ≤ limit)
unfolding room_history_for_user
room_history_for_user-guard uid rid limit c c' ms h =
    let (a, c1, first, rest) = >>=-ok (require_member rid uid) _ c c' ms h in
    let (joined, same) = require_member-ok rid uid c c1 a first in
    let rows = room_history-rows rid limit c1 c' ms rest in
    (
      joined,
      subst (All (IsInRoom rid)) (sym rows) (
          All-reverse (IsInRoom rid) _
            (recent-All (IsInRoom rid) (in_room rid) limit c1.db (in_room-IsInRoom rid))),
      subst (λ xs. length xs ≤ limit) (sym rows) (length-reversed (in_room rid) limit c1.db),
    )

-- Both sides of a conversation are listed under one pair, in order.
pub dm_key_comm : (u1 u2 : ℕ) → dm_key u1 u2 ≡ dm_key u2 u1
unfolding dm_key
dm_key_comm u1 u2 = ground arith

-- The two sides of a conversation read the same history: the call with the users exchanged is the same
-- action.
pub dm_history_comm : (u1 u2 limit : ℕ) → dm_history u1 u2 limit ≡ dm_history u2 u1 limit
unfolding dm_history
dm_history_comm u1 u2 limit = rw (dm_key_comm u1 u2)

abbrev pub IsBetween : ℕ → ℕ → Message → Type 0
IsBetween u1 u2 m =
    (m.kind ≡ dm)
    × ((m.dm_peer_a ≡ some u1) × (m.dm_peer_b ≡ some u2)
        ⊎ (m.dm_peer_a ≡ some u2) × (m.dm_peer_b ≡ some u1))

in_dm-IsBetween :
    (u1 u2 : ℕ) (row : MessageRow)
    → in_dm (dm_key u1 u2).0 (dm_key u1 u2).1 row ≡ true
    → (u : User) → IsBetween u1 u2 (message_of row u.handle)
unfolding dm_key
in_dm-IsBetween u1 u2 row h u = ground (arith, h)

-- Whatever calls of the database fail on the way: the direct messages that a user gets lie between him
-- and the peer that he names, who is another user, and there are at most `limit`.
pub dm_history_for_user-guard :
    (uid peer limit : ℕ) (c c' : Conn) (ms : List Message)
    → dm_history_for_user uid peer limit c ≡ (ok ms, c')
    → (uid ≢ peer) × All (IsBetween uid peer) ms × (length ms ≤ limit)
unfolding dm_history_for_user dm_history
dm_history_for_user-guard uid peer limit c c' ms h =
    let (other, h1) = reject-then _ _ _ c c' ms h in
    let (out, c1, found, same, rest) = query-then _ _ c c' ms h1 in
    let (result, last) = pure-ok _ ms c1 c' rest in
    let p = in_dm (dm_key uid peer).0 (dm_key uid peer).1 in
    let rows : ms ≡ reverse (recent p limit c.db) = sym result ∙ ground (arith, found) in
    (
      ground (arith, other),
      subst (All (IsBetween uid peer)) (sym rows) (
          All-reverse (IsBetween uid peer) _
            (recent-All (IsBetween uid peer) p limit c.db (in_dm-IsBetween uid peer))),
      subst (λ xs. length xs ≤ limit) (sym rows) (length-reversed p limit c.db),
    )
