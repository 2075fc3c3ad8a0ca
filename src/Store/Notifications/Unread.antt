-- ===== src/Store/Notifications/Unread.antt =====
-- What `UnreadCounts` counts, and what reading a room does to it.
use terminal_social.Common.{
  find_row, ◌∙◌, ℕ, suc, ◌+◌, ◌≡◌, refl, ap, Bool, false, ◌&&◌, List, [], ◌∷◌, Option, none, some,
  inl, inr, arith, ◌==◌, length, select, update_rows, Bool-cases, Option-cases, if◌then◌else◌,
}
use terminal_social.Common.Sets.{at, at-put}
use terminal_social.Domain.{mention_kind, dm_kind, invite_kind}
use terminal_social.Store.Schema.{Db, NotificationRow, holds}
use terminal_social.Store.Exec.{ok, quiet, pure, attempt, ◌>>=◌, query, statement}
use terminal_social.Store.Exec.Inversion.{query-quiet, >>=-step}
use terminal_social.Store.Notifications.{
  is_unread, peer_of, query_peer, dm_message_id, count_dm, bump, bump_if, room_key, count_unread,
  unread_counts, read_row, mark_room_read,
}

-- An unread mention of the user in the room.
abbrev pub is_unread_mention : ℕ → ℕ → NotificationRow → Bool
is_unread_mention uid rid n =
    is_unread uid n
    && (elim n.kind [ mention_kind ↦ holds n.room_id rid | dm_kind ↦ false | invite_kind ↦ false ])

-- What `UnreadCounts` returns for the room.
abbrev pub unread_in : ℕ → ℕ → Db → ℕ
unread_in uid rid db = length (select (is_unread_mention uid rid) db.notifications)

at-bump_if :
    (k : ℕ) (o : Option ℕ) (counts : List (ℕ × ℕ))
    → at 0 k (bump_if o counts) ≡ (if holds o k then suc (at 0 k counts) else at 0 k counts)
at-bump_if k none counts = refl
at-bump_if k (some j) counts =
    ground
      (arith, at-put 0 k j (suc (at 0 j counts)) counts, λ (e : j ≡ k). ap (λ x. at 0 x counts) e)

count_dm-quiet :
    (uid : ℕ) (o : Option ℕ) (dms : List (ℕ × ℕ)) (db : Db)
    → (counted : List (ℕ × ℕ)) × (count_dm uid o dms (quiet db) ≡ (ok counted, quiet db))
unfolding count_dm query_peer attempt ◌>>=◌ pure query statement
count_dm-quiet uid none dms db = (dms, refl)
count_dm-quiet uid (some mid) dms db =
    elim (Option-cases (peer_of uid (find_row (λ m. m.id == mid) db.messages))) [
      | inl e ↦ (dms, ground (arith, e))
      | inr (p, e) ↦ (bump p dms, ground (arith, e))
    ]

count_unread-rooms :
    (uid : ℕ) (db : Db) (ns : List NotificationRow) (rooms dms : List (ℕ × ℕ))
    → (counted counted' : List (ℕ × ℕ)) × (count_unread uid
          (select (is_unread uid) ns)
          rooms
          dms
          (quiet db)
        ≡ (ok (counted, counted'), quiet db))
      × ((rid : ℕ)
          → at 0 rid counted ≡ at 0 rid rooms + length (select (is_unread_mention uid rid) ns))
unfolding count_unread pure
count_unread-rooms uid db [] rooms dms = (rooms, dms, refl, λ rid. ground arith)
count_unread-rooms uid db (n ∷ ns) rooms dms = elim (Bool-cases (is_unread uid n)) [
  | inl e ↦
      let (dms1, went) = count_dm-quiet uid (dm_message_id n) dms db in
      let (counted, counted', run, counts) =
        count_unread-rooms uid db ns (bump_if (room_key n) rooms) dms1 in
      (
        counted,
        counted',
        rw e
            (>>=-step (count_dm uid (dm_message_id n) dms) _ (quiet db) (quiet db) dms1 went ∙ run),
        λ rid. ground (arith, e, counts rid, at-bump_if rid (room_key n) rooms),
      )
  | inr e ↦
      let (counted, counted', run, counts) = count_unread-rooms uid db ns rooms dms in
      (counted, counted', rw e run, λ rid. ground (arith, e, counts rid))
]

-- On a driver that does not fail, the count of each room is the number of the user's unread mentions
-- in it, and the tables stay as they are.
pub unread_counts-rooms :
    (uid : ℕ) (db : Db)
    → (rooms dms : List (ℕ × ℕ)) × (unread_counts uid (quiet db) ≡ (ok (rooms, dms), quiet db))
      × ((rid : ℕ) → at 0 rid rooms ≡ unread_in uid rid db)
unfolding unread_counts at
unread_counts-rooms uid db =
    let (rooms, dms, run, counts) = count_unread-rooms uid db db.notifications [] [] in
    (
      rooms,
      dms,
      >>=-step (query (λ d. ok (select (is_unread uid) d.notifications))) _ (quiet db) (quiet db) _
            (query-quiet _ db _ refl)
          ∙ run,
      λ rid. ground (arith, counts rid),
    )

unread-update_rows :
    (now uid rid r : ℕ) (ns : List NotificationRow)
    → length (
        select
          (is_unread_mention uid r)
          (update_rows (λ n. is_unread uid n && holds n.room_id rid) (read_row now) ns))
      ≡ (if r == rid then 0 else length (select (is_unread_mention uid r) ns))
unread-update_rows now uid rid r [] = ground arith
unread-update_rows now uid rid r (n ∷ ns) = elim (Option-cases n.room_id) [
  | inl e ↦ ground (arith, e, unread-update_rows now uid rid r ns)
  | inr (k, e) ↦ ground (arith, e, unread-update_rows now uid rid r ns)
]

-- On a driver that does not fail, marking a room as read succeeds, leaves the user no unread mention in
-- it, and changes the number of his unread mentions in no other room.
pub mark_room_read-unread :
    (now uid rid : ℕ) (db : Db)
    → (db' : Db) × (mark_room_read now uid rid (quiet db) ≡ (ok tt, quiet db'))
      × (unread_in uid rid db' ≡ 0)
      × ((r : ℕ) → (r == rid) ≡ false → unread_in uid r db' ≡ unread_in uid r db)
unfolding mark_room_read statement
mark_room_read-unread now uid rid db = (
  _,
  refl,
  ground (arith, unread-update_rows now uid rid rid db.notifications),
  λ r e. ground (arith, e, unread-update_rows now uid rid r db.notifications),
)
