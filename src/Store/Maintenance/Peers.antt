-- ===== src/Store/Maintenance/Peers.antt =====
-- Whom `DMPeers` lists.
use terminal_social.Common.{
  ℕ, ◌≡◌, ◌⊎◌, refl, ap, ◌∙◌, Bool, true, false, not, ◌&&◌, ◌||◌, List, [], ◌∷◌, ◌++◌, map, Option,
  none, some, inl, inr, arith, ◌==◌, leb, any_row, delete_rows, sort_by, insert_by,
}
use terminal_social.Common.Sets.{mem, is_distinct}
use terminal_social.Domain.{MessageKind, room, dm}
use terminal_social.Store.Schema.{Db, MessageRow, holds}
use terminal_social.Store.Exec.{ok, quiet}
use terminal_social.Store.Exec.Inversion.{query-quiet}
use terminal_social.Store.Maintenance.{sides, peer_row, peer_rows, first_of_each, dm_peers}

abbrev fsts : List (ℕ × ℕ) → List ℕ
fsts rows = map (λ (r : ℕ × ℕ). r.0) rows

abbrev has_peer : ℕ → List (ℕ × ℕ) → Bool
has_peer p rows = any_row (λ (r : ℕ × ℕ). r.0 == p) rows

mem-fsts : (p : ℕ) (rows : List (ℕ × ℕ)) → mem p (fsts rows) ≡ has_peer p rows
unfolding mem
mem-fsts p [] = refl
mem-fsts p (r ∷ rows) = ground (arith, mem-fsts p rows)

has_peer-delete_rows :
    (p q : ℕ) (rows : List (ℕ × ℕ))
    → has_peer p (delete_rows (λ (r : ℕ × ℕ). r.0 == q) rows) ≡ (has_peer p rows && not (p == q))
has_peer-delete_rows p q [] = refl
has_peer-delete_rows p q (r ∷ rows) = ground (arith, has_peer-delete_rows p q rows)

is_distinct-delete_rows :
    (q : ℕ) (rows : List (ℕ × ℕ))
    → is_distinct (fsts rows) ≡ true
    → is_distinct (fsts (delete_rows (λ (r : ℕ × ℕ). r.0 == q) rows)) ≡ true
unfolding is_distinct
is_distinct-delete_rows q [] h = refl
is_distinct-delete_rows q (r ∷ rows) h = ground (
  arith,
  h,
  is_distinct-delete_rows q rows,
  mem-fsts r.0 rows,
  mem-fsts r.0 (delete_rows (λ (x : ℕ × ℕ). x.0 == q) rows),
  has_peer-delete_rows r.0 q rows,
)

first_of_each-is_distinct : (rows : List (ℕ × ℕ)) → is_distinct (fsts (first_of_each rows)) ≡ true
unfolding first_of_each is_distinct
first_of_each-is_distinct [] = refl
first_of_each-is_distinct ((p, i) ∷ rows) = ground (
  arith,
  is_distinct-delete_rows p (first_of_each rows) (first_of_each-is_distinct rows),
  mem-fsts p (delete_rows (λ (x : ℕ × ℕ). x.0 == p) (first_of_each rows)),
  has_peer-delete_rows p p (first_of_each rows),
)

has_peer-first_of_each :
    (p : ℕ) (rows : List (ℕ × ℕ)) → has_peer p (first_of_each rows) ≡ has_peer p rows
unfolding first_of_each
has_peer-first_of_each p [] = refl
has_peer-first_of_each p ((q, i) ∷ rows) =
    ground (arith, has_peer-first_of_each p rows, has_peer-delete_rows p q (first_of_each rows))

has_peer-insert_by :
    (p : ℕ) (le : ℕ × ℕ → ℕ × ℕ → Bool) (x : ℕ × ℕ) (rows : List (ℕ × ℕ))
    → has_peer p (insert_by le x rows) ≡ (x.0 == p || has_peer p rows)
has_peer-insert_by p le x [] = refl
has_peer-insert_by p le x (r ∷ rows) = ground (arith, has_peer-insert_by p le x rows)

has_peer-sort_by :
    (p : ℕ) (le : ℕ × ℕ → ℕ × ℕ → Bool) (rows : List (ℕ × ℕ))
    → has_peer p (sort_by le rows) ≡ has_peer p rows
has_peer-sort_by p le [] = refl
has_peer-sort_by p le (r ∷ rows) =
    has_peer-insert_by p le r (sort_by le rows)
    ∙ ap (λ b. r.0 == p || b) (has_peer-sort_by p le rows)

-- A direct message between the two users.
abbrev pub is_between : ℕ → ℕ → MessageRow → Bool
is_between uid p m =
    (elim m.kind [ room ↦ false | dm ↦ true ])
    && (holds m.dm_peer_a uid && holds m.dm_peer_b p
        || holds m.dm_peer_a p && holds m.dm_peer_b uid)

has_peer-append :
    (p : ℕ) (xs ys : List (ℕ × ℕ)) → has_peer p (xs ++ ys) ≡ (has_peer p xs || has_peer p ys)
has_peer-append p [] ys = refl
has_peer-append p (x ∷ xs) ys = ground (arith, has_peer-append p xs ys)

sides-between :
    (uid p mid : ℕ) (o q : Option ℕ)
    → has_peer p (sides uid mid o q) ≡ (holds o uid && holds q p || holds o p && holds q uid)
sides-between uid p mid none q = refl
sides-between uid p mid (some a) none = ground arith
sides-between uid p mid (some a) (some b) = ground arith

MessageKind-cases : (k : MessageKind) → (k ≡ room) ⊎ (k ≡ dm)
MessageKind-cases room = inl refl
MessageKind-cases dm = inr refl

peer_row-is_between :
    (uid p : ℕ) (m : MessageRow) → has_peer p (peer_row uid m) ≡ is_between uid p m
peer_row-is_between uid p m = elim (MessageKind-cases m.kind) [
  | inl e ↦ ground (arith, e)
  | inr e ↦ rw e (sides-between uid p m.id m.dm_peer_a m.dm_peer_b)
]

peer_rows-is_between :
    (uid p : ℕ) (ms : List MessageRow)
    → has_peer p (peer_rows uid ms) ≡ any_row (is_between uid p) ms
unfolding peer_rows
peer_rows-is_between uid p [] = refl
peer_rows-is_between uid p (m ∷ ms) =
    has_peer-append p (peer_row uid m) (peer_rows uid ms)
    ∙ ap (λ b. b || has_peer p (peer_rows uid ms)) (peer_row-is_between uid p m)
    ∙ ap (λ b. is_between uid p m || b) (peer_rows-is_between uid p ms)

-- On a driver that does not fail, the peers of a user are listed once each, and they are the users with
-- whom he shares a direct message.
pub dm_peers_lem :
    (uid : ℕ) (db : Db)
    → (peers : List ℕ) × (dm_peers uid (quiet db) ≡ (ok peers, quiet db))
      × (is_distinct peers ≡ true)
      × ((p : ℕ) → mem p peers ≡ any_row (is_between uid p) db.messages)
unfolding dm_peers
dm_peers_lem uid db = (
  fsts (first_of_each sorted),
  query-quiet _ db _ refl,
  first_of_each-is_distinct sorted,
  λ p.
      mem-fsts p (first_of_each sorted)
      ∙ has_peer-first_of_each p sorted
      ∙ has_peer-sort_by p _ (peer_rows uid db.messages)
      ∙ peer_rows-is_between uid p db.messages,
)
  where
    sorted : List (ℕ × ℕ)
    sorted = sort_by (λ a b. leb b.1 a.1) (peer_rows uid db.messages)
