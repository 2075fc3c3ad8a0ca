-- ===== src/Store/Exec.antt =====
-- Methods of `Store`: actions over a connection that return a value or an error. The driver may fail
-- any statement: `faults` says of each coming call of the database (a query, an exec, a begin or a
-- commit) whether it fails, and what lies behind its end succeeds. A failed statement changes nothing.

pub mod Inversion
pub mod Atomic
use terminal_social.Common.{ℕ, Bool, true, false, List, [], ◌∷◌, Option, none, some, if◌then◌else◌}
use terminal_social.Store.Schema.{Db}

-- `db_error` is what the driver returns, `constraint` a violated UNIQUE or foreign key, `no_rows` is
-- `sql.ErrNoRows`; the others are the errors that store.go makes.
pub data Error : Type 0 where
  db_error constraint no_rows : Error
  user_not_found banned_from_room not_member invalid_role : Error
  empty_message dm_to_self recipient_not_found dm_blocked : Error
  invalid_room_message invalid_dm not_allowed invalid_target_kind : Error

pub data Result {ℓ} (A : Type ℓ) : Type ℓ where
  ok : A → Result A
  err : Error → Result A

pub record Conn : Type 0 where
  pub db : Db
  pub faults : List Bool

abbrev pub Action {ℓ} : Type ℓ → Type ℓ
Action A = Conn → Result A × Conn

-- A connection whose driver never fails.
abbrev pub quiet : Db → Conn
quiet db = record { db = db; faults = [] }

-- Does the next call of the database fail?
abbrev pub faulty : Conn → Bool
faulty c = elim c.faults [ [] ↦ false | f ∷ rest ↦ f ]

abbrev pub advance : Conn → Conn
advance c = record c { faults = elim c.faults [ [] ↦ [] | f ∷ rest ↦ rest ] }

module _ {ℓ} {A : Type ℓ} where
  unfoldable pub pure : A → Action A
  pure a c = (ok a, c)

  unfoldable pub fail : Error → Action A
  fail e c = (err e, c)

  abbrev pub settle : Result (A × Db) → Conn → Result A × Conn
  settle (ok (a, db)) c = (ok a, record c { db = db })
  settle (err e) c = (err e, c)

  -- One statement.
  unfoldable pub statement : (Db → Result (A × Db)) → Action A
  statement f c = if faulty c then (err db_error, advance c) else settle (f c.db) (advance c)

  abbrev pub keeping : Db → Result A → Result (A × Db)
  keeping db (ok a) = ok (a, db)
  keeping db (err e) = err e

  -- A statement that only reads.
  unfoldable pub query : (Db → Result A) → Action A
  unfolding statement
  query f = statement (λ db. keeping db (f db))

  abbrev pub commit : Db → Result A × Conn → Result A × Conn
  commit old (ok a, c) =
      if faulty c then (err db_error, record (advance c) { db = old }) else (ok a, advance c)
  commit old (err e, c) = (err e, record c { db = old })

  -- `BeginTx`, the statements, `Commit`; the deferred `Rollback` undoes all of them on an early return
  -- and when the commit fails.
  unfoldable pub transaction : Action A → Action A
  transaction body c =
      if faulty c then (err db_error, advance c) else commit c.db (body (advance c))

  -- A call whose error the caller tests instead of returning it.
  unfoldable pub attempt : Action A → Action (Result A)
  attempt m c = let (r, c') = m c in (ok r, c')

module _ {ℓ κ} {A : Type ℓ} {B : Type κ} where
  abbrev pub continue : Result A → (A → Action B) → Action B
  continue (ok a) f c = f a c
  continue (err e) f c = (err e, c)

  infixl 10 ◌>>=◌
  unfoldable pub ◌>>=◌ : Action A → (A → Action B) → Action B
  unfolding pure fail query attempt
  ◌>>=◌ m f c = let (r, c') = m c in continue r f c'

module _ {ℓ} {B : Type ℓ} where
  infixl 10 ◌>>◌
  abbrev pub ◌>>◌ : Action (Unit {0}) → Action B → Action B
  m >> k = m >>= λ _. k

-- `if test { return err }`.
abbrev pub reject : Bool → Error → Action (Unit {0})
reject true e = fail e
reject false e = pure tt

-- A row that has to be there.
abbrev pub or_no_rows {ℓ} : {A : Type ℓ} → Option A → Result A
or_no_rows none = err no_rows
or_no_rows (some a) = ok a

-- A statement that changes the tables and returns nothing, and one that refuses.
abbrev pub done : Db → Result (Unit {0} × Db)
done db = ok (tt, db)
