-- ===== src/Store/Exec/Inversion.antt =====
-- What a successful action went through: one inversion for each way to build an action.
use terminal_social.Common.{◌≡◌, refl, ap, Bool, true, false, Option, none, some, arith}
use terminal_social.Store.Schema.{Db}
use terminal_social.Store.Exec.{
  Error, Result, ok, err, Conn, quiet, Action, faulty, advance, settle, keeping, commit, pure, fail,
  statement, query, transaction, attempt, continue, ◌>>=◌, ◌>>◌, reject, or_no_rows,
}

module _ {ℓ} {A : Type ℓ} where
  -- The statement's effect is the whole effect.
  pub statement-ok :
      (f : Db → Result (A × Db)) (c c' : Conn) (a : A)
      → statement f c ≡ (ok a, c')
      → (faulty c ≡ false) × (f c.db ≡ ok (a, c'.db))
  unfolding statement
  statement-ok f c c' a e = go (faulty c) (f c.db) refl refl
    where
      go :
          (b : Bool) (r : Result (A × Db))
          → faulty c ≡ b
          → f c.db ≡ r
          → (faulty c ≡ false) × (f c.db ≡ ok (a, c'.db))
      go true r h k = absurd (ground (arith, h, e))
      go false (err x) h k = absurd (ground (arith, h, k, e))
      go false (ok (x, db)) h k = ground (arith, h, k, e)

  keeping-ok :
      (db db' : Db) (r : Result A) {a : A} → keeping db r ≡ ok (a, db') → (r ≡ ok a) × (db' ≡ db)
  keeping-ok db db' (ok x) e = ground (arith, e)
  keeping-ok db db' (err x) e = absurd (ground (arith, e))

  -- A query leaves the tables as they are.
  pub query-ok :
      (f : Db → Result A) (c c' : Conn) (a : A)
      → query f c ≡ (ok a, c')
      → (f c.db ≡ ok a) × (c'.db ≡ c.db)
  unfolding query
  query-ok f c c' a e =
      keeping-ok c.db c'.db (f c.db) ((statement-ok (λ db. keeping db (f db)) c c' a e).1)

  commit-ok :
      (old : Db) (r : Result A × Conn) (c' : Conn) (a : A)
      → commit old r ≡ (ok a, c')
      → (c1 : Conn) × (r ≡ (ok a, c1)) × (c'.db ≡ c1.db)
  commit-ok old (err x, c1) c' a e = absurd (ground (arith, e))
  commit-ok old (ok x, c1) c' a e = go (faulty c1) refl
    where
      go :
          (b : Bool)
          → faulty c1 ≡ b
          → (c2 : Conn) × (◌≡◌ {A = Result A × Conn} (ok x, c1) (ok a, c2)) × (c'.db ≡ c2.db)
      go true h = absurd (ground (arith, h, e))
      go false h = (c1, ground (arith, h, e), ground (arith, h, e))

  -- The tables after a commit are those that the body left.
  pub transaction-ok :
      (m : Action A) (c c' : Conn) (a : A)
      → transaction m c ≡ (ok a, c')
      → (c1 : Conn) × (m (advance c) ≡ (ok a, c1)) × (c'.db ≡ c1.db)
  unfolding transaction
  transaction-ok m c c' a e = go (faulty c) refl
    where
      go : (b : Bool) → faulty c ≡ b → (c1 : Conn) × (m (advance c) ≡ (ok a, c1)) × (c'.db ≡ c1.db)
      go true h = absurd (ground (arith, h, e))
      go false h = commit-ok c.db (m (advance c)) c' a (rw h at e)

  pub pure-ok : (x a : A) (c c' : Conn) → pure x c ≡ (ok a, c') → (x ≡ a) × (c' ≡ c)
  unfolding pure
  pure-ok x a c c' e = ground (arith, e)

  pub fail-ok : (x : Error) (a : A) (c c' : Conn) → fail x c ≡ (ok a, c') → ⊥
  unfolding fail
  fail-ok x a c c' e = ground (arith, e)

-- Code behind a rejection runs only where the test failed, on the same connection.
pub reject-ok :
    (b : Bool) (x : Error) (a : Unit {0}) (c c' : Conn)
    → reject b x c ≡ (ok a, c')
    → (b ≡ false) × (c' ≡ c)
unfolding pure fail
reject-ok true x a c c' h = absurd (ground (arith, h))
reject-ok false x a c c' h = ground (arith, h)

module _ {ℓ κ} {A : Type ℓ} {B : Type κ} where
  pub >>=-ok :
      (m : Action A) (f : A → Action B) (c c' : Conn) (b : B)
      → (m >>= f) c ≡ (ok b, c')
      → (a : A) × (c1 : Conn) × (m c ≡ (ok a, c1)) × (f a c1 ≡ (ok b, c'))
  unfolding ◌>>=◌
  >>=-ok m f c c' b e = go (m c) refl
    where
      go :
          (r : Result A × Conn)
          → m c ≡ r
          → (a : A) × (c1 : Conn) × (m c ≡ (ok a, c1)) × (f a c1 ≡ (ok b, c'))
      go (ok a, c1) h = (a, c1, h, ground (arith, h, e))
      go (err x, c1) h = absurd (ground (arith, h, e))

module _ {ℓ} {B : Type ℓ} where
  pub reject-then :
      (t : Bool) (x : Error) (k : Action B) (c c' : Conn) (b : B)
      → (reject t x >> k) c ≡ (ok b, c')
      → (t ≡ false) × (k c ≡ (ok b, c'))
  unfolding pure fail ◌>>=◌
  reject-then true x k c c' b h = absurd (ground (arith, h))
  reject-then false x k c c' b h = (refl, h)

module _ {ℓ κ} {A : Type ℓ} {B : Type κ} where
  -- What runs behind a query starts from the same tables.
  pub query-then :
      (f : Db → Result A) (k : A → Action B) (c c' : Conn) (b : B)
      → (query f >>= k) c ≡ (ok b, c')
      → (a : A) × (c1 : Conn) × (f c.db ≡ ok a) × (c1.db ≡ c.db) × (k a c1 ≡ (ok b, c'))
  query-then f k c c' b h =
      let (a, c1, first, rest) = >>=-ok (query f) k c c' b h in
      let (value, same) = query-ok f c c1 a first in (a, c1, value, same, rest)

  -- Behind an action whose result is known.
  pub >>=-step :
      (m : Action A) (f : A → Action B) (c c1 : Conn) (a : A)
      → m c ≡ (ok a, c1)
      → (m >>= f) c ≡ f a c1
  unfolding ◌>>=◌
  >>=-step m f c c1 a h = ap (λ (r : Result A × Conn). continue r.0 f r.1) h

  pub >>=-stop :
      (m : Action A) (f : A → Action B) (c c1 : Conn) (x : Error)
      → m c ≡ (err x, c1)
      → (m >>= f) c ≡ (err x, c1)
  unfolding ◌>>=◌
  >>=-stop m f c c1 x h = ap (λ (r : Result A × Conn). continue r.0 f r.1) h

module _ {ℓ} {A : Type ℓ} where
  -- On a driver that does not fail, a transaction whose body succeeds is its body.
  pub transaction-quiet :
      (m : Action A) (db db' : Db) (a : A)
      → m (quiet db) ≡ (ok a, quiet db')
      → transaction m (quiet db) ≡ (ok a, quiet db')
  unfolding transaction
  transaction-quiet m db db' a h = ap (commit db) h

  pub statement-quiet :
      (f : Db → Result (A × Db)) (db db' : Db) (a : A)
      → f db ≡ ok (a, db')
      → statement f (quiet db) ≡ (ok a, quiet db')
  unfolding statement
  statement-quiet f db db' a h = ap (λ r. settle r (quiet db)) h

  pub query-quiet :
      (f : Db → Result A) (db : Db) (a : A) → f db ≡ ok a → query f (quiet db) ≡ (ok a, quiet db)
  unfolding query statement
  query-quiet f db a h = ap (λ r. settle (keeping db r) (quiet db)) h

module _ {ℓ} {B : Type ℓ} where
  -- A test that fails rejects nothing.
  pub reject-pass :
      (t : Bool) (x : Error) (k : Action B) (c : Conn) → t ≡ false → (reject t x >> k) c ≡ k c
  unfolding pure fail ◌>>=◌
  reject-pass true x k c h = absurd (ground (arith, h))
  reject-pass false x k c h = refl

  pub reject-stop :
      (t : Bool) (x : Error) (k : Action B) (c : Conn) → t ≡ true → (reject t x >> k) c ≡ (err x, c)
  unfolding pure fail ◌>>=◌
  reject-stop true x k c h = refl
  reject-stop false x k c h = absurd (ground (arith, h))

module _ {ℓ} {A : Type ℓ} where
  pub attempt-ok :
      (m : Action A) (c c' : Conn) (r : Result A) → attempt m c ≡ (ok r, c') → m c ≡ (r, c')
  unfolding attempt
  attempt-ok m c c' r h = ground (arith, h)

  -- A row that a query found was there.
  pub or_no_rows-ok : (o : Option A) (a : A) → or_no_rows o ≡ ok a → o ≡ some a
  or_no_rows-ok none a h = absurd (ground (arith, h))
  or_no_rows-ok (some x) a h = ground (arith, h)
