-- ===== src/Store/Exec/Atomic.antt =====
-- Which actions leave the tables alone, always or when they fail.
use terminal_social.Common.{
  ◌≡◌, refl, ◌∙◌, ◌≢◌, Bool, true, false, Option, none, some, arith, if◌then◌else◌,
}
use terminal_social.Store.Schema.{Db}
use terminal_social.Store.Exec.{
  Error, db_error, no_rows, or_no_rows, Result, ok, err, Conn, Action, faulty, advance, settle,
  keeping, commit, pure, fail, statement, query, transaction, attempt, continue, ◌>>=◌, reject,
}

-- The action changes no table, whatever it returns.
pub record ReadOnly {ℓ} {A : Type ℓ} (m : Action A) : Type ℓ where
  pub at : (c : Conn) → (m c).1.db ≡ c.db

-- If the action fails with such an error, no table has changed.
pub record RestoresOn {ℓ} {A : Type ℓ} (P : Error → Type 0) (m : Action A) : Type ℓ where
  pub at : (c : Conn) (e : Error) → (m c).0 ≡ err e → P e → (m c).1.db ≡ c.db

abbrev pub AnyError : Error → Type 0
AnyError e = Unit

-- If the action fails, no table has changed.
abbrev pub Restores {ℓ} : {A : Type ℓ} → Action A → Type ℓ
Restores m = RestoresOn AnyError m

-- The action never fails with such an error.
pub record Avoids {ℓ} {A : Type ℓ} (P : Error → Type 0) (m : Action A) : Type ℓ where
  pub at : (c : Conn) (e : Error) → (m c).0 ≡ err e → P e → ⊥

module _ {ℓ} {A : Type ℓ} where
  pub ReadOnly-pure : (a : A) → ReadOnly (pure a)
  unfolding pure
  ReadOnly-pure a = record { at = λ c. refl }

  pub ReadOnly-fail : (e : Error) → ReadOnly (fail {A = A} e)
  unfolding fail
  ReadOnly-fail e = record { at = λ c. refl }

  settle-keeping : (c : Conn) (r : Result A) → (settle (keeping c.db r) c).1.db ≡ c.db
  settle-keeping c (ok a) = refl
  settle-keeping c (err e) = refl

  pub ReadOnly-query : (f : Db → Result A) → ReadOnly (query f)
  unfolding query statement
  ReadOnly-query f = record { at = λ c. ground (arith, settle-keeping (advance c) (f c.db)) }

  pub ReadOnly-attempt : (m : Action A) → ReadOnly m → ReadOnly (attempt m)
  unfolding attempt
  ReadOnly-attempt m h = record { at = λ c. h.at c }

  pub Restores-ReadOnly : (P : Error → Type 0) (m : Action A) → ReadOnly m → RestoresOn P m
  Restores-ReadOnly P m h = record { at = λ c e _ _. h.at c }

  settle-err :
      (c : Conn) (r : Result (A × Db)) (e : Error)
      → (settle r c).0 ≡ err e
      → (settle r c).1.db ≡ c.db
  settle-err c (ok (a, db)) e h = absurd (ground (arith, h))
  settle-err c (err x) e h = refl

  pub Restores-statement :
      (P : Error → Type 0) (f : Db → Result (A × Db)) → RestoresOn P (statement f)
  unfolding statement
  Restores-statement P f = record {
    at = λ c e h _. ground (arith, settle-err (advance c) (f c.db) e, h);
  }

  commit-err :
      (old : Db) (r : Result A × Conn) (e : Error)
      → (commit old r).0 ≡ err e
      → (commit old r).1.db ≡ old
  commit-err old (ok a, c) e h = ground (arith, h)
  commit-err old (err x, c) e h = refl

  -- A transaction that fails, in its body or at its commit, has been rolled back.
  pub Restores-transaction : (P : Error → Type 0) (m : Action A) → RestoresOn P (transaction m)
  unfolding transaction
  Restores-transaction P m = record {
    at = λ c e h _. ground (arith, commit-err c.db (m (advance c)) e, h);
  }

pub ReadOnly-reject : (b : Bool) (e : Error) → ReadOnly (reject b e)
ReadOnly-reject true e = ReadOnly-fail e
ReadOnly-reject false e = ReadOnly-pure tt

module _ {ℓ κ} {A : Type ℓ} {B : Type κ} where
  continue-ReadOnly :
      (r : Result A × Conn) (f : A → Action B)
      → ((a : A) → ReadOnly (f a))
      → (continue r.0 f r.1).1.db ≡ r.1.db
  continue-ReadOnly (ok a, c) f h = (h a).at c
  continue-ReadOnly (err e, c) f h = refl

  pub ReadOnly-bind :
      (m : Action A) (f : A → Action B)
      → ReadOnly m
      → ((a : A) → ReadOnly (f a))
      → ReadOnly (m >>= f)
  unfolding ◌>>=◌
  ReadOnly-bind m f hm hf = record { at = λ c. continue-ReadOnly (m c) f hf ∙ hm.at c }

  continue-Restores :
      (P : Error → Type 0) (r : Result A × Conn) (f : A → Action B) (e : Error)
      → ((a : A) → RestoresOn P (f a))
      → P e
      → (continue r.0 f r.1).0 ≡ err e
      → (continue r.0 f r.1).1.db ≡ r.1.db
  continue-Restores P (ok a, c) f e hf p h = (hf a).at c e h p
  continue-Restores P (err x, c) f e hf p h = refl

  -- What only reads may stand before what undoes its own changes.
  pub Restores-bind :
      (P : Error → Type 0) (m : Action A) (f : A → Action B)
      → ReadOnly m
      → ((a : A) → RestoresOn P (f a))
      → RestoresOn P (m >>= f)
  unfolding ◌>>=◌
  Restores-bind P m f hm hf = record {
    at = λ c e h p. continue-Restores P (m c) f e hf p h ∙ hm.at c;
  }

  continue-Avoids-then :
      (P : Error → Type 0) (old : Db) (r : Result A × Conn) (f : A → Action B) (e : Error)
      → (r.0 ≡ err e → r.1.db ≡ old)
      → ((a : A) → Avoids P (f a))
      → P e
      → (continue r.0 f r.1).0 ≡ err e
      → (continue r.0 f r.1).1.db ≡ old
  continue-Avoids-then P old (ok a, c) f e back hf p h = absurd ((hf a).at c e h p)
  continue-Avoids-then P old (err x, c) f e back hf p h = back (ground (arith, h))

  -- Behind what undoes its own changes only other errors may come.
  pub Restores-then :
      (P : Error → Type 0) (m : Action A) (f : A → Action B)
      → RestoresOn P m
      → ((a : A) → Avoids P (f a))
      → RestoresOn P (m >>= f)
  unfolding ◌>>=◌
  Restores-then P m f hm hf = record {
    at = λ c e h p. continue-Avoids-then P c.db (m c) f e (λ k. hm.at c e k p) hf p h;
  }

  continue-Avoids :
      (P : Error → Type 0) (r : Result A × Conn) (f : A → Action B) (e : Error)
      → (r.0 ≡ err e → ⊥)
      → ((a : A) → Avoids P (f a))
      → P e
      → (continue r.0 f r.1).0 ≡ err e
      → ⊥
  continue-Avoids P (ok a, c) f e first hf p h = (hf a).at c e h p
  continue-Avoids P (err x, c) f e first hf p h = first (ground (arith, h))

  pub Avoids-bind :
      (P : Error → Type 0) (m : Action A) (f : A → Action B)
      → Avoids P m
      → ((a : A) → Avoids P (f a))
      → Avoids P (m >>= f)
  unfolding ◌>>=◌
  Avoids-bind P m f hm hf = record {
    at = λ c e h p. continue-Avoids P (m c) f e (λ k. hm.at c e k p) hf p h;
  }

-- The errors that the code itself makes: neither the driver's nor `sql.ErrNoRows`.
abbrev pub IsRefusal : Error → Type 0
IsRefusal e = (e ≢ db_error) × (e ≢ no_rows)

module _ {ℓ} {A : Type ℓ} where
  settle-or_no_rows :
      (db : Db) (o : Option A) (c : Conn) (e : Error)
      → (settle (keeping db (or_no_rows o)) c).0 ≡ err e
      → e ≡ no_rows
  settle-or_no_rows db none c e h = ground (arith, h)
  settle-or_no_rows db (some a) c e h = absurd (ground (arith, h))

  -- Reading one row fails by the driver or for lack of the row.
  pub Avoids-query : (f : Db → Option A) → Avoids IsRefusal (query (λ db. or_no_rows (f db)))
  unfolding query statement
  Avoids-query f = record { at = λ c e h p. go c e (faulty c) h p }
    where
      go :
          (c : Conn) (e : Error) (b : Bool)
          → (if b
              then (err db_error, advance c)
              else settle (keeping c.db (or_no_rows (f c.db))) (advance c)).0
            ≡ err e
          → IsRefusal e
          → ⊥
      go c e true h p = p.0 (ground (arith, h))
      go c e false h p = p.1 (settle-or_no_rows c.db (f c.db) (advance c) e h)

  pub Avoids-pure : (P : Error → Type 0) (a : A) → Avoids P (pure a)
  unfolding pure
  Avoids-pure P a = record { at = λ c e h p. ground (arith, h) }

pub ruleset atomic_rules = (
  ReadOnly-pure, ReadOnly-fail, ReadOnly-query, ReadOnly-attempt, ReadOnly-reject, ReadOnly-bind,
  Restores-ReadOnly, Restores-statement, Restores-transaction, Restores-bind,
)
