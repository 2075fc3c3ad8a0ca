-- ===== src/Rate/Eviction.antt =====
-- Buckets that are thrown away are not missed.
use terminal_social.Common.{
  ℕ, ◌+◌, ◌*◌, ◌≤◌, ◌<◌, ◌≡◌, Bool, true, List, [], ◌∷◌, Option, none, some, ◌⊎◌,
}
use terminal_social.Text.{Bytes}
use terminal_social.Rate.{
  Bucket, Float, new_bucket, refilled, allow, Limiter, put_bucket, found_or_new, Call,
}

-- What float64 does with the tokens of a bucket of `size` tokens in `per` nanoseconds, where `per` is
-- above 0 and twice `per` is a Duration: the numbers that can be a count of tokens, among those that are
-- not NaN and not negative, stay among them when a bucket is filled and when a token is taken; a
-- bucket that has been left alone for more than twice `per` is full whatever it held, since the rounding
-- of what comes in is far less than `size`; and one that is full stays so.
pub record Laws (fl : Float) (size per : ℕ) : Type 1 where
  pub IsCount : fl.F → Type 0
  pub new_count : IsCount (fl.float size)
  pub paid_count :
      (x : fl.F) → IsCount x → fl.leq (fl.float 1) x ≡ true → IsCount (fl.sub x (fl.float 1))
  pub filled_count :
      (now : ℕ) (b : Bucket fl.F)
      → b.cap ≡ fl.float size
      → b.refill ≡ fl.div (fl.float size) (fl.seconds per)
      → IsCount b.tokens
      → IsCount (refilled fl now b)
  pub rested :
      (now : ℕ) (b : Bucket fl.F)
      → b.cap ≡ fl.float size
      → b.refill ≡ fl.div (fl.float size) (fl.seconds per)
      → IsCount b.tokens
      → b.last + 2 * per < now
      → refilled fl now b ≡ fl.float size
  pub full : (now made : ℕ) → refilled fl now (new_bucket fl size per made) ≡ fl.float size

module _ {F : Type 0} (step : Call → Limiter F → Bool × Limiter F) where
  pub answers : List Call → Limiter F → List Bool
  answers [] l = []
  answers (c ∷ cs) l = (step c l).0 ∷ answers cs (step c l).1

-- Calls that follow one another, the first not before `from`.
abbrev pub AreOrdered : ℕ → List Call → Type 0
AreOrdered from [] = Unit
AreOrdered from (c ∷ cs) =
    (from ≤ c.start) × (c.start ≤ c.made) × (c.made ≤ c.taken) × AreOrdered c.taken cs

module _ (fl : Float) where
  -- The limiter that throws nothing away.
  pub patient_allow : Call → Limiter fl.F → Bool × Limiter fl.F
  patient_allow c l =
      let (ok, b) = allow fl c.taken (found_or_new fl (l.buckets c.key) l.cap l.per c.made) in
      (ok, record l { buckets = put_bucket c.key b l.buckets })

module _ (fl : Float) (size per : ℕ) (laws : Laws fl size per) where
  abbrev Entry : Type 0
  Entry = Option (Bucket fl.F)

  -- A bucket of the limiter.
  record IsBucket (b : Bucket fl.F) : Type 0 where
    cap : b.cap ≡ fl.float size
    refill : b.refill ≡ fl.div (fl.float size) (fl.seconds per)
    count : laws.IsCount b.tokens

  -- The entry of the patient limiter is the same, or it has been idle for so long that it was dropped.
  abbrev Agree : ℕ → Entry → Entry → Type 0
  Agree now x y =
      (x ≡ y)
      ⊎ ((x ≡ none) × ((b : Bucket fl.F) × (y ≡ some b) × IsBucket b × (b.last + 2 * per < now)))

  abbrev Sized : ℕ → Entry → Type 0
  Sized now none = Unit
  Sized now (some b) = IsBucket b × (b.last ≤ now)

  abbrev Buckets : Type 0
  Buckets = Bytes → Entry

  abbrev limiter : Buckets → Limiter fl.F
  limiter m = record { buckets = m; cap = size; per = per }

  abbrev Same : ℕ → Buckets → Buckets → Type 0
  Same now m n = (k : Bytes) → Agree now (m k) (n k) × Sized now (n k)
