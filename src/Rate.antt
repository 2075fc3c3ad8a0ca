-- ===== src/Rate.antt =====
-- internal/rate/rate.go. Time is a number of nanoseconds and grows. The numbers of float64 with their
-- operations are a parameter. A map is a function from its keys.
pub mod Eviction
use terminal_social.Common.{ℕ, ◌-◌, ◌*◌, Bool, true, false, Option, none, some, ltb, if◌then◌else◌}
use terminal_social.Text.{Bytes, bytes_eq}

-- float64: the conversion of an int, `Duration.Seconds` of a number of nanoseconds, and what the source
-- does with the numbers.
pub record Float : Type 1 where
  pub F : Type 0
  pub float : ℕ → F
  pub seconds : ℕ → F
  pub add : F → F → F
  pub sub : F → F → F
  pub mul : F → F → F
  pub div : F → F → F
  pub less : F → F → Bool
  pub leq : F → F → Bool

pub record Bucket (F : Type 0) : Type 0 where
  pub tokens : F
  pub cap : F
  pub refill : F
  pub last : ℕ

pub record Limiter (F : Type 0) : Type 0 where
  pub buckets : Bytes → Option (Bucket F)
  pub cap : ℕ
  pub per : ℕ

-- A call of `Limiter.Allow` with the three times that it reads: its own, that of `New`, and that of
-- `Bucket.Allow`.
pub record Call : Type 0 where
  pub key : Bytes
  pub start : ℕ
  pub made : ℕ
  pub taken : ℕ

module _ {F : Type 0} where
  -- `idle > 2*l.per`.
  abbrev pub is_idle : ℕ → ℕ → Bucket F → Bool
  is_idle now per b = ltb (2 * per) (now - b.last)

  abbrev pub keep_busy : ℕ → ℕ → Option (Bucket F) → Option (Bucket F)
  keep_busy now per none = none
  keep_busy now per (some b) = if is_idle now per b then none else some b

  abbrev pub put_bucket : Bytes → Bucket F → (Bytes → Option (Bucket F)) → Bytes → Option (Bucket F)
  put_bucket key b m k = if bytes_eq k key then some b else m k

  -- `NewLimiter`.
  abbrev pub new_limiter : ℕ → ℕ → Limiter F
  new_limiter cap per = record { buckets = λ key. none; cap = cap; per = per }

module _ (fl : Float) where
  -- `New`.
  abbrev pub new_bucket : ℕ → ℕ → ℕ → Bucket fl.F
  new_bucket cap per now = record {
    tokens = fl.float cap;
    cap = fl.float cap;
    refill = fl.div (fl.float cap) (fl.seconds per);
    last = now;
  }

  -- `b.tokens += elapsed * b.refill; if b.tokens > b.cap { b.tokens = b.cap }`.
  abbrev pub refilled : ℕ → Bucket fl.F → fl.F
  refilled now b =
      let tokens = fl.add b.tokens (fl.mul (fl.seconds (now - b.last)) b.refill) in
      if fl.less b.cap tokens then b.cap else tokens

  -- `Bucket.Allow` at the time `now`.
  unfoldable pub allow : ℕ → Bucket fl.F → Bool × Bucket fl.F
  allow now b =
      let full = record b { tokens = refilled now b; last = now } in
      if fl.leq (fl.float 1) full.tokens
      then (true, record full { tokens = fl.sub full.tokens (fl.float 1) })
      else (false, full)

  abbrev pub found_or_new : Option (Bucket fl.F) → ℕ → ℕ → ℕ → Bucket fl.F
  found_or_new none cap per now = new_bucket cap per now
  found_or_new (some b) cap per now = b

  unfoldable pub limiter_allow : Call → Limiter fl.F → Bool × Limiter fl.F
  limiter_allow c l =
      let busy = λ (k : Bytes). keep_busy c.start l.per (l.buckets k) in
      let (ok, b) = allow c.taken (found_or_new (busy c.key) l.cap l.per c.made) in
      (ok, record l { buckets = put_bucket c.key b busy })
