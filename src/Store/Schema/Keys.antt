-- ===== src/Store/Schema/Keys.antt =====
-- The primary keys of internal/store/migrations/0001_init.sql.
use terminal_social.Common.{ℕ, suc, ◌<◌, ◌≡◌, refl, false, List, [], ◌∷◌, arith, ◌==◌, any_row}
use terminal_social.Store.Schema.{max_id, next_id}

module _ {ℓ} {A : Type ℓ} (key : A → ℕ) where
  any_row-above : (n : ℕ) (xs : List A) → max_id key xs < n → any_row (λ x. key x == n) xs ≡ false
  unfolding max_id
  any_row-above n [] h = refl
  any_row-above n (x ∷ xs) h = ground (arith, any_row-above n xs)

  pub next_id-fresh : (xs : List A) → any_row (λ x. key x == next_id key xs) xs ≡ false
  unfolding next_id
  next_id-fresh xs = any_row-above (suc (max_id key xs)) xs (omega arith)
