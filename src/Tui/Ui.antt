-- ===== src/Tui/Ui.antt =====
-- The handlers of the interface as programs over a screen, which end in a value or in a panic.
use terminal_social.Common.{Bool, true, false, List, [], ◌∷◌, Option, none, some}
use terminal_social.Store.Exec.{Result, ok, err, Action}
use terminal_social.Hub.{Hub}
use terminal_social.Tui.{App, Screen}

-- A slice out of range in `highlightMentions`; or any other panic: a closed channel, an index out of
-- range, a nil pointer.
pub data Crash : Type 0 where
  bad_slice fault : Crash

pub data Run {ℓ} (A : Type ℓ) : Type ℓ where
  ran : A → Run A
  crashed : Crash → Run A

abbrev pub Ui {ℓ} : Type ℓ → Type ℓ
Ui A = Screen → Run (A × Screen)

module _ {ℓ} {A : Type ℓ} where
  unfoldable pub give : A → Ui A
  give a s = ran (a, s)

  -- A call of the store, whose result or error the caller sees.
  unfoldable pub call : Action A → Ui (Result A)
  call m s = let (r, c) = m s.conn in ran (r, record s { conn = c })

  unfoldable pub look : (Screen → A) → Ui A
  look f s = ran (f s, s)

unfoldable pub change : (App → App) → Ui (Unit {0})
change f s = ran (tt, record s { app = f s.app })

unfoldable pub panic {ℓ} : {A : Type ℓ} → Ui A
panic s = crashed fault

abbrev with_hub : Screen → Option Hub → Run (Unit {0} × Screen)
with_hub s none = crashed fault
with_hub s (some h) = ran (tt, record s { hub = h })

-- A call of the hub.
unfoldable pub tell : (Hub → Option Hub) → Ui (Unit {0})
tell f s = with_hub s (f s.hub)

-- The next answer of `RateMsg`.
abbrev pub next_quota : List Bool → Bool
next_quota [] = true
next_quota (b ∷ bs) = b

abbrev later_quota : List Bool → List Bool
later_quota [] = []
later_quota (b ∷ bs) = bs

unfoldable pub rate_msg : Ui Bool
rate_msg s = ran (next_quota s.quota, record s { quota = later_quota s.quota })

module _ {ℓ κ} {A : Type ℓ} {B : Type κ} where
  abbrev pub then_run : Run (A × Screen) → (A → Ui B) → Run (B × Screen)
  then_run (ran (a, s)) f = f a s
  then_run (crashed c) f = crashed c

  infixl 10 ◌>>=◌
  unfoldable pub ◌>>=◌ : Ui A → (A → Ui B) → Ui B
  ◌>>=◌ m f s = then_run (m s) f

module _ {ℓ} {B : Type ℓ} where
  infixl 10 ◌>>◌
  abbrev pub ◌>>◌ : Ui (Unit {0}) → Ui B → Ui B
  m >> k = m >>= λ _. k

-- `if test { … }`.
abbrev pub when : Bool → Ui (Unit {0}) → Ui (Unit {0})
when true m = m
when false m = give tt

-- The value of a call, or what the source has when it fails.
abbrev pub value_or {ℓ} : {A : Type ℓ} → A → Result A → A
value_or d (ok a) = a
value_or d (err e) = d

abbrev pub is_ok {ℓ} : {A : Type ℓ} → Result A → Bool
is_ok (ok a) = true
is_ok (err e) = false
