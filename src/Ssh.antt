-- ===== src/Ssh.antt =====
-- `teaHandler` of internal/ssh/server.go: which connections get a session, and the counter of sessions.
-- The terminal, the command and the key of a connection are what the SSH library reports of it. The
-- three programs of internal/tui that a session may run are named by `Model`.
pub mod Sessions
use terminal_social.Common.{
  ℕ, suc, ◌+◌, ◌-◌, Bool, true, false, not, ◌||◌, List, [], ◌∷◌, Option, none, some, ltb, get_elem?,
  set, if◌then◌else◌,
}
use terminal_social.Text.{Bytes}
use terminal_social.Domain.{User}
use terminal_social.Store.Exec.{Result, ok, err, Conn, Action, pure, attempt, ◌>>=◌, ◌>>◌}
use terminal_social.Store.Users.{user_by_fingerprint, touch_last_seen}

pub record Request : Type 0 where
  pub has_pty : Bool
  pub command : List Bytes
  pub fingerprint : Bytes
  pub has_key : Bool

pub data Refusal : Type 0 where
  at_capacity no_pty no_exec no_key : Refusal

abbrev pub has_items {ℓ} : {A : Type ℓ} → List A → Bool
has_items [] = false
has_items (x ∷ xs) = true

-- The four early returns. `cur` is the counter behind `Add(1)`.
unfoldable pub refused : ℕ → ℕ → Request → Option Refusal
refused cur max req =
    if ltb max cur
    then some at_capacity
    else if not req.has_pty
    then some no_pty
    else if has_items req.command
    then some no_exec
    else if not (has_items req.fingerprint) || not req.has_key
    then some no_key
    else none

pub data Model : Type 0 where
  suspended app : User → Model
  register : Model

abbrev pub model_of : Result User → Model
model_of (ok u) = if u.is_suspended then suspended u else app u
model_of (err e) = register

abbrev pub touch : ℕ → Result User → Action (Unit {0})
touch now (ok u) = touch_last_seen now u.id
touch now (err e) = pure tt

-- What the handler does for a connection that is not refused.
unfoldable pub pick_model : ℕ → Bytes → Action Model
pick_model now fingerprint = do
  user ← attempt (user_by_fingerprint fingerprint)
  touch now user
  pure (model_of user)

-- The stages of a connection: before `Add(1)`, behind it with its result, running, and behind
-- `cleanup`, which `sync.Once` runs a single time, or behind a refusal.
pub data Phase : Type 0 where
  waiting admitted over : Phase
  counted : ℕ → Phase

pub record Server : Type 0 where
  pub max_sessions : ℕ
  pub sessions : ℕ
  pub phases : List Phase

abbrev pub decide : ℕ → Option Refusal → ℕ → Server → Server
decide i (some e) cur s = record s { sessions = s.sessions - 1; phases = set s.phases i over }
decide i none cur s = record s { phases = set s.phases i admitted }

-- The next step of connection `i`, in the phase that it is in.
abbrev pub move_on : ℕ → Request → Option Phase → Server → Server
move_on i req none s = s
move_on i req (some waiting) s = record s {
  sessions = suc s.sessions;
  phases = set s.phases i (counted (suc s.sessions));
}
move_on i req (some (counted cur)) s = decide i (refused cur s.max_sessions req) cur s
move_on i req (some admitted) s = record s {
  sessions = s.sessions - 1;
  phases = set s.phases i over;
}
move_on i req (some over) s = s

unfoldable pub step : ℕ → Request → Server → Server
step i req s = move_on i req (get_elem? s.phases i) s

-- A schedule names the connection that moves next, with its request.
unfoldable pub run : List (ℕ × Request) → Server → Server
run [] s = s
run ((i, req) ∷ moves) s = run moves (step i req s)
