-- ===== src/Tests/Limits.antt =====
-- The rate limits and the counter of sessions.
use Prim.Native.Nat.{◌/◌}
use terminal_social.Common.{ltb, leb, ◌+◌, ◌-◌, ◌*◌, ℕ, ◌≤◌, ◌≡◌, true, List, [], ◌∷◌, total}
use terminal_social.Text.{codes}
use terminal_social.Rate.{Float, Call}
use terminal_social.Ssh.{Request, run}
use terminal_social.Ssh.Sessions.{is_running, is_active, idle_server, run_bound}

abbrev call_at : ℕ → Call
call_at t = record { key = codes "u:1"; start = t; made = t; taken = t }

-- The bucket of the first call is dropped by the last.
abbrev three_calls : List Call
three_calls = call_at 1 ∷ call_at 2 ∷ call_at 40 ∷ []

-- Tokens counted in tenths, with one of these in each nanosecond.
abbrev tenths : Float
tenths = record {
  F = ℕ;
  float = λ n. 10 * n;
  seconds = λ n. n;
  add = λ x y. x + y;
  sub = λ x y. x - y;
  mul = λ x y. x * y;
  div = λ x y. x / y;
  less = λ x y. ltb x y;
  leq = λ x y. leb x y;
}

abbrev terminal : Request
terminal = record { has_pty = true; command = []; fingerprint = codes "fp"; has_key = true }

-- Two connections are counted before either is decided, and there is room for one.
abbrev moves : List (ℕ × Request)
moves = (0, terminal) ∷ (1, terminal) ∷ (1, terminal) ∷ (0, terminal) ∷ []

run_bound_example :
    let s = run moves (idle_server 2 1) in
    (total is_running s.phases ≤ 1) × (s.sessions ≡ total is_active s.phases)
run_bound_example = run_bound 2 1 moves
