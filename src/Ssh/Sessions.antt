-- ===== src/Ssh/Sessions.antt =====
-- How many sessions run at a time, whatever the order in which the connections move.
use terminal_social.Common.{
  ℕ, zero, suc, ◌≤◌, ◌≡◌, refl, sym, ◌∙◌, true, List, [], ◌∷◌, Option, none, some, inl, inr, arith,
  leb, get_elem?, set, total, total-set, Option-cases, if◌then◌else◌,
}
use terminal_social.Ssh.{
  Request, refused, Phase, waiting, admitted, over, counted, Server, move_on, step, run,
}

-- A connection that has been counted and not given back.
abbrev pub is_active : Phase → ℕ
is_active waiting = 0
is_active over = 0
is_active admitted = 1
is_active (counted cur) = 1

abbrev pub is_running : Phase → ℕ
is_running waiting = 0
is_running over = 0
is_running admitted = 1
is_running (counted cur) = 0

-- A connection that runs, or is not refused for want of room.
abbrev has_room : ℕ → Phase → ℕ
has_room max waiting = 0
has_room max over = 0
has_room max admitted = 1
has_room max (counted cur) = if leb cur max then 1 else 0

record IsCounted (s : Server) : Type 0 where
  counts : s.sessions ≡ total is_active s.phases
  room : total (has_room s.max_sessions) s.phases ≤ s.max_sessions

has_room-le : (max : ℕ) (ps : List Phase) → total (has_room max) ps ≤ total is_active ps
has_room-le max [] = omega arith
has_room-le max (waiting ∷ ps) = omega (arith, has_room-le max ps)
has_room-le max (over ∷ ps) = omega (arith, has_room-le max ps)
has_room-le max (admitted ∷ ps) = omega (arith, has_room-le max ps)
has_room-le max (counted cur ∷ ps) = ground (arith, has_room-le max ps)

running-le : (max : ℕ) (ps : List Phase) → total is_running ps ≤ total (has_room max) ps
running-le max [] = omega arith
running-le max (waiting ∷ ps) = omega (arith, running-le max ps)
running-le max (over ∷ ps) = omega (arith, running-le max ps)
running-le max (admitted ∷ ps) = omega (arith, running-le max ps)
running-le max (counted cur ∷ ps) = ground (arith, running-le max ps)

refused_room : (cur max : ℕ) (req : Request) → refused cur max req ≡ none → leb cur max ≡ true
unfolding refused
refused_room cur max req h = ground (arith, h)

move_on-IsCounted :
    (i : ℕ) (req : Request) (o : Option Phase) (s : Server)
    → get_elem? s.phases i ≡ o
    → IsCounted s
    → IsCounted (move_on i req o s)
move_on-IsCounted i req none s at_i c = c
move_on-IsCounted i req (some over) s at_i c = c
move_on-IsCounted i req (some waiting) s at_i c =
    let next = counted (suc s.sessions) in
    record {
      counts = omega (arith, c.counts, total-set is_active s.phases i next waiting at_i);
      room = ground (
        arith,
        c.counts,
        c.room,
        total-set (has_room s.max_sessions) s.phases i next waiting at_i,
        total-set is_active s.phases i next waiting at_i,
        has_room-le s.max_sessions (set s.phases i next),
      );
    }
move_on-IsCounted i req (some admitted) s at_i c = record {
  counts = omega (arith, c.counts, total-set is_active s.phases i over admitted at_i);
  room = omega (arith, c.room, total-set (has_room s.max_sessions) s.phases i over admitted at_i);
}
move_on-IsCounted i req (some (counted cur)) s at_i c =
    elim (Option-cases (refused cur s.max_sessions req)) [
      | inl e ↦ rw e (record {
        counts =
            omega (arith, c.counts, total-set is_active s.phases i admitted (counted cur) at_i);
        room = ground (
          arith,
          c.room,
          refused_room cur s.max_sessions req e,
          total-set (has_room s.max_sessions) s.phases i admitted (counted cur) at_i,
        );
      })
      | inr (x, e) ↦ rw e (record {
        counts = omega (arith, c.counts, total-set is_active s.phases i over (counted cur) at_i);
        room =
            ground (
              arith,
              c.room,
              total-set (has_room s.max_sessions) s.phases i over (counted cur) at_i,
            );
      })
    ]

run-IsCounted : (moves : List (ℕ × Request)) (s : Server) → IsCounted s → IsCounted (run moves s)
unfolding run step
run-IsCounted [] s c = c
run-IsCounted ((i, req) ∷ moves) s c =
    run-IsCounted moves (step i req s) (move_on-IsCounted i req (get_elem? s.phases i) s refl c)

-- `n` connections of which none has begun.
abbrev pub fresh : ℕ → List Phase
fresh zero = []
fresh (suc n) = waiting ∷ fresh n

pub idle_server : ℕ → ℕ → Server
idle_server n max = record { max_sessions = max; sessions = 0; phases = fresh n }

total-fresh : (w : Phase → ℕ) (n : ℕ) → w waiting ≡ 0 → total w (fresh n) ≡ 0
total-fresh w zero h = refl
total-fresh w (suc n) h = omega (arith, h, total-fresh w n h)

max-kept : (moves : List (ℕ × Request)) (s : Server) → (run moves s).max_sessions ≡ s.max_sessions
unfolding run step
max-kept [] s = refl
max-kept ((i, req) ∷ moves) s = max-kept moves (step i req s) ∙ one (get_elem? s.phases i)
  where
    one : (o : Option Phase) → (move_on i req o s).max_sessions ≡ s.max_sessions
    one none = refl
    one (some waiting) = refl
    one (some admitted) = refl
    one (some over) = refl
    one (some (counted cur)) = ground arith

-- However the steps of any number of connections are interleaved, no more than `max` sessions run at a
-- time, and the counter is the number of the connections that have been counted and have neither been
-- refused nor left: it falls back to 0 when all are over.
pub run_bound :
    (n max : ℕ) (moves : List (ℕ × Request))
    → let s = run moves (idle_server n max) in
      (total is_running s.phases ≤ max) × (s.sessions ≡ total is_active s.phases)
unfolding idle_server
run_bound n max moves =
    let c = run-IsCounted moves (idle_server n max) start in
    let kept = max-kept moves (idle_server n max) in
    (
      omega (
        arith,
        kept,
        c.room,
        running-le (run moves (idle_server n max)).max_sessions
            (run moves (idle_server n max)).phases,
      ),
      c.counts,
    )
  where
    start : IsCounted (idle_server n max)
    start = record {
      counts = sym (total-fresh is_active n refl);
      room = omega (arith, total-fresh (has_room max) n refl);
    }
