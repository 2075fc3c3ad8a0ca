-- ===== src/Tui/Process/Safety.antt =====
-- What is left of the process by the messages of all sessions in any order.
use terminal_social.Common.{
  ℕ, ◌≤◌, ◌≡◌, refl, ap, sym, subst, ◌∙◌, inl, inr, arith, Bool, true, false, List, Option, none,
  some, ◌==◌, length, Bool-cases, Option-cases, ◌⊎◌,
}
use terminal_social.Text.{Bytes}
use terminal_social.Domain.{User}
use terminal_social.Store.Exec.{Conn}
use terminal_social.Hub.{Hub, is_open, new_sub}
use terminal_social.Hub.Consistency.{IsConsistent}
use terminal_social.Hub.Consistency.Sessions.{new_sub-closed}
use terminal_social.Hub.Consistency.Reachable.{new_hub-IsConsistent}
use terminal_social.Tui.{Screen, Renderer, Library, Cmd}
use terminal_social.Tui.Ui.{Run, ran, crashed, bad_slice}
use terminal_social.Tui.Update.{Msg, update}
use terminal_social.Tui.Live.{IsLive, Subs}
use terminal_social.Tui.Live.Keys.{HasContent, update-Ends}
use terminal_social.Tui.Live.Beginning.{init-IsLive}
use terminal_social.Tui.Process.{
  Program, Process, screen, is_quit, program_of, put_program, back, fresh, Move, begins, hears,
  begin_at, hear_at, move, started,
}

-- A program that runs on a hub.
pub record IsOn (p : Program) (h : Hub) : Type 0 where
  pub named : (p.app.hub_sub == 0) ≡ false
  pub open_sub : is_open p.app.hub_sub h.channels ≡ true
  pub index : p.app.cmd_history_idx ≤ length p.app.cmd_history

pub record IsServed (w : Process) : Type 0 where
  pub consistent : IsConsistent w.hub
  pub on : (i : ℕ) (p : Program) → w.programs i ≡ some p → p.running ≡ true → IsOn p w.hub
  pub apart :
      (i j : ℕ) (p q : Program)
      → w.programs i ≡ some p
      → w.programs j ≡ some q
      → p.running ≡ true
      → q.running ≡ true
      → (j == i) ≡ false
      → (q.app.hub_sub == p.app.hub_sub) ≡ false

live-IsOn : (c : Cmd) (t : Screen) (sub : Subs) → IsLive sub t → IsOn (program_of c t) t.hub
live-IsOn c t sub live = record {
  named = ap (λ x. x == 0) live.own ∙ live.named;
  open_sub = ap (λ x. is_open x t.hub.channels) live.own ∙ live.open_sub;
  index = live.index;
}

==_sym : (a b : ℕ) → (a == b) ≡ false → (b == a) ≡ false
==_sym a b h = ground (arith, h)

-- The session of connection `i` moves on, and the others are as they were.
replaced-IsServed :
    (i : ℕ) (w : Process) (c : Cmd) (t : Screen) (sub : ℕ)
    → IsServed w
    → IsConsistent t.hub
    → ((program_of c t).running ≡ true → (t.app.hub_sub ≡ sub) × IsOn (program_of c t) t.hub)
    → ((j : ℕ) (q : Program)
        → (j == i) ≡ false
        → w.programs j ≡ some q
        → q.running ≡ true
        → (q.app.hub_sub == sub) ≡ false)
    → ((x : ℕ) → (x == sub) ≡ false → is_open x t.hub.channels ≡ is_open x w.hub.channels)
    → IsServed (record w {
      conn = t.conn;
      hub = t.hub;
      programs = put_program i (program_of c t) w.programs;
    })
replaced-IsServed i w c t sub served consistent mine others same = record {
  consistent = consistent;
  on = λ j q e running. elim (Bool-cases (j == i)) [
    | inl here ↦
        let is_p : program_of c t ≡ q = ground (arith, here, e) in
        subst (λ p. IsOn p t.hub) is_p (mine (ap (λ (p : Program). p.running) is_p ∙ running)).1
    | inr there ↦
        let e' : w.programs j ≡ some q = rw there at e in
        let before = served.on j q e' running in
        record {
          named = before.named;
          open_sub = same q.app.hub_sub (others j q there e' running) ∙ before.open_sub;
          index = before.index;
        }
  ];
  apart = λ j k p q e e' r r' n. elim (Bool-cases (j == i)) [
    | inl a ↦ elim (Bool-cases (k == i)) [
      | inl b ↦ absurd (ground (arith, a, b, n))
      | inr b ↦ rw (is_mine p (ground (arith, a, e)) r) (others k q b (rw b at e') r')
    ]
    | inr a ↦ elim (Bool-cases (k == i)) [
      | inl b ↦
          rw (is_mine q (ground (arith, b, e')) r')
            (==_sym p.app.hub_sub sub (others j p a (rw a at e) r))
      | inr b ↦ served.apart j k p q (rw a at e) (rw b at e') r r' n
    ]
  ];
}
  where
    is_mine : (p : Program) → program_of c t ≡ p → p.running ≡ true → p.app.hub_sub ≡ sub
    is_mine p is_p r =
        ap (λ (x : Program). x.app.hub_sub) (sym is_p)
        ∙ (mine (ap (λ (x : Program). x.running) is_p ∙ r)).0

-- A message to a program that carries what its kind announces.
abbrev pub IsSound : Move → Type 0
IsSound (begins now i u quota fp) = Unit
IsSound (hears now i m) = HasContent m

abbrev is_running : Option Program → Bool
is_running none = true
is_running (some p) = p.running

-- No message is handed to a program that has asked to quit.
unfoldable pub allowed : Move → Process → Bool
allowed (begins now i u quota fp) w = true
allowed (hears now i m) w = is_running (w.programs i)

-- The process goes on, and all its sessions are as they should be, or it panics in `highlightMentions`.
abbrev pub Serves : Run Process → Type 0
Serves o = ((w : Process) × (o ≡ ran w) × IsServed w) ⊎ (o ≡ crashed bad_slice)

module _ (lib : Library) where
  -- The states of the process behind any messages of any sessions, none of them behind the `Quit` of
  -- its program.
  pub data Reachable : Process → Type 0 where
    start : (r : Renderer) (c : Conn) → Reachable (started r c)
    step :
        {w w' : Process} (m : Move)
        → Reachable w
        → IsSound m
        → allowed m w ≡ true
        → move lib m w ≡ ran w'
        → Reachable w'

  begin_at-Serves :
      (now i : ℕ) (u : User) (quota : List Bool) (fp : Bytes) (w : Process) (o : Option Program)
      → IsServed w
      → Serves (begin_at lib now i u quota fp w o)
  begin_at-Serves now i u quota fp w (some p) served = inl (w, refl, served)
  begin_at-Serves now i u quota fp w none served =
      elim (init-IsLive (screen now w (fresh u quota fp)) served.consistent (omega arith)) [
        | inl (c, t, e, live) ↦ inl (
          _,
          ap (back i w) e,
          replaced-IsServed i w c t (new_sub w.hub) served live.consistent
              (λ _. (live.own, live-IsOn c t _ live))
              (λ j q _ at_j r. not_new q (served.on j q at_j r).open_sub) live.others,
        )
        | inr e ↦ inr (ap (back i w) e)
      ]
    where
      not_new :
          (q : Program)
          → is_open q.app.hub_sub w.hub.channels ≡ true
          → (q.app.hub_sub == new_sub w.hub) ≡ false
      not_new q open_ = elim (Bool-cases (q.app.hub_sub == new_sub w.hub)) [
        | inl e ↦
            let one : q.app.hub_sub ≡ new_sub w.hub = ground (arith, e) in
            absurd
              (ground (arith, open_, ap (λ x. is_open x w.hub.channels) one, new_sub-closed w.hub))
        | inr e ↦ e
      ]

  -- The program that gets the message runs.
  heard-Serves :
      (now i : ℕ) (m : Msg) (w : Process) (p : Program)
      → HasContent m
      → w.programs i ≡ some p
      → p.running ≡ true
      → IsServed w
      → Serves (back i w (update lib m (screen now w p)))
  heard-Serves now i m w p h at_i r served =
      let sub = p.app.hub_sub in
      let on = served.on i p at_i r in
      elim (update-Ends lib m (record { own = sub; was = λ x. is_open x w.hub.channels })
        (screen now w p) h
        (record {
          consistent = served.consistent;
          own = refl;
          named = on.named;
          open_sub = on.open_sub;
          others = λ x n. refl;
          index = on.index;
        })) [
          | inl (c, t, e, inl live) ↦ inl (
            _,
            ap (back i w) e,
            replaced-IsServed i w c t sub served live.consistent
                (λ _. (live.own, live-IsOn c t _ live))
                (λ j q n at_j r'. served.apart i j p q at_i at_j r r' n) live.others,
          )
          | inl (c, t, e, inr (stopped, over)) ↦ inl (
            _,
            ap (back i w) e,
            replaced-IsServed i w c t sub served over.consistent
                (λ runs. absurd (ground (arith, runs, ap is_quit stopped)))
                (λ j q n at_j r'. served.apart i j p q at_i at_j r r' n) over.others,
          )
          | inr e ↦ inr (ap (back i w) e)
        ]

  move-Serves :
      (m : Move) (w : Process) → IsSound m → allowed m w ≡ true → IsServed w → Serves (move lib m w)
  unfolding move allowed
  move-Serves (begins now i u quota fp) w h a served =
      begin_at-Serves now i u quota fp w (w.programs i) served
  move-Serves (hears now i m) w h a served = elim (Option-cases (w.programs i)) [
    | inl e ↦ inl (w, ap (hear_at lib now i m w) e, served)
    | inr (p, e) ↦
        subst (λ o. Serves (hear_at lib now i m w o)) (sym e)
          (heard-Serves now i m w p h e (ap is_running (sym e) ∙ a) served)
  ]

  pub Reachable-IsServed : {w : Process} → Reachable w → IsServed w
  Reachable-IsServed (start r c) = record {
    consistent = new_hub-IsConsistent;
    on = λ i p e r. absurd (ground (arith, e));
    apart = λ i j p q e e' r r' n. absurd (ground (arith, e));
  }
  Reachable-IsServed (step m reach h a e) = elim (move-Serves m _ h a (Reachable-IsServed reach)) [
    | inl (w, e', served) ↦ subst IsServed (ran_same (sym e' ∙ e)) served
    | inr e' ↦ absurd (not_both (sym e ∙ e'))
  ]
    where
      ran_same : {w w' : Process} → ran w ≡ ran w' → w ≡ w'
      ran_same k = ground (arith, k)

      not_both : {w : Process} → ran w ≡ crashed bad_slice → ⊥
      not_both k = ground (arith, k)

  -- If handlers do not overlap and no program is handed a message behind its `Quit`, then in each state
  -- that a process can reach, whatever calls of the database fail on the way, and in whatever order
  -- connections begin and programs get their messages, where an event of the hub carries what its kind
  -- announces: the next one panics in `highlightMentions`, by a slice out of range, and nowhere else;
  -- or behind it the hub is consistent, each program that runs has an open subscription, no two of them
  -- share one, and the index of each into the texts that it has sent lies among them or just behind.
  pub move-IsServed :
      (w : Process) (m : Move)
      → Reachable w
      → IsSound m
      → allowed m w ≡ true
      → ((w' : Process) × (move lib m w ≡ ran w') × IsServed w')
        ⊎ (move lib m w ≡ crashed bad_slice)
  move-IsServed w m reach h a = move-Serves m w h a (Reachable-IsServed reach)
