-- ===== src/Tui/Live.antt =====
-- A session that is on: what its handlers keep, and one rule for each way to build a handler.
pub mod Channels
pub mod Events
pub mod Commands
pub mod Dispatch
pub mod Session
pub mod Chat
pub mod Keys
pub mod Beginning
use terminal_social.Common.{
  ℕ, ◌≤◌, ◌≡◌, refl, ap, subst, sym, ◌∙◌, Bool, true, false, List, [], ◌∷◌, Option, none, some,
  arith, ◌==◌, length, if◌then◌else◌, ◌⊎◌, inl, inr, Bool-cases,
}
use terminal_social.Text.{Bytes}
use terminal_social.Store.Exec.{Result, Action}
use terminal_social.Hub.{
  Hub, Event, is_open, send_all, with_sent, publish_room, publish_user, join_room, leave_room,
  remove_user_from_room, store_set, owned, removed_event,
}
use terminal_social.Hub.Consistency.{
  IsConsistent, Survives, publish_room-Survives, publish_user-Survives, join_room-IsConsistent,
  leave_room-IsConsistent, remove_user_from_room-Survives,
}
use terminal_social.Hub.Consistency.Reachable.{with_sent-is_open}
use terminal_social.Common.Sets.{at}
use terminal_social.Tui.{App, Screen, cur_key, listen}
use terminal_social.Tui.Render.{renders, render_history}
use terminal_social.Tui.Channels.{listen_hub}
use terminal_social.Tui.Ui.{
  Ui, Run, ran, crashed, bad_slice, give, call, look, change, tell, rate_msg, ◌>>=◌, when,
}

-- The subscription of a session, and which of the others are open.
pub record Subs : Type 0 where
  pub own : ℕ
  pub was : ℕ → Bool

-- The hub is consistent, the subscription of the session is open, and the index into the texts that
-- have been sent lies among them or just behind.
pub record IsLive (sub : Subs) (s : Screen) : Type 0 where
  pub consistent : IsConsistent s.hub
  pub own : s.app.hub_sub ≡ sub.own
  pub named : (sub.own == 0) ≡ false
  pub open_sub : is_open sub.own s.hub.channels ≡ true
  pub others : (t : ℕ) → (t == sub.own) ≡ false → is_open t s.hub.channels ≡ sub.was t
  pub index : s.app.cmd_history_idx ≤ length s.app.cmd_history

-- From this screen the handler ends, and what holds of its end, or it panics in `highlightMentions`.
abbrev pub Reaches {ℓ} : {A : Type ℓ} → (A → Screen → Type 0) → Run (A × Screen) → Type ℓ
Reaches {A = A} P o = ((a : A) × (s : Screen) × (o ≡ ran (a, s)) × P a s) ⊎ (o ≡ crashed bad_slice)

-- The same handler, of whose end more is known.
module _ {ℓ} {A : Type ℓ} where
  pub Reaches-map :
      (P Q : A → Screen → Type 0) (o : Run (A × Screen))
      → Reaches P o
      → ((a : A) (s : Screen) → P a s → Q a s)
      → Reaches Q o
  Reaches-map P Q o (inl (a, s, e, p)) f = inl (a, s, e, f a s p)
  Reaches-map P Q o (inr c) f = inr c

abbrev pub Runs {ℓ} : {A : Type ℓ} → Subs → Ui A → Screen → Type ℓ
Runs sub m s = Reaches (λ _ t. IsLive sub t) (m s)

unfoldable pub Keeps {ℓ} : {A : Type ℓ} → Ui A → Type ℓ
Keeps m = (sub : Subs) (s : Screen) → IsLive sub s → Runs sub m s

module _ {ℓ κ} {A : Type ℓ} {B : Type κ} (m : Ui A) (f : A → Ui B) where
  pub >>=-Reaches :
      (P : A → Screen → Type 0) (Q : B → Screen → Type 0) (s : Screen)
      → Reaches P (m s)
      → ((a : A) (t : Screen) → P a t → Reaches Q (f a t))
      → Reaches Q ((m >>= f) s)
  unfolding ◌>>=◌
  >>=-Reaches P Q s (inl (a, t, e, p)) k = elim (k a t p) [
    | inl (b, u, e', q) ↦ inl (b, u, rw e e', q)
    | inr c ↦ inr (rw e c)
  ]
  >>=-Reaches P Q s (inr c) k = inr (rw c refl)

  pub >>=-Keeps : Keeps m → ((a : A) → Keeps (f a)) → Keeps (m >>= f)
  unfolding Keeps
  >>=-Keeps h k sub s live =
      >>=-Reaches (λ _ t. IsLive sub t) (λ _ t. IsLive sub t) s (h sub s live)
        (λ a t l. k a sub t l)

-- What a handler looks at belongs to the screen that it goes on from.
module _ {ℓ κ} {A : Type ℓ} {B : Type κ} (g : Screen → A) (f : A → Ui B) where
  pub look-Keeps :
      ((sub : Subs) (s : Screen) → IsLive sub s → Runs sub (f (g s)) s) → Keeps (look g >>= f)
  unfolding Keeps look ◌>>=◌
  look-Keeps k sub s live = k sub s live

module _ {ℓ} {A : Type ℓ} where
  pub Keeps-Runs : (m : Ui A) (sub : Subs) (s : Screen) → Keeps m → IsLive sub s → Runs sub m s
  unfolding Keeps
  Keeps-Runs m sub s k live = k sub s live

  pub give-Keeps : (a : A) → Keeps (give a)
  unfolding Keeps give
  give-Keeps a sub s live = inl (a, s, refl, live)

  pub call-Keeps : (m : Action A) → Keeps (call m)
  unfolding Keeps call
  call-Keeps m sub s live = inl (
    (m s.conn).0,
    record s { conn = (m s.conn).1 },
    refl,
    record {
      consistent = live.consistent;
      own = live.own;
      named = live.named;
      open_sub = live.open_sub;
      others = live.others;
      index = live.index;
    },
  )

  pub look_only-Keeps : (g : Screen → A) → Keeps (look g)
  unfolding Keeps look
  look_only-Keeps g sub s live = inl (g s, s, refl, live)

  pub if-Keeps : (b : Bool) (m k : Ui A) → Keeps m → Keeps k → Keeps (if b then m else k)
  if-Keeps true m k h h' = h
  if-Keeps false m k h h' = h'

pub render_history-Keeps : Keeps render_history
unfolding Keeps render_history
render_history-Keeps sub s live =
    elim (Bool-cases
      (renders s.renderer s.app.user.handle s.app.blocked (s.app.messages (cur_key s.app)))) [
        | inl e ↦ inl (tt, s, rw e refl, live)
        | inr e ↦ inr (rw e refl)
      ]

-- A session that is on has a subscription to listen on.
pub listen_hub-Keeps : Keeps listen_hub
unfolding Keeps listen_hub look ◌>>=◌
listen_hub-Keeps sub s live =
    inl (listen, s, rw (ap (λ x. x == 0) live.own ∙ live.named) (unfold give in refl), live)

pub rate_msg-Keeps : Keeps rate_msg
unfolding Keeps rate_msg
rate_msg-Keeps sub s live = inl (
  _,
  _,
  refl,
  record {
    consistent = live.consistent;
    own = live.own;
    named = live.named;
    open_sub = live.open_sub;
    others = live.others;
    index = live.index;
  },
)

pub when-Keeps : (b : Bool) (m : Ui (Unit {0})) → Keeps m → Keeps (when b m)
when-Keeps true m h = h
when-Keeps false m h = give-Keeps tt

-- The fields that matter.
abbrev pub core : App → ℕ × List Bytes × ℕ
core a = (a.hub_sub, a.cmd_history, a.cmd_history_idx)

pub change-Keeps : (f : App → App) → ((a : App) → core (f a) ≡ core a) → Keeps (change f)
unfolding Keeps change
change-Keeps f same sub s live = inl (
  tt,
  record s { app = f s.app },
  refl,
  record {
    consistent = live.consistent;
    own = ap (λ c. c.0) (same s.app) ∙ live.own;
    named = live.named;
    open_sub = live.open_sub;
    others = live.others;
    index = subst (λ (c : ℕ × List Bytes × ℕ). c.2 ≤ length c.1) (sym (same s.app)) live.index;
  },
)

-- A call of the hub that opens and closes no subscription.
abbrev pub IsMild : (Hub → Option Hub) → Type 0
IsMild f =
    (h : Hub)
    → IsConsistent h
    → (h' : Hub) × (f h ≡ some h')
      × IsConsistent h'
      × ((s : ℕ) → is_open s h'.channels ≡ is_open s h.channels)

pub tell-Keeps : (f : Hub → Option Hub) → IsMild f → Keeps (tell f)
unfolding Keeps tell
tell-Keeps f mild sub s live =
    let (h, e, c, same) = mild s.hub live.consistent in
    inl (
      tt,
      record s { hub = h },
      rw e refl,
      record {
        consistent = c;
        own = live.own;
        named = live.named;
        open_sub = same sub.own ∙ live.open_sub;
        others = λ t n. same t ∙ live.others t n;
        index = live.index;
      },
    )

pub publish_room-Keeps : (rid : ℕ) (ev : Event) → Keeps (tell (publish_room rid ev))
unfolding publish_room
publish_room-Keeps rid ev = tell-Keeps (publish_room rid ev) (λ h c.
    let (h', e, c') = publish_room-Survives rid ev h c in
    (h', e, c', λ s. with_sent-is_open s (at [] rid h.rooms) ev h h' e))

pub publish_user-Keeps : (uid : ℕ) (ev : Event) → Keeps (tell (publish_user uid ev))
unfolding publish_user
publish_user-Keeps uid ev = tell-Keeps (publish_user uid ev) (λ h c.
    let (h', e, c') = publish_user-Survives uid ev h c in
    (h', e, c', λ s. with_sent-is_open s (at [] uid h.users) ev h h' e))

pub remove_user_from_room-Keeps : (uid rid : ℕ) → Keeps (tell (remove_user_from_room uid rid))
unfolding remove_user_from_room
remove_user_from_room-Keeps uid rid = tell-Keeps (remove_user_from_room uid rid) (λ h c.
    let (h', e, c') = remove_user_from_room-Survives uid rid h c in
    let h1 = record h {
      rooms = store_set rid (owned false uid h.channels (at [] rid h.rooms)) h.rooms;
    } in
    (
      h',
      e,
      c',
      λ s.
          with_sent-is_open s (owned true uid h.channels (at [] rid h.rooms))
            (removed_event uid rid) h1 h' e,
    ))

pub leave_room-Keeps : (s rid : ℕ) → Keeps (tell (λ h. some (leave_room s rid h)))
unfolding leave_room
leave_room-Keeps s rid =
    tell-Keeps (λ h. some (leave_room s rid h))
      (λ h c. (leave_room s rid h, refl, leave_room-IsConsistent s rid h c, λ t. refl))

-- The session's own subscription enters a room.
pub join_room-Keeps :
    (rid : ℕ) (sub : Subs) (s : Screen)
    → IsLive sub s
    → Runs sub (tell (λ h. some (join_room s.app.hub_sub rid h))) s
unfolding tell join_room
join_room-Keeps rid sub s live = inl (
  tt,
  record s { hub = join_room s.app.hub_sub rid s.hub },
  refl,
  record {
    consistent =
        join_room-IsConsistent s.app.hub_sub rid s.hub
          (ap (λ x. is_open x s.hub.channels) live.own ∙ live.open_sub) live.consistent;
    own = live.own;
    named = live.named;
    open_sub = live.open_sub;
    others = live.others;
    index = live.index;
  },
)
