-- ===== src/Tui/Live/Beginning.antt =====
-- `Init` puts a session on.
use terminal_social.Common.{
  ℕ, ◌≤◌, ◌≡◌, refl, sym, subst, ◌∙◌, arith, true, false, List, [], ◌∷◌, Option, none, some, ◌==◌,
  ==_self, length, ◌⊎◌, inl, inr,
}
use terminal_social.Text.{Bytes}
use terminal_social.Domain.{User}
use terminal_social.Store.Schema.{next_id}
use terminal_social.Store.Exec.{Action}
use terminal_social.Hub.{
  Hub, is_open, new_sub, opened, subscribe, broadcast_presence, presence_event, in_rooms,
  online_user_ids,
}
use terminal_social.Hub.Consistency.{IsConsistent}
use terminal_social.Hub.Consistency.Sessions.{subscribe-Survives}
use terminal_social.Hub.Consistency.Reachable.{with_sent-is_open, subscribe-is_open}
use terminal_social.Tui.{App, Screen, Cmd}
use terminal_social.Tui.Ui.{
  Ui, ran, crashed, bad_slice, give, call, look, change, tell, ◌>>=◌, ◌>>◌,
}
use terminal_social.Tui.Channels.{
  refresh_rooms, ask_user, cached_user, add_peers, refresh_dm_peers, refresh_blocks, refresh_unread,
  add_all, open_first, join_rooms, init, listen_hub,
}
use terminal_social.Tui.Live.{
  IsLive, Subs, Reaches, Reaches-map, Keeps, core, >>=-Reaches, Keeps-Runs,
}
use terminal_social.Tui.Live.Channels.{
  handlers, keep_rooms-core, keep_user-core, add_peer-core, open_first-Keeps, join_rooms-Keeps,
}

-- The handler leaves the hub and the fields that matter alone.
abbrev IsSame : Screen → Screen → Type 0
IsSame s t = (t.hub ≡ s.hub) × (core t.app ≡ core s.app)

Stays : {A : Type 0} → Ui A → Type 0
Stays m = (s : Screen) → Reaches (λ _ t. IsSame s t) (m s)

module _ {A B : Type 0} where
  >>=-Stays : (m : Ui A) (f : A → Ui B) → Stays m → ((a : A) → Stays (f a)) → Stays (m >>= f)
  unfolding Stays
  >>=-Stays m f h k s =
      >>=-Reaches m f (λ _ t. IsSame s t) (λ _ t. IsSame s t) s (h s)
        (λ a t p.
          Reaches-map (λ _ u. IsSame t u) (λ _ u. IsSame s u) (f a t) (k a t)
            (λ b u q. (q.0 ∙ p.0, q.1 ∙ p.1)))

module _ {A : Type 0} where
  give-Stays : (a : A) → Stays (give a)
  unfolding Stays give
  give-Stays a s = inl (a, s, refl, (refl, refl))

  call-Stays : (m : Action A) → Stays (call m)
  unfolding Stays call
  call-Stays m s = inl (_, _, refl, (refl, refl))

  look-Stays : (g : Screen → A) → Stays (look g)
  unfolding Stays look
  look-Stays g s = inl (g s, s, refl, (refl, refl))

change-Stays : (f : App → App) → ((a : App) → core (f a) ≡ core a) → Stays (change f)
unfolding Stays change
change-Stays f same s = inl (tt, _, refl, (refl, same s.app))

ruleset readers = (>>=-Stays, give-Stays, call-Stays, look-Stays, change-Stays, refl)

refresh_rooms-Stays : Stays refresh_rooms
unfolding refresh_rooms
refresh_rooms-Stays = search (readers, keep_rooms-core)

ask_user-Stays : (uid : ℕ) (o : Option User) → Stays (ask_user uid o)
ask_user-Stays uid (some u) = give-Stays (some u)
ask_user-Stays uid none = search (readers, keep_user-core)

cached_user-Stays : (uid : ℕ) → Stays (cached_user uid)
unfolding cached_user
cached_user-Stays uid = search (readers, ask_user-Stays)

add_peers-Stays : (ids : List ℕ) → Stays (add_peers ids)
unfolding add_peers
add_peers-Stays [] = give-Stays tt
add_peers-Stays (i ∷ ids) = search (readers, cached_user-Stays, add_peer-core, add_peers-Stays ids)

refresh_dm_peers-Stays : Stays refresh_dm_peers
unfolding refresh_dm_peers
refresh_dm_peers-Stays = search (readers, add_peers-Stays) depth 12

refresh_blocks-Stays : Stays refresh_blocks
unfolding refresh_blocks
refresh_blocks-Stays = search readers

refresh_unread-Stays : Stays refresh_unread
unfolding refresh_unread
refresh_unread-Stays = search readers

-- The subscription that a session gets is open and is not nil.
new_sub-open :
    (uid : ℕ) (h h' : Hub) → subscribe uid h ≡ some h' → is_open (new_sub h) h'.channels ≡ true
unfolding subscribe broadcast_presence opened is_open
new_sub-open uid h h' e = ground (
  arith,
  e,
  ==_self (new_sub h),
  with_sent-is_open (new_sub h) (in_rooms h.rooms) (presence_event uid true) (opened uid h) h',
)

-- The subscription that the hub gives next, and the others as they are.
abbrev pub subs_of : Hub → Subs
subs_of h = record { own = new_sub h; was = λ t. is_open t h.channels }

new_sub-named : (h : Hub) → (new_sub h == 0) ≡ false
unfolding next_id
new_sub-named h = ground arith

-- What is done behind `Subscribe`.
abbrev settle_in : Screen → Ui Cmd
settle_in s = do
  join_rooms s.app.rooms
  s ← look (λ s. s)
  change (λ a. record a { online = add_all (online_user_ids s.hub) a.online })
  open_first s.app.rooms (give tt)
  listen_hub

settle_in-Keeps : (s : Screen) → Keeps (settle_in s)
settle_in-Keeps s = search (handlers, join_rooms-Keeps, open_first-Keeps) depth 12

subscribed-Reaches :
    (s : Screen)
    → IsConsistent s.hub
    → s.app.cmd_history_idx ≤ length s.app.cmd_history
    → Reaches
        (λ _ t. IsLive (subs_of s.hub) t)
        ((tell (subscribe s.app.user.id) >>= λ _.
            (change (λ a. record a { hub_sub = new_sub s.hub }) >>= λ _. settle_in s))
          s)
unfolding tell change ◌>>=◌
subscribed-Reaches s c i =
    let (h, e, c') = subscribe-Survives s.app.user.id s.hub c in
    let t : Screen = record s { app = record (s.app) { hub_sub = new_sub s.hub }; hub = h } in
    elim (Keeps-Runs (settle_in s) (subs_of s.hub) t (settle_in-Keeps s) (record {
      consistent = c';
      own = refl;
      named = new_sub-named s.hub;
      open_sub = new_sub-open s.app.user.id s.hub h e;
      others = λ x n. subscribe-is_open s.app.user.id x s.hub h n e;
      index = i;
    })) [ inl (a, u, e', l) ↦ inl (a, u, rw e e', l) | inr x ↦ inr (rw e x) ]

-- A handler of this kind, and what comes behind it.
after :
    (from s : Screen) (m : Ui (Unit {0})) (k : Ui Cmd) (Q : Cmd → Screen → Type 0)
    → Stays m
    → IsSame from s
    → ((t : Screen) → IsSame from t → Reaches Q (k t))
    → Reaches Q ((m >>= λ _. k) s)
unfolding Stays
after from s m k Q h p rest =
    >>=-Reaches m (λ _. k) (λ _ t. IsSame s t) Q s (h s) (λ _ t q. rest t (q.0 ∙ p.0, q.1 ∙ p.1))

-- Whatever calls of the database fail on the way: from a consistent hub `Init` panics in
-- `highlightMentions` or puts the session on, with a subscription of its own that is open, and no other
-- is opened or closed.
pub init-IsLive :
    (s : Screen)
    → IsConsistent s.hub
    → s.app.cmd_history_idx ≤ length s.app.cmd_history
    → ((c : Cmd) × (t : Screen) × (init s ≡ ran (c, t)) × IsLive (subs_of s.hub) t)
      ⊎ (init s ≡ crashed bad_slice)
unfolding init look ◌>>=◌
init-IsLive s c i =
    after s s refresh_rooms _ Q refresh_rooms-Stays (refl, refl)
      (λ t1 p1. after s t1 refresh_dm_peers _ Q refresh_dm_peers-Stays p1 (λ t2 p2.
        after s t2 refresh_blocks _ Q refresh_blocks-Stays p2 (λ t3 p3.
          after s t3 refresh_unread _ Q refresh_unread-Stays p3 (λ t p.
            Reaches-map (λ _ u. IsLive (subs_of t.hub) u) Q _
              (subscribed-Reaches t (subst IsConsistent (sym p.0) c)
                (subst (λ (x : ℕ × List Bytes × ℕ). x.2 ≤ length x.1) (sym p.1) i))
              (λ _ u l. subst (λ h. IsLive (subs_of h) u) p.0 l)))))
  where
    Q : Cmd → Screen → Type 0
    Q _ t = IsLive (subs_of s.hub) t
