-- ===== src/Hub/Consistency/Removal.antt =====
-- `RemoveUserFromRoom`, and the sends that come behind it.
use terminal_social.Common.{
  ℕ, ◌≡◌, refl, ap, sym, ◌∙◌, true, false, List, [], ◌∷◌, some, inl, inr, arith, ◌==◌, ==_self,
  Option-cases, Bool-cases,
}
use terminal_social.Common.Sets.{mem, at}
use terminal_social.Hub.{
  Hub, Event, Sub, user_of, send_all, with_sent, store_set, owned, removed_event,
  remove_user_from_room, publish_room,
}
use terminal_social.Hub.Channels.{send_all-user_of}
use terminal_social.Hub.Consistency.Sessions.{at-store_set}

-- No subscription of the user is in the room.
abbrev pub HasNoneOf : ℕ → ℕ → Hub → Type 0
HasNoneOf uid rid h =
    (s : ℕ) → mem s (at [] rid h.rooms) ≡ true → (user_of s h.channels == uid) ≡ false

owned-others :
    (uid s : ℕ) (cs : List Sub) (ss : List ℕ)
    → mem s (owned false uid cs ss) ≡ true
    → (user_of s cs == uid) ≡ false
unfolding owned mem
owned-others uid s cs [] h = absurd (ground (arith, h))
owned-others uid s cs (t ∷ ss) h = elim (Bool-cases (s == t)) [
  | inl e ↦
      let one : s ≡ t = ground (arith, e) in
      ground (arith, h, owned-others uid s cs ss, ap (λ x. user_of x cs) one)
  | inr e ↦ ground (arith, h, e, owned-others uid s cs ss)
]

sent-same :
    (ss : List ℕ) (ev : Event) (h h' : Hub)
    → with_sent h (send_all ss ev h.channels) ≡ some h'
    → (h'.rooms ≡ h.rooms) × ((s : ℕ) → user_of s h'.channels ≡ user_of s h.channels)
sent-same ss ev h h' e = elim (Option-cases (send_all ss ev h.channels)) [
  | inl k ↦ absurd (ground (arith, k, e))
  | inr (cs, k) ↦
      (ground (arith, k, e), λ s. ground (arith, k, e, send_all-user_of s ss ev h.channels cs k))
]

pub remove_user_from_room-HasNoneOf :
    (uid rid : ℕ) (h h' : Hub) → remove_user_from_room uid rid h ≡ some h' → HasNoneOf uid rid h'
unfolding remove_user_from_room
remove_user_from_room-HasNoneOf uid rid h h' e s here =
    let subs = at [] rid h.rooms in
    let left = owned false uid h.channels subs in
    let h1 = record h { rooms = store_set rid left h.rooms } in
    let (same, users) =
      sent-same (owned true uid h.channels subs) (removed_event uid rid) h1 h' e in
    let inside : mem s left ≡ true =
      ap (mem s)
        (sym (ap (at [] rid) same ∙ at-store_set rid rid left h.rooms ∙ rw (==_self rid) refl))
      ∙ here in
    ap (λ n. n == uid) (users s) ∙ owned-others uid s h.channels subs inside

pub publish_room-HasNoneOf :
    (uid rid rid' : ℕ) (ev : Event) (h h' : Hub)
    → publish_room rid' ev h ≡ some h'
    → HasNoneOf uid rid h
    → HasNoneOf uid rid h'
unfolding publish_room
publish_room-HasNoneOf uid rid rid' ev h h' e out s here =
    let (same, users) = sent-same (at [] rid' h.rooms) ev h h' e in
    ap (λ n. n == uid) (users s) ∙ out s (ap (λ m. mem s (at [] rid m)) (sym same) ∙ here)
