-- ===== src/Hub/Channels.antt =====
-- The channels of internal/hub/hub.go under `send` and `close`.
use terminal_social.Common.{
  ℕ, ◌+◌, ◌≤◌, ◌≡◌, refl, ap, sym, ◌∙◌, true, false, not, ◌&&◌, List, [], ◌∷◌, ◌++◌, none, some,
  inl, inr, arith, ◌==◌, length, Bool-cases,
}
use terminal_social.Common.Sets.{mem}
use terminal_social.Hub.{
  Event, Sub, capacity, is_open, user_of, push, deliver, send, send_all, close_channel,
}

-- No channel holds more events than it has room for.
abbrev pub AllBounded : List Sub → Type 0
AllBounded [] = Unit
AllBounded (c ∷ cs) = (length c.queue ≤ capacity) × AllBounded cs

-- The same subscriptions, with the same users, and as open as before.
pub record IsSame (cs cs' : List Sub) : Type 0 where
  pub open_same : (s : ℕ) → is_open s cs' ≡ is_open s cs
  pub user_same : (s : ℕ) → user_of s cs' ≡ user_of s cs
  pub bounded_same : AllBounded cs → AllBounded cs'

deliver-is_open :
    (s t : ℕ) (ev : Event) (cs : List Sub) → is_open t (deliver s ev cs) ≡ is_open t cs
unfolding is_open deliver
deliver-is_open s t ev [] = refl
deliver-is_open s t ev (c ∷ cs) = ground (arith, deliver-is_open s t ev cs)

deliver-user_of :
    (s t : ℕ) (ev : Event) (cs : List Sub) → user_of t (deliver s ev cs) ≡ user_of t cs
unfolding user_of deliver
deliver-user_of s t ev [] = refl
deliver-user_of s t ev (c ∷ cs) = ground (arith, deliver-user_of s t ev cs)

length-snoc : (es : List Event) (e : Event) → length (es ++ e ∷ []) ≡ length es + 1
length-snoc [] e = refl
length-snoc (x ∷ es) e = ground (arith, length-snoc es e)

push-bounded :
    (ev : Event) (c : Sub) → length c.queue ≤ capacity → length (push ev c).queue ≤ capacity
push-bounded ev c h = ground (arith, h, length-snoc c.queue ev)

deliver-AllBounded :
    (s : ℕ) (ev : Event) (cs : List Sub) → AllBounded cs → AllBounded (deliver s ev cs)
unfolding deliver
deliver-AllBounded s ev [] h = tt
deliver-AllBounded s ev (c ∷ cs) h =
    (ground (arith, h.0, push-bounded ev c), deliver-AllBounded s ev cs h.1)

pub close_channel-AllBounded :
    (s : ℕ) (cs : List Sub) → AllBounded cs → AllBounded (close_channel s cs)
unfolding close_channel
close_channel-AllBounded s [] h = tt
close_channel-AllBounded s (c ∷ cs) h = (ground (arith, h.0), close_channel-AllBounded s cs h.1)

pub send_all-IsSame :
    (ss : List ℕ) (ev : Event) (cs : List Sub)
    → ((s : ℕ) → mem s ss ≡ true → is_open s cs ≡ true)
    → (cs' : List Sub) × (send_all ss ev cs ≡ some cs') × IsSame cs cs'
unfolding send_all send mem
send_all-IsSame [] ev cs h =
    (cs, refl, record { open_same = λ s. refl; user_same = λ s. refl; bounded_same = λ b. b })
send_all-IsSame (s ∷ ss) ev cs h =
    let (cs', sent, same) =
      send_all-IsSame ss ev (deliver s ev cs)
        (λ t k. deliver-is_open s t ev cs ∙ h t (ground (arith, k))) in
    (
      cs',
      ground (arith, h s, sent),
      record {
        open_same = λ t. same.open_same t ∙ deliver-is_open s t ev cs;
        user_same = λ t. same.user_same t ∙ deliver-user_of s t ev cs;
        bounded_same = λ b. same.bounded_same (deliver-AllBounded s ev cs b);
      },
    )

pub close_channel-is_open :
    (s t : ℕ) (cs : List Sub) → is_open t (close_channel s cs) ≡ (is_open t cs && not (t == s))
unfolding is_open close_channel
close_channel-is_open s t [] = refl
close_channel-is_open s t (c ∷ cs) = ground (arith, close_channel-is_open s t cs)

pub close_channel-user_of :
    (s t : ℕ) (cs : List Sub) → user_of t (close_channel s cs) ≡ user_of t cs
unfolding user_of close_channel
close_channel-user_of s t [] = refl
close_channel-user_of s t (c ∷ cs) = ground (arith, close_channel-user_of s t cs)

-- One closed subscription among them is enough for a panic.
pub send_all-closed :
    (s : ℕ) (ss : List ℕ) (ev : Event) (cs : List Sub)
    → mem s ss ≡ true
    → is_open s cs ≡ false
    → send_all ss ev cs ≡ none
unfolding send_all send mem
send_all-closed s [] ev cs here closed = absurd (ground (arith, here))
send_all-closed s (t ∷ ss) ev cs here closed = elim (Bool-cases (s == t)) [
  | inl e ↦
      let one : s ≡ t = ground (arith, e) in
      ground (arith, sym (ap (λ x. is_open x cs) one) ∙ closed)
  | inr e ↦ ground (
    arith,
    send_all-closed s ss ev (deliver t ev cs) (ground (arith, here, e))
        (deliver-is_open t s ev cs ∙ closed),
  )
]

-- A loop of sends that ends has opened and closed nothing.
pub send_all-is_open :
    (s : ℕ) (ss : List ℕ) (ev : Event) (cs cs' : List Sub)
    → send_all ss ev cs ≡ some cs'
    → is_open s cs' ≡ is_open s cs
unfolding send_all send
send_all-is_open s [] ev cs cs' h = ground (arith, h)
send_all-is_open s (t ∷ ss) ev cs cs' h = elim (Bool-cases (is_open t cs)) [
  | inl e ↦
      send_all-is_open s ss ev (deliver t ev cs) cs' (ground (arith, e, h))
      ∙ deliver-is_open t s ev cs
  | inr e ↦ absurd (ground (arith, e, h))
]

pub send_all-user_of :
    (s : ℕ) (ss : List ℕ) (ev : Event) (cs cs' : List Sub)
    → send_all ss ev cs ≡ some cs'
    → user_of s cs' ≡ user_of s cs
unfolding send_all send
send_all-user_of s [] ev cs cs' h = ground (arith, h)
send_all-user_of s (t ∷ ss) ev cs cs' h = elim (Bool-cases (is_open t cs)) [
  | inl e ↦
      send_all-user_of s ss ev (deliver t ev cs) cs' (ground (arith, e, h))
      ∙ deliver-user_of t s ev cs
  | inr e ↦ absurd (ground (arith, e, h))
]
