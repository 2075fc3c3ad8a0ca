-- ===== src/Hub/Consistency/Sessions.antt =====
-- A session begins and ends.
use terminal_social.Common.{
  ℕ, suc, ◌-◌, ◌≡◌, refl, ap, true, false, ◌&&◌, List, [], ◌∷◌, inl, inr, arith, ◌==◌, leb, length,
  any_row, Bool-cases, if◌then◌else◌,
}
use terminal_social.Common.Sets.{
  mem, insert, remove, at, erase, put, mem-insert, mem-remove, is_distinct-insert,
  is_distinct-remove, length-remove, at-put, at-erase,
}
use terminal_social.Store.Schema.Keys.{next_id-fresh}
use terminal_social.Hub.{
  Sub, Hub, is_open, user_of, close_channel, store_set, new_sub, opened, subscribe, dropped,
  unsubscribe,
}
use terminal_social.Hub.Channels.{
  close_channel-is_open, close_channel-user_of, close_channel-AllBounded,
}
use terminal_social.Hub.Rooms.{in_rooms-leave_all}
use terminal_social.Hub.Consistency.{
  IsConsistent, Survives, broadcast_presence-Survives, if-Survives,
}

closed-unknown :
    (s : ℕ) (cs : List Sub) → any_row (λ (c : Sub). c.id == s) cs ≡ false → is_open s cs ≡ false
unfolding is_open
closed-unknown s [] h = refl
closed-unknown s (c ∷ cs) h = ground (arith, h, closed-unknown s cs)

pub new_sub-closed : (h : Hub) → is_open (new_sub h) h.channels ≡ false
new_sub-closed h =
    closed-unknown (new_sub h) h.channels (next_id-fresh (λ (c : Sub). c.id) h.channels)

length-insert : (s : ℕ) (ts : List ℕ) → mem s ts ≡ false → length (insert s ts) ≡ suc (length ts)
unfolding insert
length-insert s ts h = ground (arith, h)

pub opened-IsConsistent : (uid : ℕ) (h : Hub) → IsConsistent h → IsConsistent (opened uid h)
unfolding opened is_open user_of
opened-IsConsistent uid h c = record {
  counts = λ u. ground (
    arith,
    at-put 0 u uid (suc (at 0 uid h.presence_cnt)) h.presence_cnt,
    at-put [] u uid (insert (new_sub h) (at [] uid h.users)) h.users,
    c.counts u,
    c.counts uid,
    length-insert (new_sub h) (at [] uid h.users),
    c.sessions uid (new_sub h),
    new_sub-closed h,
  );
  sessions = λ u s. elim (Bool-cases (s == new_sub h)) [
    | inl e ↦
        let one : new_sub h ≡ s = ground (arith, e) in
        ground (
          arith,
          e,
          at-put [] u uid (insert (new_sub h) (at [] uid h.users)) h.users,
          mem-insert (new_sub h) s (at [] uid h.users),
          c.sessions u s,
          ap (λ x. is_open x h.channels) one,
          new_sub-closed h,
        )
    | inr e ↦ ground (
      arith,
      e,
      at-put [] u uid (insert (new_sub h) (at [] uid h.users)) h.users,
      mem-insert (new_sub h) s (at [] uid h.users),
      c.sessions u s,
      c.sessions uid s,
    )
  ];
  distinct = λ u. ground (
    arith,
    at-put [] u uid (insert (new_sub h) (at [] uid h.users)) h.users,
    is_distinct-insert (new_sub h) (at [] uid h.users),
    c.distinct u,
    c.distinct uid,
  );
  in_room = λ s k. ground (arith, c.in_room s k);
  bounded = (ground arith, c.bounded);
}

pub subscribe-Survives : (uid : ℕ) (h : Hub) → IsConsistent h → Survives (subscribe uid h)
unfolding subscribe
subscribe-Survives uid h c =
    if-Survives _ _ (opened uid h)
      (broadcast_presence-Survives uid true (opened uid h) (opened-IsConsistent uid h c))
      (opened-IsConsistent uid h c)

pub at-store_set :
    (u k : ℕ) (v : List ℕ) (m : List (ℕ × List ℕ))
    → at [] u (store_set k v m) ≡ (if u == k then v else at [] u m)
at-store_set u k [] m = at-erase [] u k m
at-store_set u k (x ∷ v) m = at-put [] u k (x ∷ v) m

-- The count of a user whose session ends.
at-lowered :
    (u uid : ℕ) (cnt : List (ℕ × ℕ))
    → at 0 u (if leb (at 0 uid cnt) 1 then erase uid cnt else put uid (at 0 uid cnt - 1) cnt)
      ≡ (if u == uid then at 0 uid cnt - 1 else at 0 u cnt)
at-lowered u uid cnt = elim (Bool-cases (leb (at 0 uid cnt) 1)) [
  | inl e ↦ ground (arith, e, at-erase 0 u uid cnt)
  | inr e ↦ ground (arith, e, at-put 0 u uid (at 0 uid cnt - 1) cnt)
]

-- The maps behind `Unsubscribe`, with the channel closed.
abbrev pub left : ℕ → Hub → Hub
left s h = record (dropped s h) { channels = close_channel s h.channels }

left-counts :
    (s : ℕ) (h : Hub)
    → is_open s h.channels ≡ true
    → IsConsistent h
    → (u : ℕ) → at 0 u (left s h).presence_cnt ≡ length (at [] u (left s h).users)
unfolding dropped
left-counts s h open_ c u =
    let uid = user_of s h.channels in
    ground (
      arith,
      at-lowered u uid h.presence_cnt,
      at-store_set u uid (remove s (at [] uid h.users)) h.users,
      c.counts u,
      c.counts uid,
      length-remove s (at [] uid h.users) (c.distinct uid)
          (ground (arith, c.sessions uid s, open_)),
    )

left-sessions :
    (s : ℕ) (h : Hub)
    → is_open s h.channels ≡ true
    → IsConsistent h
    → (u t : ℕ)
    → mem t (at [] u (left s h).users)
      ≡ (is_open t (left s h).channels && user_of t (left s h).channels == u)
unfolding dropped
left-sessions s h open_ c u t = elim (Bool-cases (t == s)) [
  | inl e ↦
      let one : s ≡ t = ground (arith, e) in
      ground (
        arith,
        e,
        ap (λ x. user_of x h.channels) one,
        at-store_set u uid (remove s (at [] uid h.users)) h.users,
        mem-remove s t (at [] uid h.users),
        close_channel-is_open s t h.channels,
        c.sessions u t,
      )
  | inr e ↦ ground (
    arith,
    e,
    at-store_set u uid (remove s (at [] uid h.users)) h.users,
    mem-remove s t (at [] uid h.users),
    close_channel-is_open s t h.channels,
    close_channel-user_of s t h.channels,
    c.sessions u t,
    c.sessions uid t,
  )
]
  where
    uid : ℕ
    uid = user_of s h.channels

pub left-IsConsistent :
    (s : ℕ) (h : Hub) → is_open s h.channels ≡ true → IsConsistent h → IsConsistent (left s h)
unfolding dropped
left-IsConsistent s h open_ c = record {
  counts = left-counts s h open_ c;
  sessions = left-sessions s h open_ c;
  distinct = λ u. ground (
    arith,
    at-store_set u (user_of s h.channels) (remove s (at [] (user_of s h.channels) h.users)) h.users,
    is_distinct-remove s (at [] (user_of s h.channels) h.users),
    c.distinct u,
    c.distinct (user_of s h.channels),
  );
  in_room = λ t k.
      ground (
        arith,
        in_rooms-leave_all s t h.rooms k,
        close_channel-is_open s t h.channels,
        c.in_room t,
      );
  bounded = close_channel-AllBounded s h.channels c.bounded;
}

pub unsubscribe-Survives :
    (s : ℕ) (h : Hub) → is_open s h.channels ≡ true → IsConsistent h → Survives (unsubscribe s h)
unfolding unsubscribe
unsubscribe-Survives s h open_ c = rw open_ (
    if-Survives _ _ (left s h)
      (broadcast_presence-Survives (user_of s h.channels) false (left s h)
        (left-IsConsistent s h open_ c))
      (left-IsConsistent s h open_ c))
