-- ===== src/Hub/Rooms.antt =====
-- Who is in some room.
use terminal_social.Common.{
  ℕ, ◌≡◌, refl, ap, sym, ◌∙◌, Bool, true, false, not, ◌&&◌, ◌||◌, List, [], ◌∷◌, inl, inr, arith,
  ◌==◌, Bool-cases,
}
use terminal_social.Common.Sets.{mem, remove, at, erase, put, mem-insert, mem-remove}
use terminal_social.Hub.{union, in_rooms, store_set, leave_all, owned, Sub}

pub mem-union : (t : ℕ) (ss seen : List ℕ) → mem t (union ss seen) ≡ (mem t ss || mem t seen)
unfolding union mem
mem-union t [] seen = refl
mem-union t (s ∷ ss) seen = ground (arith, mem-insert s t (union ss seen), mem-union t ss seen)

pub in_rooms-erase :
    (t k : ℕ) (m : List (ℕ × List ℕ))
    → mem t (in_rooms (erase k m)) ≡ true
    → mem t (in_rooms m) ≡ true
unfolding in_rooms erase
in_rooms-erase t k [] h = h
in_rooms-erase t k ((j, v) ∷ m) h = ground (
  arith,
  h,
  in_rooms-erase t k m,
  mem-union t v (in_rooms m),
  mem-union t v (in_rooms (erase k m)),
)

pub in_rooms-at :
    (t k : ℕ) (m : List (ℕ × List ℕ)) → mem t (at [] k m) ≡ true → mem t (in_rooms m) ≡ true
unfolding in_rooms at
in_rooms-at t k [] h = absurd (ground (arith, h))
in_rooms-at t k ((j, v) ∷ m) h = ground (arith, h, in_rooms-at t k m, mem-union t v (in_rooms m))

pub in_rooms-put :
    (t k : ℕ) (v : List ℕ) (m : List (ℕ × List ℕ))
    → mem t (in_rooms (put k v m)) ≡ true
    → (mem t v || mem t (in_rooms m)) ≡ true
unfolding in_rooms put
in_rooms-put t k v m h =
    ground (arith, h, in_rooms-erase t k m, mem-union t v (in_rooms (erase k m)))

pub in_rooms-store_set :
    (t k : ℕ) (v : List ℕ) (m : List (ℕ × List ℕ))
    → mem t (in_rooms (store_set k v m)) ≡ true
    → (mem t v || mem t (in_rooms m)) ≡ true
unfolding mem
in_rooms-store_set t k [] m h = in_rooms-erase t k m h
in_rooms-store_set t k (x ∷ v) m h = in_rooms-put t k (x ∷ v) m h

mem-kept :
    (t r : ℕ) (v : List ℕ) (rest : List (ℕ × List ℕ))
    → mem t (in_rooms (elim v [ [] ↦ rest | x ∷ xs ↦ (r, x ∷ xs) ∷ rest ]))
      ≡ (mem t v || mem t (in_rooms rest))
unfolding in_rooms mem
mem-kept t r [] rest = refl
mem-kept t r (x ∷ xs) rest = mem-union t (x ∷ xs) (in_rooms rest)

pub in_rooms-leave_all :
    (s t : ℕ) (m : List (ℕ × List ℕ))
    → mem t (in_rooms (leave_all s m)) ≡ true
    → (mem t (in_rooms m) && not (t == s)) ≡ true
unfolding in_rooms leave_all
in_rooms-leave_all s t [] h = absurd (ground (arith, h))
in_rooms-leave_all s t ((r, v) ∷ m) h = elim (Bool-cases (mem s v)) [
  | inl e ↦ ground (
    arith,
    sym (mem-kept t r (remove s v) (leave_all s m)) ∙ rw e at h,
    in_rooms-leave_all s t m,
    mem-remove s t v,
    mem-union t v (in_rooms m),
  )
  | inr e ↦ ground (
    arith,
    sym (mem-union t v (in_rooms (leave_all s m))) ∙ rw e at h,
    in_rooms-leave_all s t m,
    other e,
    mem-union t v (in_rooms m),
  )
]
  where
    other : mem s v ≡ false → mem t v ≡ true → (t == s) ≡ false
    other e k = elim (Bool-cases (t == s)) [
      | inl same ↦
          let one : t ≡ s = ground (arith, same) in
          absurd (ground (arith, e, k, ap (λ x. mem x v) one))
      | inr differ ↦ differ
    ]

pub mem-owned :
    (mine : Bool) (uid : ℕ) (cs : List Sub) (t : ℕ) (ss : List ℕ)
    → mem t (owned mine uid cs ss) ≡ true
    → mem t ss ≡ true
unfolding owned mem
mem-owned mine uid cs t [] h = h
mem-owned mine uid cs t (s ∷ ss) h = ground (arith, h, mem-owned mine uid cs t ss)
