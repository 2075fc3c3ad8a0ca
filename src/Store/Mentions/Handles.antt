-- ===== src/Store/Mentions/Handles.antt =====
-- What `ParseMentions` returns.
use terminal_social.Common.{
  ℕ, zero, suc, ◌≤◌, ◌≡◌, refl, ap, ◌∙◌, Bool, true, not, ◌&&◌, List, [], ◌∷◌, inl, inr, arith, leb,
  ◌==◌, length, Bool-cases,
}
use terminal_social.Common.Records.Order.{All}
use terminal_social.Text.{Bytes, bytes_eq, bytes_eq_iff}
use terminal_social.Domain.Names.{all_name_bytes, valid_handle}
use terminal_social.Store.Mentions.{name_prefix, find_handles, has_handle, keep_new, parse_mentions}

name_prefix-all_name_bytes : (n : ℕ) (cs : Bytes) → all_name_bytes (name_prefix n cs) ≡ true
unfolding name_prefix all_name_bytes
name_prefix-all_name_bytes zero cs = refl
name_prefix-all_name_bytes (suc n) [] = refl
name_prefix-all_name_bytes (suc n) (c ∷ cs) = ground (arith, name_prefix-all_name_bytes n cs)

length-name_prefix : (n : ℕ) (cs : Bytes) → length (name_prefix n cs) ≤ n
unfolding name_prefix
length-name_prefix zero cs = ground arith
length-name_prefix (suc n) [] = ground arith
length-name_prefix (suc n) (c ∷ cs) = ground (arith, length-name_prefix n cs)

abbrev pub IsHandle : Bytes → Type 0
IsHandle h = valid_handle h ≡ true

find_handles-valid : (skip : ℕ) (cs : Bytes) → All IsHandle (find_handles skip cs)
unfolding find_handles
find_handles-valid skip [] = tt
find_handles-valid (suc n) (c ∷ cs) = find_handles-valid n cs
find_handles-valid zero (c ∷ cs) =
    elim (Bool-cases (c == b'@' && leb 3 (length (name_prefix 20 cs)))) [
      | inl e ↦ rw e (valid (ground (arith, e)), find_handles-valid (length (name_prefix 20 cs)) cs)
      | inr e ↦ rw e (find_handles-valid zero cs)
    ]
  where
    valid : leb 3 (length (name_prefix 20 cs)) ≡ true → IsHandle (name_prefix 20 cs)
    valid long =
        unfold valid_handle in
        ground (arith, long, name_prefix-all_name_bytes 20 cs, length-name_prefix 20 cs)

keep_new-All : (seen hs : List Bytes) → All IsHandle hs → All IsHandle (keep_new seen hs)
unfolding keep_new
keep_new-All seen [] a = tt
keep_new-All seen (h ∷ hs) a = elim (Bool-cases (has_handle h seen)) [
  | inl e ↦ rw e (keep_new-All seen hs a.1)
  | inr e ↦ rw e (a.0, keep_new-All (h ∷ seen) hs a.1)
]

-- Each handle stands once.
abbrev pub all_new : List Bytes → Bool
all_new [] = true
all_new (h ∷ hs) = not (has_handle h hs) && all_new hs

-- What is kept is what is found and not seen before.
pub has_handle-keep_new :
    (x : Bytes) (seen hs : List Bytes)
    → has_handle x (keep_new seen hs) ≡ (has_handle x hs && not (has_handle x seen))
unfolding keep_new has_handle
has_handle-keep_new x seen [] = refl
has_handle-keep_new x seen (h ∷ hs) = elim (Bool-cases (bytes_eq x h)) [
  | inl e ↦
      let one : x ≡ h = (bytes_eq_iff x h).0 e in
      ground (
        arith,
        e,
        ap (λ y. has_handle y seen) one,
        has_handle-keep_new x seen hs,
        has_handle-keep_new x (h ∷ seen) hs,
      )
  | inr e ↦ ground (arith, e, has_handle-keep_new x seen hs, has_handle-keep_new x (h ∷ seen) hs)
]

keep_new-all_new : (seen hs : List Bytes) → all_new (keep_new seen hs) ≡ true
unfolding keep_new has_handle
keep_new-all_new seen [] = refl
keep_new-all_new seen (h ∷ hs) = ground (
  arith,
  keep_new-all_new seen hs,
  keep_new-all_new (h ∷ seen) hs,
  has_handle-keep_new h (h ∷ seen) hs,
  (bytes_eq_iff h h).1 refl,
)

-- Whatever `strings.ToLower` returns, every mention that is parsed is a valid handle, none stands
-- twice, and none that the pattern finds is lost.
pub parse_mentions-valid :
    (to_lower : Bytes → Bytes) (body : Bytes)
    → All IsHandle (parse_mentions to_lower body)
      × (all_new (parse_mentions to_lower body) ≡ true)
      × ((h : Bytes)
          → has_handle h (parse_mentions to_lower body)
            ≡ has_handle h (find_handles zero (to_lower body)))
unfolding parse_mentions has_handle
parse_mentions-valid to_lower body = (
  keep_new-All [] _ (find_handles-valid zero (to_lower body)),
  keep_new-all_new [] (find_handles zero (to_lower body)),
  λ h. has_handle-keep_new h [] (find_handles zero (to_lower body)) ∙ ground arith,
)
