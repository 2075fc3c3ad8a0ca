-- ===== src/Store/Mentions/Found.antt =====
-- `ParseMentions` of internal/store/store.go: which mentions it has to find.
use terminal_social.Common.{
  ℕ, zero, suc, ◌≤◌, ◌≡◌, refl, ap, ◌∙◌, Bool, true, false, not, ◌&&◌, ◌||◌, [], ◌∷◌, ◌++◌, inl,
  inr, arith, leb, ◌==◌, length, Bool-cases,
}
use terminal_social.Text.{Bytes, bytes_eq, bytes_eq_iff}
use terminal_social.Domain.Names.{is_name_byte, all_name_bytes, valid_handle}
use terminal_social.Store.Mentions.{name_prefix, find_handles, has_handle, parse_mentions}
use terminal_social.Store.Mentions.Handles.{parse_mentions-valid}

-- A text that does not go on with a name byte.
abbrev pub stops : Bytes → Bool
stops [] = true
stops (c ∷ cs) = not (is_name_byte c)

-- The first `n` bytes are there and are name bytes.
skips : ℕ → Bytes → Bool
skips zero cs = true
skips (suc n) [] = false
skips (suc n) (c ∷ cs) = is_name_byte c && skips n cs

skips-name_prefix : (n : ℕ) (cs : Bytes) → skips (length (name_prefix n cs)) cs ≡ true
unfolding skips name_prefix
skips-name_prefix zero cs = refl
skips-name_prefix (suc n) [] = refl
skips-name_prefix (suc n) (c ∷ cs) = elim (Bool-cases (is_name_byte c)) [
  | inl e ↦ rw e (ground (arith, e, skips-name_prefix n cs))
  | inr e ↦ rw e refl
]

name_prefix-whole :
    (n : ℕ) (h rest : Bytes)
    → all_name_bytes h ≡ true
    → length h ≤ n
    → stops rest ≡ true
    → name_prefix n (h ++ rest) ≡ h
unfolding name_prefix all_name_bytes
name_prefix-whole zero [] rest a l s = refl
name_prefix-whole zero (c ∷ h) rest a l s = absurd (omega (arith, l))
name_prefix-whole (suc n) [] [] a l s = refl
name_prefix-whole (suc n) [] (c ∷ rest) a l s = ground (arith, s)
name_prefix-whole (suc n) (c ∷ h) rest a l s =
    ground (arith, a, name_prefix-whole n h rest (ground (arith, a)) (omega (arith, l)) s)

valid_handle-bounds :
    (h : Bytes)
    → valid_handle h ≡ true
    → (all_name_bytes h ≡ true) × (leb 3 (length h) ≡ true) × (length h ≤ 20)
unfolding valid_handle
valid_handle-bounds h v = ground (arith, v)

or-true : (b : Bool) {c : Bool} → c ≡ true → (b || c) ≡ true
or-true b h = ground (arith, h)

find_handles-found :
    (xs h rest : Bytes) (skip : ℕ)
    → valid_handle h ≡ true
    → stops rest ≡ true
    → skips skip (xs ++ b'@' ∷ h ++ rest) ≡ true
    → has_handle h (find_handles skip (xs ++ b'@' ∷ h ++ rest)) ≡ true
unfolding find_handles has_handle skips
find_handles-found [] h rest (suc n) v s k = absurd (ground (arith, k))
find_handles-found [] h rest zero v s k =
    let (named, long, short) = valid_handle-bounds h v in
    ground (arith, name_prefix-whole 20 h rest named short s, long, (bytes_eq_iff h h).1 refl)
find_handles-found (c ∷ xs) h rest (suc n) v s k =
    find_handles-found xs h rest n v s (ground (arith, k))
find_handles-found (c ∷ xs) h rest zero v s k =
    elim (Bool-cases (c == b'@' && leb 3 (length (name_prefix 20 text)))) [
      | inl e ↦ rw e (
          or-true (bytes_eq h (name_prefix 20 text)) (
            find_handles-found xs h rest (length (name_prefix 20 text)) v s
              (skips-name_prefix 20 text)))
      | inr e ↦ rw e (find_handles-found xs h rest zero v s refl)
    ]
  where
    text : Bytes
    text = xs ++ b'@' ∷ h ++ rest

-- If the text, as `strings.ToLower` returns it, holds an `@` and a valid handle which does not go on
-- behind it, the handle is among the parsed mentions.
pub parse_mentions-found :
    (to_lower : Bytes → Bytes) (body xs h rest : Bytes)
    → to_lower body ≡ xs ++ b'@' ∷ h ++ rest
    → valid_handle h ≡ true
    → stops rest ≡ true
    → has_handle h (parse_mentions to_lower body) ≡ true
unfolding skips
parse_mentions-found to_lower body xs h rest e v s =
    (parse_mentions-valid to_lower body).2 h
    ∙ ap (λ t. has_handle h (find_handles zero t)) e
    ∙ find_handles-found xs h rest zero v s refl
