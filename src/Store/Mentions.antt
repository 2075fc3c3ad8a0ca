-- ===== src/Store/Mentions.antt =====
-- `ParseMentions` of store.go: the matches of `@([a-z0-9_-]{3,20})` from left to right, each handle
-- once. The pattern is ASCII, so that it may be read byte by byte. `strings.ToLower`, which belongs to
-- Go, is a parameter.
pub mod Handles
pub mod Found
use terminal_social.Common.{
  ℕ, zero, suc, Bool, true, false, not, ◌&&◌, ◌||◌, List, [], ◌∷◌, leb, ◌==◌, length, if◌then◌else◌,
}
use terminal_social.Text.{Bytes, bytes_eq}
use terminal_social.Domain.Names.{is_name_byte}

-- The longest run of name bytes at the front, of at most `n`.
unfoldable pub name_prefix : ℕ → Bytes → Bytes
name_prefix zero cs = []
name_prefix (suc n) [] = []
name_prefix (suc n) (c ∷ cs) =
    let rest = name_prefix n cs in if is_name_byte c then c ∷ rest else []

-- The handles behind the `@`s. The bytes of a match are skipped.
unfoldable pub find_handles : ℕ → Bytes → List Bytes
unfolding name_prefix
find_handles skip [] = []
find_handles (suc n) (c ∷ cs) = find_handles n cs
find_handles zero (c ∷ cs) =
    let handle = name_prefix 20 cs in
    let matched = find_handles (length handle) cs in
    let rest = find_handles zero cs in
    if c == b'@' && leb 3 (length handle) then handle ∷ matched else rest

unfoldable pub has_handle : Bytes → List Bytes → Bool
unfolding bytes_eq
has_handle h [] = false
has_handle h (x ∷ xs) = bytes_eq h x || has_handle h xs

-- The loop over the matches with `seen`, the handles that are in `out` already.
unfoldable pub keep_new : List Bytes → List Bytes → List Bytes
unfolding has_handle
keep_new seen [] = []
keep_new seen (h ∷ hs) =
    let rest = keep_new seen hs in
    let rest' = keep_new (h ∷ seen) hs in if has_handle h seen then rest else h ∷ rest'

module _ (to_lower : Bytes → Bytes) where
  unfoldable pub parse_mentions : Bytes → List Bytes
  unfolding find_handles keep_new
  parse_mentions body = keep_new [] (find_handles zero (to_lower body))
