-- ===== src/Domain/Names.antt =====
-- The two regular expressions of internal/domain/types.go that a handle and a room name match whole.
use terminal_social.Common.{ℕ, Bool, true, ◌&&◌, ◌||◌, [], ◌∷◌, leb, ◌==◌, length}
use terminal_social.Text.{Bytes}

-- The class `[a-z0-9_-]`.
abbrev pub is_name_byte : ℕ → Bool
is_name_byte c = leb b'a' c && leb c b'z' || leb b'0' c && leb c b'9' || c == b'_' || c == b'-'

-- Every byte is in the class.
unfoldable pub all_name_bytes : Bytes → Bool
all_name_bytes [] = true
all_name_bytes (c ∷ cs) = is_name_byte c && all_name_bytes cs

-- `^[a-z0-9_-]{3,20}$`.
unfoldable pub valid_handle : Bytes → Bool
unfolding all_name_bytes
valid_handle h = all_name_bytes h && leb 3 (length h) && leb (length h) 20

-- `^[a-z0-9_-]{1,32}$`.
unfoldable pub valid_room_name : Bytes → Bool
unfolding all_name_bytes
valid_room_name n = all_name_bytes n && leb 1 (length n) && leb (length n) 32
