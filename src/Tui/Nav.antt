-- ===== src/Tui/Nav.antt =====
-- The list of rooms and conversations of internal/tui/app.go.
use terminal_social.Common.{
  ℕ, suc, ◌+◌, ◌-◌, ◌%◌, Bool, false, List, [], ◌∷◌, ◌++◌, map, Option, none, some, ◌==◌, length,
  get_elem?, if◌then◌else◌,
}
use terminal_social.Common.Sets.{mem, at}
use terminal_social.Text.{Bytes, codes}
use terminal_social.Domain.{User, Room}
use terminal_social.Tui.{App, shows_room, shows_dm}
use terminal_social.Tui.Ui.{Ui, give, look, panic, ◌>>=◌}
use terminal_social.Tui.Channels.{open_room, open_dm}

-- An entry of kind `viewRoom` or `viewDM`; its id is `roomID` or `peerID`.
pub data Target : Type 0 where
  room_item peer_item : ℕ → Target

pub record ChanItem : Type 0 where
  pub target : Target
  pub label : Bytes
  pub unread : ℕ
  pub mention : Bool
  pub online : Bool

abbrev pub room_entry : App → Room → ChanItem
room_entry a r = record {
  target = room_item r.id;
  label = codes "#" ++ r.name;
  unread = at 0 r.id a.unread_room;
  mention = mem r.id a.mention_room;
  online = false;
}

abbrev pub peer_entry : App → User → ChanItem
peer_entry a u = record {
  target = peer_item u.id;
  label = codes "@" ++ u.handle;
  unread = at 0 u.id a.unread_dm;
  mention = false;
  online = mem u.id a.online;
}

unfoldable pub nav_items : App → List ChanItem
nav_items a = map (room_entry a) a.rooms ++ map (peer_entry a) a.dm_peers

abbrev pub is_shown : App → Target → Bool
is_shown a (room_item rid) = shows_room rid a
is_shown a (peer_item pid) = shows_dm pid a

abbrev later : Option ℕ → Option ℕ
later none = none
later (some i) = some (suc i)

-- The index of the first entry that is shown.
unfoldable pub find_item : App → List ChanItem → Option ℕ
find_item a [] = none
find_item a (it ∷ its) =
    let rest = find_item a its in if is_shown a it.target then some 0 else later rest

abbrev pub or_first : Option ℕ → ℕ
or_first none = 0
or_first (some i) = i

unfoldable pub current_nav_idx : App → ℕ
unfolding nav_items find_item
current_nav_idx a = or_first (find_item a (nav_items a))

abbrev pub activate : Target → Ui (Unit {0})
activate (room_item rid) = open_room rid
activate (peer_item pid) = open_dm pid

-- An index behind the end panics.
abbrev pub activate_at : Option ChanItem → Ui (Unit {0})
activate_at none = panic
activate_at (some it) = activate it.target

-- `d` is +1 or -1; the list is not empty, so that the difference is exact.
unfoldable pub nav_move : Bool → Ui (Unit {0})
unfolding current_nav_idx
nav_move forward = do
  a ← look (λ s. s.app)
  let n = length (nav_items a)
  let i = if forward then current_nav_idx a + 1 + n else current_nav_idx a + n - 1
  if n == 0 then give tt else activate_at (get_elem? (nav_items a) (i % n))

unfoldable pub nav_activate : Ui (Unit {0})
nav_activate = do
  a ← look (λ s. s.app)
  if length (nav_items a) == 0
      then give tt
      else activate_at (get_elem? (nav_items a) (current_nav_idx a))
