-- ===== src/Tests/Searching.antt =====
-- A search in the room, with an index that holds the first message and one that fails.
use terminal_social.Common.{◌≡◌, ◌≤◌, refl, Bool, true, List, [], ◌∷◌, ◌==◌, length, any_row}
use mathlib.Core.List.{filter_map}
use terminal_social.Common.Records.Order.{All}
use terminal_social.Text.{Bytes, codes}
use terminal_social.Domain.{Message}
use terminal_social.Store.Schema.{Db, MessageRow, is_member_row}
use terminal_social.Store.Exec.{
  Result, ok, err, constraint, quiet, pure, fail, query, statement, attempt, ◌>>=◌,
}
use terminal_social.Store.Rooms.{is_member, require_member}
use terminal_social.Store.Messages.{room_message, message_of}
use terminal_social.Store.History.{with_authors, search_room, search_room_for_user}
use terminal_social.Store.History.Access.{IsInRoom}
use terminal_social.Store.History.Search.{search_room_for_user-guard}
use terminal_social.Tests.World.{hello, world}

-- The index rejects every query, and LIKE finds the first message.
abbrev broken_index : Bytes → Db → Result (MessageRow → Bool)
broken_index q db = err constraint

abbrev first_message : Bytes → MessageRow → Bool
first_message q m = m.id == 1

abbrev found : List Message
found = message_of (room_message 1 2 hello 100 1) (codes "bob") ∷ []

bob-searches :
    search_room_for_user broken_index first_message 2 1 hello 10 (quiet world)
    ≡ (ok found, quiet world)
unfolding search_room_for_user search_room with_authors require_member is_member attempt ◌>>=◌ pure
    fail query statement filter_map
bob-searches = refl

search_room_for_user-guard_example :
    (any_row (is_member_row 1 2) world.room_members ≡ true)
    × All (IsInRoom 1) found
    × (length found ≤ 10)
search_room_for_user-guard_example =
    search_room_for_user-guard broken_index first_message 2 1 10 hello (quiet world) (quiet world)
      found bob-searches
