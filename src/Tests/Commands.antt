-- ===== src/Tests/Commands.antt =====
-- Commands on the small database, and a registration.
use terminal_social.Common.{◌≡◌, refl, ◌⊎◌, true, false, [], ◌∷◌, any_row}
use terminal_social.Text.{Bytes, codes, nocase_eq}
use terminal_social.Text.Words.{has_prefix, trim_prefix, trim_space, drop_spaces}
use terminal_social.Domain.{User}
use terminal_social.Domain.Names.{valid_handle}
use terminal_social.Store.Schema.{is_member_row, is_ban_row, next_id}
use terminal_social.Store.Exec.{ok, quiet, Conn, query, statement}
use terminal_social.Store.Users.{new_user}
use terminal_social.Store.Rooms.{new_room, is_member}
use terminal_social.Hub.Consistency.Reachable.{Reachable-IsConsistent}
use terminal_social.Hub.Consistency.Removal.{HasNoneOf}
use terminal_social.Tui.{Screen, flash, applied, only_mods, new_app, view_room, is_room}
use terminal_social.Tui.Ui.{ran, ◌>>=◌, look, call, give}
use terminal_social.Tui.Commands.Rooms.{own_role, remove_cmd}
use terminal_social.Tui.Commands.Removal.{IsModOf, remove_cmd-guard, remove_cmd_lem}
use terminal_social.Tui.Register.{Deps, welcomed, submit_handle}
use terminal_social.Tui.Register.Welcome.{submit_handle_lem}
use terminal_social.Tests.World.{alice, bob, world}
use terminal_social.Tests.Sessions.{in_a_room, in_a_room-Reachable}
use terminal_social.Tests.Interface.{lib, screen_of}

abbrev in_general : User → Screen
in_general u = screen_of (record (new_app u) { current = view_room; current_room_id = 1 }) in_a_room

-- Bob is no moderator.
refused_ban :
    remove_cmd lib true (codes "/ban") (codes "alice" ∷ []) (in_general bob)
    ≡ ran (flash only_mods, in_general bob)
unfolding remove_cmd own_role is_member query statement ◌>>=◌ look call give
refused_ban = refl

remove_cmd-guard_example :
    ((in_a_room ≡ in_a_room) × (world ≡ world))
    ⊎ ((is_room (in_general bob).app.current ≡ true) × ((bob.is_admin ≡ true) ⊎ IsModOf 1 2 world))
remove_cmd-guard_example =
    remove_cmd-guard lib true (codes "/ban") (codes "alice" ∷ []) (in_general bob) (in_general bob)
      (flash only_mods) refused_ban

-- Alice owns the room and bans bob.
remove_cmd_lem_example :
    (t : Screen) × (remove_cmd lib true
        (codes "/ban")
        (codes "@bob" ∷ codes "spam" ∷ [])
        (in_general alice)
      ≡ ran (flash (applied (codes "/ban")), t))
    × (any_row (is_member_row 1 2) t.conn.db.room_members ≡ false)
    × HasNoneOf 2 1 t.hub
    × (true ≡ true → any_row (is_ban_row 1 2) t.conn.db.room_bans ≡ true)
unfolding nocase_eq has_prefix trim_prefix
remove_cmd_lem_example =
    remove_cmd_lem lib true (codes "/ban") (codes "@bob") (codes "spam" ∷ []) (in_general alice)
      world bob (Reachable-IsConsistent in_a_room in_a_room-Reachable) refl refl refl refl refl

abbrev same_text : Bytes → Bytes
same_text b = b

abbrev deps : Deps
deps = record { fingerprint = codes "fp"; public_key = codes "key"; default_room = codes "general" }

submit_handle_lem_example :
    (c : Conn) × (submit_handle same_text 200 deps (codes " dave ") (quiet world)
      ≡ (ok (welcomed (new_user 5 (trim_space (codes " dave ")) 200)), c))
    × (any_row (is_member_row 1 5) c.db.room_members ≡ true)
unfolding nocase_eq valid_handle trim_space drop_spaces next_id
submit_handle_lem_example =
    submit_handle_lem same_text 200 deps (codes " dave ") world
      (new_room 1 (codes "general") false 1 100) refl refl refl refl refl
