-- ===== src/Tui/Register.antt =====
-- `RegisterModel` of internal/tui/register.go: the first session of a key.
pub mod Welcome
use terminal_social.Common.{ℕ, false, Option, none, some, if◌then◌else◌}
use terminal_social.Text.{Bytes}
use terminal_social.Text.Words.{trim_space}
use terminal_social.Domain.{User, Room}
use terminal_social.Domain.Names.{valid_handle}
use terminal_social.Store.Exec.{Error, Result, ok, err, Action, pure, attempt, ◌>>=◌, ◌>>◌}
use terminal_social.Store.Users.{user_by_handle, create_user}
use terminal_social.Store.Rooms.{room_by_name, create_room, join_room}

-- What `Update` does with `enter`: the three messages of `err`, or the program of the new user.
pub data Outcome : Type 0 where
  invalid_handle taken : Outcome
  refused : Error → Outcome
  welcomed : User → Outcome

-- The fields of `Deps` that a registration reads.
pub record Deps : Type 0 where
  pub fingerprint : Bytes
  pub public_key : Bytes
  pub default_room : Bytes

abbrev pub found {ℓ} : {A : Type ℓ} → Result A → Option A
found (ok a) = some a
found (err e) = none

-- Any error of `RoomByName` makes the room.
abbrev pub or_create : ℕ → Deps → User → Result Room → Action (Option Room)
or_create now deps u (ok r) = pure (some r)
or_create now deps u (err e) = do
  r ← attempt (create_room now deps.default_room false u.id)
  pure (found r)

abbrev pub enter_room : ℕ → User → Option Room → Action (Unit {0})
enter_room now u none = pure tt
enter_room now u (some r) = do _ ← attempt (join_room now r.id u.id); pure tt

abbrev pub welcome : ℕ → Deps → Result User → Action Outcome
welcome now deps (err e) = pure (refused e)
welcome now deps (ok u) = do
  r ← attempt (room_by_name deps.default_room)
  room ← or_create now deps u r
  enter_room now u room
  pure (welcomed u)

abbrev pub register_new : ℕ → Deps → Bytes → Result User → Action Outcome
register_new now deps h (ok u) = pure taken
register_new now deps h (err e) = do
  u ← attempt (create_user now h deps.fingerprint deps.public_key)
  welcome now deps u

module _ (to_lower : Bytes → Bytes) where
  -- `input` is what the text field holds.
  unfoldable pub submit_handle : ℕ → Deps → Bytes → Action Outcome
  submit_handle now deps input =
      let h = to_lower (trim_space input) in
      if valid_handle h
      then (do existing ← attempt (user_by_handle h); register_new now deps h existing)
      else pure invalid_handle
