-- ===== src/Tests/World.antt =====
-- A small database: alice owns the room `general`, bob is a member, carol is not, and mallory is
-- banned. Bob has written one message.
use terminal_social.Common.{[], ◌∷◌, false, true}
use terminal_social.Text.{Bytes, codes}
use terminal_social.Domain.{User, owner, member}
use terminal_social.Store.Schema.{Db, empty_db}
use terminal_social.Store.Users.{new_user}
use terminal_social.Store.Rooms.{new_room, new_member, new_ban}
use terminal_social.Store.Messages.{room_message}

abbrev pub alice : User
alice = record (new_user 1 (codes "alice") 100) { is_admin = true }

abbrev pub bob : User
bob = new_user 2 (codes "bob") 100

abbrev pub carol : User
carol = new_user 3 (codes "carol") 100

abbrev pub mallory : User
mallory = new_user 4 (codes "mallory") 100

abbrev pub hello : Bytes
hello = codes "hello"

abbrev pub world : Db
world = record empty_db {
  users = alice ∷ bob ∷ carol ∷ mallory ∷ [];
  rooms = new_room 1 (codes "general") false 1 100 ∷ [];
  room_members = new_member 1 1 owner 100 ∷ new_member 1 2 member 100 ∷ [];
  room_bans = new_ban 1 4 1 [] 100 ∷ [];
  messages = room_message 1 2 hello 100 1 ∷ [];
}
