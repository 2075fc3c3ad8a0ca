-- ===== src/Store/Rooms/History.antt =====
-- Histories of the methods of `Store` that touch users, rooms, members and bans.
use terminal_social.Common.{ℕ, refl, Bool, List, [], ◌∷◌, ◌==◌}
use terminal_social.Text.{Bytes}
use terminal_social.Domain.{parse_role}
use terminal_social.Store.Schema.{Db, empty_db}
use terminal_social.Store.Exec.{quiet, statement}
use terminal_social.Store.Users.{create_user}
use terminal_social.Store.Rooms.{
  create_room, join_room, leave_room, kick_from_room, ban_from_room, promote, set_topic,
  delete_room,
}
use terminal_social.Store.Rooms.Separation.{
  IsSeparated, IsSeparated-empty, join_room-IsSeparated, create_room-IsSeparated,
  delete_member-IsSeparated, ban_from_room-IsSeparated, update_rooms-IsSeparated,
  set_role-IsSeparated, create_user-IsSeparated,
}

-- The operations of the store that touch rooms, members and bans.
pub data RoomOp : Type 0 where
  creates : ℕ → Bytes → Bool → ℕ → RoomOp
  joins : ℕ → ℕ → ℕ → RoomOp
  leaves kicks : ℕ → ℕ → RoomOp
  bans : ℕ → ℕ → ℕ → ℕ → Bytes → RoomOp
  promotes : ℕ → ℕ → Bytes → RoomOp
  topics : ℕ → Bytes → RoomOp
  deletes : ℕ → ℕ → RoomOp
  registers : ℕ → Bytes → Bytes → Bytes → RoomOp

-- The tables after the operation, whether it succeeded or not.
pub perform : Db → RoomOp → Db
perform db (creates now name private creator) =
    (create_room now name private creator (quiet db)).1.db
perform db (joins now rid uid) = (join_room now rid uid (quiet db)).1.db
perform db (leaves rid uid) = (leave_room rid uid (quiet db)).1.db
perform db (kicks rid uid) = (kick_from_room rid uid (quiet db)).1.db
perform db (bans now rid uid by reason) = (ban_from_room now rid uid by reason (quiet db)).1.db
perform db (promotes rid uid role) = (promote rid uid role (quiet db)).1.db
perform db (topics rid topic) = (set_topic rid topic (quiet db)).1.db
perform db (deletes now rid) = (delete_room now rid (quiet db)).1.db
perform db (registers now handle fingerprint key) =
    (create_user now handle fingerprint key (quiet db)).1.db

pub history : Db → List RoomOp → Db
history db [] = db
history db (op ∷ ops) = history (perform db op) ops

perform-IsSeparated : (op : RoomOp) (db : Db) → IsSeparated db → IsSeparated (perform db op)
unfolding perform promote leave_room kick_from_room set_topic delete_room statement
perform-IsSeparated (creates now name private creator) db s =
    create_room-IsSeparated now name private creator db s
perform-IsSeparated (joins now rid uid) db s = join_room-IsSeparated now rid uid db s
perform-IsSeparated (leaves rid uid) db s = delete_member-IsSeparated rid uid db s
perform-IsSeparated (kicks rid uid) db s = delete_member-IsSeparated rid uid db s
perform-IsSeparated (bans now rid uid by reason) db s =
    ban_from_room-IsSeparated now rid uid by reason db s
perform-IsSeparated (promotes rid uid role) db s =
    set_role-IsSeparated rid uid (parse_role role) db s
perform-IsSeparated (topics rid topic) db s =
    update_rooms-IsSeparated (λ r. r.room.id == rid) _ db (λ r. refl) s
perform-IsSeparated (deletes now rid) db s =
    update_rooms-IsSeparated (λ r. r.room.id == rid) _ db (λ r. refl) s
perform-IsSeparated (registers now handle fingerprint key) db s =
    create_user-IsSeparated now handle fingerprint key db s

history-keeps : (ops : List RoomOp) (db : Db) → IsSeparated db → IsSeparated (history db ops)
unfolding history
history-keeps [] db s = s
history-keeps (op ∷ ops) db s = history-keeps ops (perform db op) (perform-IsSeparated op db s)

-- After any history of registrations, room creations, joins, leaves, kicks, bans, promotions, topics
-- and deletions over the empty tables, on a driver that does not fail, no user is a member of a room
-- that he is banned from, and every ban is of a room that exists.
pub history-IsSeparated : (ops : List RoomOp) → IsSeparated (history empty_db ops)
history-IsSeparated ops = history-keeps ops empty_db IsSeparated-empty
