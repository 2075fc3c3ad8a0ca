-- ===== src/Store/Schema.antt =====
-- The tables of internal/store/migrations/0001_init.sql. A table is the list of its rows in the order
-- of insertion. `INTEGER PRIMARY KEY` gives a new row the largest id in use plus one. The column
-- `last_read_msg_id`, which no statement names, and the full-text index are left out.
pub mod Keys
use Prim.Native.Nat.{max}
use terminal_social.Common.{
  ℕ, suc, ◌+◌, Bool, false, ◌&&◌, ◌||◌, List, [], ◌∷◌, Option, none, some, ◌==◌, any_row, find_row,
  if◌then◌else◌,
}
use terminal_social.Text.{Bytes, bytes_eq, nocase_eq}
use terminal_social.Domain.{User, UserKey, Room, Role, MessageKind, NotificationKind}

pub record RoomRow : Type 0 where
  pub room : Room
  pub deleted_at : Option ℕ

pub record MemberRow : Type 0 where
  pub room_id : ℕ
  pub user_id : ℕ
  pub role : Role
  pub joined_at : ℕ

pub record BanRow : Type 0 where
  pub room_id : ℕ
  pub user_id : ℕ
  pub banned_by : ℕ
  pub reason : Bytes
  pub banned_at : ℕ

pub record MessageRow : Type 0 where
  pub id : ℕ
  pub kind : MessageKind
  pub room_id : Option ℕ
  pub dm_peer_a : Option ℕ
  pub dm_peer_b : Option ℕ
  pub author_id : ℕ
  pub body : Bytes
  pub created_at : ℕ
  pub deleted_at : Option ℕ
  pub deleted_by : Option ℕ

pub record MentionRow : Type 0 where
  pub message_id : ℕ
  pub user_id : ℕ

pub record BlockRow : Type 0 where
  pub user_id : ℕ
  pub blocked_id : ℕ
  pub created_at : ℕ

pub record NotificationRow : Type 0 where
  pub id : ℕ
  pub user_id : ℕ
  pub kind : NotificationKind
  pub message_id : Option ℕ
  pub room_id : Option ℕ
  pub created_at : ℕ
  pub read_at : Option ℕ

pub data TargetKind : Type 0 where
  message_target user_target : TargetKind

pub record ReportRow : Type 0 where
  pub id : ℕ
  pub reporter_id : ℕ
  pub target_kind : TargetKind
  pub target_id : ℕ
  pub reason : Bytes
  pub created_at : ℕ

pub record Db : Type 0 where
  pub users : List User
  pub user_keys : List UserKey
  pub rooms : List RoomRow
  pub room_members : List MemberRow
  pub room_bans : List BanRow
  pub messages : List MessageRow
  pub mentions : List MentionRow
  pub blocks : List BlockRow
  pub notifications : List NotificationRow
  pub reports : List ReportRow

-- The tables that the migration creates.
abbrev pub empty_db : Db
empty_db = record {
  users = [];
  user_keys = [];
  rooms = [];
  room_members = [];
  room_bans = [];
  messages = [];
  mentions = [];
  blocks = [];
  notifications = [];
  reports = [];
}

-- The largest key of a table, 0 if it is empty.
pub max_id {ℓ} : {A : Type ℓ} → (A → ℕ) → List A → ℕ
max_id key [] = 0
max_id key (x ∷ xs) = max (key x) (max_id key xs)

-- The key of the row that is inserted next.
unfoldable pub next_id {ℓ} : {A : Type ℓ} → (A → ℕ) → List A → ℕ
unfolding max_id
next_id key xs = suc (max_id key xs)

-- Does a column that may be NULL hold the value?
abbrev pub holds : Option ℕ → ℕ → Bool
holds none n = false
holds (some m) n = m == n

-- `REFERENCES users(id)` and `REFERENCES rooms(id)`: the row referred to is there. A room that is
-- marked as deleted still has its row.
abbrev pub user_exists : ℕ → Db → Bool
user_exists uid db = any_row (λ u. u.id == uid) db.users

abbrev pub room_exists : ℕ → Db → Bool
room_exists rid db = any_row (λ r. r.room.id == rid) db.rooms

-- The tests of the composite primary keys.
abbrev pub is_member_row : ℕ → ℕ → MemberRow → Bool
is_member_row rid uid m = m.room_id == rid && m.user_id == uid

abbrev pub is_ban_row : ℕ → ℕ → BanRow → Bool
is_ban_row rid uid b = b.room_id == rid && b.user_id == uid

abbrev pub is_block_row : ℕ → ℕ → BlockRow → Bool
is_block_row uid blocked b = b.user_id == uid && b.blocked_id == blocked

abbrev pub is_mention_row : ℕ → ℕ → MentionRow → Bool
is_mention_row mid uid m = m.message_id == mid && m.user_id == uid
