-- ===== src/Domain.antt =====
-- internal/domain/types.go: the entities, the limits on their texts, and who is who in a direct
-- message. Times are Unix seconds, identifiers are unbounded numbers (SQLite's row ids start at 1).
pub mod Names
pub mod Sanitize
use terminal_social.Common.{ℕ, Bool, Option, none, some, ltb, if◌then◌else◌}
use terminal_social.Text.{Bytes, codes, bytes_eq}

pub record User : Type 0 where
  pub id : ℕ
  pub handle : Bytes
  pub display_name : Bytes
  pub bio : Bytes
  pub pronouns : Bytes
  pub is_admin : Bool
  pub is_suspended : Bool
  pub created_at : ℕ
  pub last_seen_at : Option ℕ

pub record UserKey : Type 0 where
  pub id : ℕ
  pub user_id : ℕ
  pub fingerprint : Bytes
  pub public_key : Bytes
  pub label : Bytes
  pub added_at : ℕ

pub record Room : Type 0 where
  pub id : ℕ
  pub name : Bytes
  pub topic : Bytes
  pub is_private : Bool
  pub created_by : ℕ
  pub created_at : ℕ

-- `RoleOwner`, `RoleModerator` and `RoleMember`; the schema admits no other role.
pub data Role : Type 0 where
  owner moderator member : Role

-- `Online` is set by the interface, not by the store.
pub record Member : Type 0 where
  pub user_id : ℕ
  pub handle : Bytes
  pub role : Role
  pub joined_at : ℕ

-- The two values of `Message.Kind`; the schema admits no other.
pub data MessageKind : Type 0 where
  room dm : MessageKind

pub record Message : Type 0 where
  pub id : ℕ
  pub kind : MessageKind
  pub room_id : Option ℕ
  pub dm_peer_a : Option ℕ
  pub dm_peer_b : Option ℕ
  pub author_id : ℕ
  pub author : Bytes
  pub body : Bytes
  pub created_at : ℕ
  pub deleted : Bool

-- The values of `Notification.Kind`; the schema admits no other.
pub data NotificationKind : Type 0 where
  mention_kind dm_kind invite_kind : NotificationKind

pub record Notification : Type 0 where
  pub id : ℕ
  pub user_id : ℕ
  pub kind : NotificationKind
  pub message_id : Option ℕ
  pub room_id : Option ℕ
  pub created_at : ℕ
  pub read : Bool

abbrev pub max_body : ℕ
max_body = 2000

abbrev pub max_handle_len : ℕ
max_handle_len = 20

abbrev pub max_room_name_len : ℕ
max_room_name_len = 32

abbrev pub max_topic_len : ℕ
max_topic_len = 200

abbrev pub max_display_name : ℕ
max_display_name = 40

abbrev pub max_bio : ℕ
max_bio = 280

abbrev pub max_pronouns : ℕ
max_pronouns = 20

-- The canonical pair of the two sides of a conversation.
unfoldable pub dm_key : ℕ → ℕ → ℕ × ℕ
dm_key u1 u2 = if ltb u1 u2 then (u1, u2) else (u2, u1)

-- A role as the text that the schema stores.
unfoldable pub parse_role : Bytes → Option Role
parse_role s =
    if bytes_eq s (codes "member")
    then some member
    else if bytes_eq s (codes "moderator")
    then some moderator
    else if bytes_eq s (codes "owner")
    then some owner
    else none
