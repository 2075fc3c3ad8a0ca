-- ===== src/Tui.antt =====
-- `AppModel` of internal/tui/app.go: what a session keeps, and what its program runs on. Layout and
-- rendering are left out, and so are the widgets: of the composer its text and its focus are kept.
pub mod Ui
pub mod Render
pub mod Channels
pub mod Chat
pub mod Events
pub mod Nav
pub mod Commands
pub mod Update
pub mod Register
pub mod Live
pub mod Process
use terminal_social.Common.{
  ℕ, Bool, true, false, ◌&&◌, List, [], ◌∷◌, Option, none, some, ◌==◌, if◌then◌else◌,
}
use terminal_social.Common.Sets.{mem}
use terminal_social.Text.{Bytes}
use terminal_social.Domain.{User, UserKey, Room, Member, Message, Notification}
use terminal_social.Store.Schema.{Db, MessageRow}
use terminal_social.Store.Exec.{Error, Result, Conn}
use terminal_social.Hub.{Hub, Event}

pub data ViewKind : Type 0 where
  view_room view_dm view_none : ViewKind

pub data Pane : Type 0 where
  pane_nav pane_chat pane_members : Pane

-- The keys of `messages`, `room:<id>` and `dm:<id>`, and the empty one.
pub data ChatKey : Type 0 where
  room_chat dm_chat : ℕ → ChatKey
  no_chat : ChatKey

-- What `flash` shows: a constructor for each sense, with the part of the text that varies.
pub data Notice : Type 0 where
  rate_limited not_member_here cannot_dm not_in_room usage no_such_room invalid_name : Notice
  private_room room_limit room_exists only_owner only_mods no_such_user dm_yourself : Notice
  bad_id not_found no_matches field_too_long bad_key key_is_yours key_is_taken : Notice
  left_room topic_updated reported deleted profile_updated no_notifications : Notice
  send_failed failed : Error → Notice
  joined_room created_room invited blocked_user unblocked_user key_added unknown applied :
      Bytes → Notice
  matches : ℕ → Notice
  whois : User → Bool → Notice
  keys : List (Bool × UserKey) → Notice
  notifications : List Notification → Notice

-- The commands that `Update` returns to the runtime.
pub data Cmd : Type 0 where
  idle quit listen tick : Cmd
  flash : Notice → Cmd

-- `Member` with its field `Online`.
pub record Shown : Type 0 where
  pub member : Member
  pub online : Bool

-- The interface calls `s.Ch` of a subscription by its number; 0 is nil.
pub record App : Type 0 where
  pub user : User
  pub rooms : List Room
  pub dm_peers : List User
  pub user_cache : List (ℕ × User)
  pub current : ViewKind
  pub current_room_id : ℕ
  pub current_peer_id : ℕ
  pub pane : Pane
  pub composer : Bytes
  pub focused : Bool
  pub messages : ChatKey → List Message
  pub cmd_history : List Bytes
  pub cmd_history_idx : ℕ
  pub members : List Shown
  pub online : List ℕ
  pub blocked : List ℕ
  pub unread_room : List (ℕ × ℕ)
  pub unread_dm : List (ℕ × ℕ)
  pub mention_room : List ℕ
  pub hub_sub : ℕ
  pub flash_line : Option Notice
  pub flash_until : ℕ
  pub help : Bool

-- What the rendering of a text takes from other libraries: `strings.ToLower`, `strings.EqualFold`, and
-- the two styles.
pub record Renderer : Type 0 where
  pub lower : Bytes → Bytes
  pub same_fold : Bytes → Bytes → Bool
  pub mention_style : Bytes → Bytes
  pub accent_style : Bytes → Bytes

-- The program with all that it changes: its own state, the store, the hub, the answers of the rate
-- limiter to the coming calls (true behind the end), and whether `OnDisconnect` has been called. `now`
-- is the second in which an event is handled.
pub record Screen : Type 0 where
  pub app : App
  pub renderer : Renderer
  pub conn : Conn
  pub hub : Hub
  pub quota : List Bool
  pub disconnected : Bool
  pub now : ℕ
  pub fingerprint : Bytes

pub data Key : Type 0 where
  ctrl_c esc question tab shift_tab pgup pgdown enter up down key_j key_k : Key
  other : ℕ → Key

-- What comes from other libraries: `strings.ToLower`, the full-text search and LIKE of SQLite, what a
-- key does to the text of the composer, and the parser of authorized keys with the fingerprint.
pub record Library : Type 0 where
  pub to_lower : Bytes → Bytes
  pub fts : Bytes → Db → Result (MessageRow → Bool)
  pub like : Bytes → MessageRow → Bool
  pub edit : Key → Bytes → Bytes
  pub parse_key : Bytes → Option (Bytes × Bytes)

abbrev pub same_chat : ChatKey → ChatKey → Bool
same_chat (room_chat a) (room_chat b) = a == b
same_chat (dm_chat a) (dm_chat b) = a == b
same_chat no_chat no_chat = true
same_chat (room_chat a) (dm_chat b) = false
same_chat (room_chat a) no_chat = false
same_chat (dm_chat a) (room_chat b) = false
same_chat (dm_chat a) no_chat = false
same_chat no_chat (room_chat b) = false
same_chat no_chat (dm_chat b) = false

-- `m.messages[key] = v`.
abbrev pub put_chat : ChatKey → List Message → (ChatKey → List Message) → ChatKey → List Message
put_chat key v m k = if same_chat k key then v else m k

abbrev pub key_of : ViewKind → ℕ → ℕ → ChatKey
key_of view_room rid pid = room_chat rid
key_of view_dm rid pid = dm_chat pid
key_of view_none rid pid = no_chat

-- `curKey`.
abbrev pub cur_key : App → ChatKey
cur_key a = key_of a.current a.current_room_id a.current_peer_id

abbrev pub is_room : ViewKind → Bool
is_room view_room = true
is_room view_dm = false
is_room view_none = false

abbrev pub is_dm : ViewKind → Bool
is_dm view_room = false
is_dm view_dm = true
is_dm view_none = false

-- `m.current == viewRoom && m.currentRoomID == rid`.
abbrev pub shows_room : ℕ → App → Bool
shows_room rid a = is_room a.current && a.current_room_id == rid

abbrev pub shows_dm : ℕ → App → Bool
shows_dm pid a = is_dm a.current && a.current_peer_id == pid

-- `NewAppModel`.
abbrev pub new_app : User → App
new_app u = record {
  user = u;
  rooms = [];
  dm_peers = [];
  user_cache = (u.id, u) ∷ [];
  current = view_none;
  current_room_id = 0;
  current_peer_id = 0;
  pane = pane_chat;
  composer = [];
  focused = true;
  messages = λ k. [];
  cmd_history = [];
  cmd_history_idx = 0;
  members = [];
  online = [];
  blocked = [];
  unread_room = [];
  unread_dm = [];
  mention_room = [];
  hub_sub = 0;
  flash_line = none;
  flash_until = 0;
  help = false;
}

-- `mem[i].Online = m.online[mem[i].UserID]`.
abbrev pub shown : List ℕ → Member → Shown
shown on m = record { member = m; online = mem m.user_id on }
