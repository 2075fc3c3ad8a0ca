-- ===== src/Lib.antt =====
-- terminal-social: a social network that is served as a terminal interface over SSH.
--
-- A session of internal/ssh runs the interface of internal/tui, which calls the store for everything
-- that lasts (internal/store over SQLite) and the hub for what other sessions have to hear
-- (internal/hub). The types and the treatment of texts that all of them share are internal/domain.
--
-- Which file models which part:
--   Text, Text/Utf8, Text/Trim     Go strings as lists of bytes, `[]rune(s)` and back, TrimRight
--   Domain                         the types and limits of internal/domain/types.go, DMKey
--   Domain/Names                   ValidHandle, ValidRoomName
--   Domain/Sanitize                SanitizeUserText and its three skipping helpers, by index
--   Domain/Sanitize/Automaton      an independent description of them: an automaton that reads a rune
--                                  once; Skips, Safe and Clean relate the two
--   Store/Schema                   the tables of internal/store/migrations/0001_init.sql
--   Store/Exec                     how a method runs: statements, queries, transactions, errors
--   Store/Users, Rooms, Blocks     the methods of internal/store/store.go under those headings
--   Store/Messages                 InsertRoomMessage, InsertDM, MessageByID, DeleteMessage; their
--                                  statements are in Rows, what is proved in Marks, Send, Guards,
--                                  Direct and Delete
--   Store/History                  RoomHistory, DMHistory, SearchRoom and their guarded variants
--                                  (Access, Order, Search)
--   Store/Notifications            notifications, unread counts and reports
--   Store/Mentions                 ParseMentions; `strings.ToLower` is a parameter
--   Store/Maintenance              PurgeDeletedOlderThan, ResolveHandles, DMPeers, Stats
--   Store/Faults                   what a failing driver brings about
--   Hub                            the hub of internal/hub/hub.go: Subscribe, Unsubscribe, JoinRoom,
--                                  LeaveRoom, RemoveUserFromRoom, PublishRoom, PublishUser, IsOnline
--   Hub/Consistency                the relation between its maps and the open channels (Sessions,
--                                  Reachable)
--   Rate                           the token buckets and the limiter of internal/rate/rate.go; Eviction
--                                  has the buckets that are dropped
--   Ssh                            teaHandler of internal/ssh/server.go; Sessions has the counter under
--                                  interleaved connections
--   Tui                            AppModel of internal/tui/app.go, its state and what it runs on
--   Tui/Ui                         how a handler runs: it may call the store, the hub and the limiter
--   Tui/Render                     renderHistory, renderMessage and highlightMentions; Slices has its
--                                  panic
--   Tui/Channels, Chat, Events     opening rooms and conversations, sendCurrent, handleHubEvent
--   Tui/Nav, Update                the list of channels; Update with its keys
--   Tui/Commands                   runSlash of internal/tui/commands.go by groups of commands (Rooms,
--                                  People, Texts)
--   Tui/Register                   the registration of internal/tui/register.go
--   Tui/Live                       what every handler keeps: a rule for each way to build one, then the
--                                  handlers in the order of the modules above
--   Tui/Process                    all sessions of the process, with one store and one hub; Safety
--   Text/Words, Text/Numbers       TrimSpace, Fields, HasPrefix, Join and ParseInt of Go
--   Common/Sets                    Go's maps and sets as lists
--   Tests                          the theorems at a small database and a small hub
--
-- State and operations. The database `Db` is a record of tables, a table the list of its rows in order
-- of insertion. SQL statements are functions on `Db` that check the keys and foreign keys of the
-- schema. A method of `Store` keeps its name (InsertRoomMessage is `insert_room_message`) and is an
-- `Action`: a function from a connection to a result, or an error, and the connection behind it. A
-- connection holds, besides the tables, which of the coming calls of the database fail; theorems either
-- take an arbitrary connection, or a `quiet` one, where no call fails. `BeginTx`, `Commit` and the
-- deferred `Rollback` are `transaction`. The time `time.Now().Unix()` is the argument `now`.
--
-- The hub keeps the maps of the source; a subscription is a number, its channel a list of events with
-- room for 64. An operation takes the hub to the next one, or to none where the source panics. Each
-- runs to its end before the next begins. `PublishRoom` is modelled in steps as well, as a `Publisher`,
-- whose first step copies the subscriptions under the mutex and whose others send.
--
-- Bounds and fuel. Identifiers and times are natural numbers; row ids of SQLite start at 1 and the code
-- does no arithmetic on them. The loops of the sanitizer take the number of runes as fuel, which is
-- enough because each turn moves the index forward; the automaton takes none.
--
-- The interface. A session is a `Screen`: the fields of AppModel, the connection to the store, the hub,
-- the answers of the rate limiter to come, and the second `now` in which an event is handled. A handler is
-- a `Ui`: it takes a screen to a value and the next screen, or to a `Crash` where the source panics:
-- `bad_slice` for a slice out of range in `highlightMentions`, `fault` for any other (a send on a closed
-- channel, an index out of range, a nil pointer). `render_history` looks at every text that is shown and
-- keeps nothing of what it writes. A nil subscription is 0. `flash` returns a `Notice`, a constructor for
-- each sense of its texts. A `Process` holds the programs of all connections over one store and one hub.
-- In the source they run on goroutines of their own; here a handler runs to its end before the next
-- begins. A program handles a message whether it has asked to quit or not, and theorems say where they
-- leave out the messages behind `Quit`.
--
-- The limits. float64, in which the buckets of internal/rate count tokens, is a parameter of the model
-- with its operations; the theorem about the limiter says what it takes of it. Connections of the SSH
-- server move in steps that are interleaved in any order.
--
-- What is not modelled: SQLite's full-text search and LIKE (parameters of `search_room`), the contents
-- of driver errors, an error in the middle of reading rows, the columns `last_read_msg_id`,
-- `resolved_at` and `resolved_by`, which no statement names; and, of the program, layout and what the
-- screen looks like, the widgets of the composer and of the text field (what a key does to a text is a
-- parameter), the setup of the SSH server, the fingerprints of internal/auth, the command-line tools
-- and the configuration, most of which are calls of other libraries.
pub mod Common
pub mod Text
pub mod Domain
pub mod Store
pub mod Hub
pub mod Rate
pub mod Ssh
pub mod Tui
pub mod Tests
