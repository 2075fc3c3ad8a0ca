-- ===== src/Tests/Interface.antt =====
-- A session of the interface: user 5 on the hub, and alice and bob in the small database.
use terminal_social.Common.{
  ℕ, ◌⊎◌, drop, ◌+◌, ◌≡◌, refl, arith, true, false, not, ◌&&◌, [], ◌∷◌, ◌++◌, none, some, ◌==◌,
  if◌then◌else◌,
}
use terminal_social.Common.Records.Order.{All}
use terminal_social.Common.Sets.{mem, at, put}
use terminal_social.Text.{Bytes, codes}
use terminal_social.Domain.{Message, room}
use terminal_social.Store.Exec.{db_error, err, quiet}
use terminal_social.Store.Users.{new_user}
use terminal_social.Store.History.Access.{IsInRoom}
use terminal_social.Store.Notifications.Unread.{unread_in}
use terminal_social.Hub.{Hub, is_open}
use terminal_social.Hub.Consistency.Reachable.{Reachable-IsConsistent}
use terminal_social.Tui.{
  App, Screen, Renderer, Library, Cmd, new_app, room_chat, view_room, shows_room, enter,
}
use terminal_social.Text.{bytes_eq}
use terminal_social.Text.Words.{has_prefix}
use mathlib.Core.List.{filter_map}
use terminal_social.Store.Exec
use terminal_social.Store.Exec.{pure, fail, query, statement}
use terminal_social.Store.Rooms.{require_member, is_member}
use terminal_social.Store.History.{room_history_for_user, room_history, with_authors}
use terminal_social.Store.Mentions.{parse_mentions, find_handles, keep_new, name_prefix, has_handle}
use terminal_social.Tui.Render.Slices.{highlight_mentions-panics}
use terminal_social.Tui.Render.{renders, render_message, highlight_mentions, mark_all, mark}
use terminal_social.Tui.Ui.{ran, crashed, bad_slice, value_or}
use terminal_social.Hub.{subscribe, opened, broadcast_presence, in_rooms, send_all, send}
use terminal_social.Store.Rooms.{list_user_rooms, room_members_for_user, room_members}
use terminal_social.Store.Blocks.{blocked_ids}
use terminal_social.Store.Maintenance.{dm_peers}
use terminal_social.Store.Notifications.{count_unread, unread_counts, mark_room_read}
use terminal_social.Tui.Ui
use terminal_social.Tui.Chat.{room_msg_event}
use terminal_social.Store.Schema.{next_id}
use terminal_social.Tui.Ui.{give, call, look, change, tell}
use terminal_social.Tui.Render.{render_history}
use terminal_social.Tui.Channels.{
  open_room, init, refresh_rooms, refresh_dm_peers, refresh_blocks, refresh_unread, listen_hub,
  join_rooms, refresh_members, add_peers, add_all, counted_rooms, cached_user,
}
use terminal_social.Tui.Channels.Opening.{open_room_lem}
use terminal_social.Tui.Events.Unread.{CanShow, hear_all, events_for, counts, hear_all-unread}
use terminal_social.Tui.Update.{key, hub_event, update}
use terminal_social.Tui.Live.{IsLive, Subs}
use terminal_social.Tui.Live.Session.{Ends}
use terminal_social.Tui.Live.Keys.{update-Ends}
use terminal_social.Tui.Process.{Process, Move, begins, hears, move, started}
use terminal_social.Tui.Process.Safety.{IsServed, allowed, start, step, move-IsServed}
use terminal_social.Tests.World.{alice, world}
use terminal_social.Tests.Sessions.{in_a_room, in_a_room-Reachable}

abbrev pub lib : Library
lib = record {
  to_lower = λ b. b;
  fts = λ q db. err db_error;
  like = λ q m. false;
  edit = λ k b. b;
  parse_key = λ b. none;
}

abbrev unchanged : Bytes → Bytes
unchanged b = b

abbrev pub renderer : Renderer
renderer = record {
  lower = unchanged;
  same_fold = λ a b. false;
  mention_style = unchanged;
  accent_style = unchanged;
}

abbrev pub screen_of : App → Hub → Screen
screen_of a h = record {
  app = a;
  conn = quiet world;
  hub = h;
  renderer = renderer;
  quota = [];
  disconnected = false;
  now = 200;
  fingerprint = codes "fp";
}

-- User 5 has typed a command that ends the session.
abbrev leaving : Screen
leaving =
    screen_of
      (record (new_app (new_user 5 (codes "erin") 100)) { hub_sub = 1; composer = codes "/quit" })
      in_a_room

abbrev first_sub : Subs
first_sub = record { own = 1; was = λ t. is_open t in_a_room.channels }

leaving-IsLive : IsLive first_sub leaving
unfolding is_open
leaving-IsLive = record {
  consistent = Reachable-IsConsistent in_a_room in_a_room-Reachable;
  own = refl;
  named = refl;
  open_sub = refl;
  others = λ t n. refl;
  index = omega arith;
}

update-Ends_example :
    ((c : Cmd) × (t : Screen) × (update lib (key enter) leaving ≡ ran (c, t)) × Ends first_sub c t)
    ⊎ (update lib (key enter) leaving ≡ crashed bad_slice)
update-Ends_example = update-Ends lib (key enter) first_sub leaving tt leaving-IsLive

abbrev alice_screen : Screen
alice_screen =
    screen_of (record (new_app alice) { unread_room = (1, 2) ∷ []; mention_room = 1 ∷ [] })
      in_a_room

abbrev greeting : Message
greeting = record {
  id = 2;
  kind = room;
  room_id = some 1;
  dm_peer_a = none;
  dm_peer_b = none;
  author_id = 2;
  author = codes "bob";
  body = codes "hi @alice";
  created_at = 200;
  deleted = false;
}

-- Alice connects.
abbrev nobody : Process
nobody = started renderer (quiet world)

abbrev alice_begins : Move
alice_begins = begins 200 0 alice [] (codes "fp1")

abbrev begun : Process
begun = elim (move lib alice_begins nobody) [ ran w ↦ w | crashed c ↦ nobody ]

-- Bob's message reaches her.
abbrev alice_hears : Move
alice_hears = hears 202 0 (hub_event (room_msg_event 1 greeting []))

begins_well : (move lib alice_begins nobody ≡ ran begun) × (allowed alice_hears begun ≡ true)
unfolding move init refresh_rooms refresh_dm_peers refresh_blocks refresh_unread listen_hub
    join_rooms open_room refresh_members render_history Ui.◌>>=◌ give call look change tell
    add_peers add_all counted_rooms cached_user list_user_rooms room_history_for_user require_member
    is_member room_history with_authors dm_peers blocked_ids unread_counts room_members_for_user
    room_members mark_room_read pure fail query statement Exec.◌>>=◌ filter_map renders
    render_message highlight_mentions mark_all mark parse_mentions find_handles keep_new name_prefix
    has_handle bytes_eq has_prefix mem subscribe opened broadcast_presence in_rooms send_all send at
    put count_unread next_id allowed
begins_well = (refl, refl)

move-IsServed_example :
    ((w' : Process) × (move lib alice_hears begun ≡ ran w') × IsServed w')
    ⊎ (move lib alice_hears begun ≡ crashed bad_slice)
unfolding allowed
move-IsServed_example =
    move-IsServed lib begun alice_hears
      (step alice_begins (start renderer (quiet world)) tt refl begins_well.0) (greeting, refl)
      begins_well.1

-- Alice is looking at the room, and her count of it rises.
abbrev looking : Screen
looking = record alice_screen {
  app = record (alice_screen.app) { current = view_room; current_room_id = 1 };
}

greeting-CanShow : CanShow 1 greeting looking
unfolding renders render_message highlight_mentions mark_all mark parse_mentions find_handles
    keep_new name_prefix has_handle bytes_eq has_prefix mem
greeting-CanShow shown = refl

-- Lowering makes the first letter longer, and then the handle is sought behind the end of the text.
abbrev lower_letter : Bytes → Bytes
lower_letter bs = if has_prefix (200 ∷ 186 ∷ []) bs then 226 ∷ 177 ∷ 165 ∷ drop 2 bs else bs

abbrev odd_renderer : Renderer
odd_renderer = record renderer { lower = lower_letter }

abbrev long_letter : Bytes
long_letter = 200 ∷ 186 ∷ codes " @bob"

highlight_mentions-panics_example : highlight_mentions odd_renderer long_letter (codes "bob") ≡ none
unfolding parse_mentions find_handles keep_new name_prefix has_handle bytes_eq has_prefix mem
highlight_mentions-panics_example =
    highlight_mentions-panics odd_renderer long_letter (codes "bob") (226 ∷ 177 ∷ 165 ∷ codes " ")
      (codes "bob") [] refl refl (omega arith)

hear_all-unread_example :
    (t : Screen) × (hear_all (events_for 1 1 greeting (1 ∷ [])) looking ≡ ran (tt, t))
    × (t.app.messages (room_chat 1) ≡ looking.app.messages (room_chat 1) ++ greeting ∷ [])
    × ((r : ℕ)
        → at 0 r t.app.unread_room
          ≡ at 0 r looking.app.unread_room
            + (if r == 1
                then (if shows_room 1 looking.app then counts (mem 1 (1 ∷ [])) else 1)
                else 0))
hear_all-unread_example = hear_all-unread 1 greeting (1 ∷ []) looking greeting-CanShow

history-renders :
    renders renderer alice.handle [] (value_or [] (room_history_for_user 1 1 200 (quiet world)).0)
    ≡ true
unfolding renders render_message highlight_mentions mark_all mark parse_mentions find_handles
    keep_new name_prefix has_handle bytes_eq has_prefix mem room_history_for_user require_member
    is_member room_history with_authors pure fail query statement Exec.◌>>=◌ filter_map
history-renders = refl

open_room_lem_example :
    (t : Screen) × (open_room 1 alice_screen ≡ ran (tt, t))
    × (shows_room 1 t.app ≡ true)
    × All (IsInRoom 1) (t.app.messages (room_chat 1))
    × ((r : ℕ)
        → at 0 r t.app.unread_room ≡ (if r == 1 then 0 else at 0 r alice_screen.app.unread_room))
    × ((r : ℕ) → mem r t.app.mention_room ≡ (mem r alice_screen.app.mention_room && not (r == 1)))
    × (unread_in 1 1 t.conn.db ≡ 0)
open_room_lem_example = open_room_lem 1 world alice_screen refl history-renders
