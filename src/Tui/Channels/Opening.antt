-- ===== src/Tui/Channels/Opening.antt =====
-- What a session shows once it has opened a room, and what it has read.
use terminal_social.Common.{
  ℕ, ◌≡◌, refl, ap, sym, subst, ◌∙◌, arith, Bool, true, not, ◌&&◌, List, [], ◌==◌, ==_self,
  if◌then◌else◌,
}
use terminal_social.Common.Records.Order.{All}
use terminal_social.Common.Sets.{mem, remove, mem-remove, at, erase, at-erase}
use terminal_social.Domain.{Member, Message}
use terminal_social.Store.Schema.{Db}
use terminal_social.Store.Exec
use terminal_social.Store.Exec.{Result, ok, err, Conn, quiet, pure, fail, statement, query}
use terminal_social.Store.Rooms.{is_member, require_member, room_members, room_members_for_user}
use terminal_social.Store.History.{room_history, room_history_for_user}
use terminal_social.Store.History.Access.{IsInRoom, room_history_for_user-guard}
use terminal_social.Store.Notifications.{mark_room_read}
use terminal_social.Store.Notifications.Unread.{unread_in, mark_room_read-unread}
use terminal_social.Tui.Render.{renders, render_history}
use terminal_social.Tui.{App, Screen, cur_key, room_chat, shows_room, view_room}
use terminal_social.Tui.Ui.{ran, give, call, look, change, ◌>>=◌, value_or}
use terminal_social.Tui.Channels.{keep_members, refresh_members, show_history, open_room}

history_quiet :
    (uid rid limit : ℕ) (db : Db) → (room_history_for_user uid rid limit (quiet db)).1 ≡ quiet db
unfolding room_history_for_user require_member is_member room_history Exec.◌>>=◌ pure fail query
    statement
history_quiet uid rid limit db = ground arith

members_quiet : (uid rid : ℕ) (db : Db) → (room_members_for_user uid rid (quiet db)).1 ≡ quiet db
unfolding room_members_for_user require_member is_member room_members Exec.◌>>=◌ pure fail query
    statement
members_quiet uid rid db = ground arith

-- The texts that are shown were sent to the room, or there are none.
history-All :
    (uid rid limit : ℕ) (c : Conn) (r : Result (List Message))
    → (room_history_for_user uid rid limit c).0 ≡ r
    → All (IsInRoom rid) (value_or [] r)
history-All uid rid limit c (err e) h = tt
history-All uid rid limit c (ok ms) h =
    (room_history_for_user-guard uid rid limit c (room_history_for_user uid rid limit c).1 ms (
      ap
        (λ (x : Result (List Message)).
          let y : Result (List Message) × Conn = (x, (room_history_for_user uid rid limit c).1) in
          y)
        h)).1

-- The fields that the list of members leaves alone.
abbrev rest_of : App → App
rest_of a = record a { members = [] }

keep_members-rest : (r : Result (List Member)) (a : App) → rest_of (keep_members r a) ≡ rest_of a
keep_members-rest (ok ms) a = refl
keep_members-rest (err e) a = refl

-- On a driver that does not fail, if the history that is read for the user can be rendered, `openRoom`
-- does not panic, and shows the room, with texts that were
-- all sent to it. Its unread count and its mark of a mention are gone, those of other rooms stay, and
-- in the store the user has no unread mention left in the room.
pub open_room_lem :
    (rid : ℕ) (db : Db) (s : Screen)
    → s.conn ≡ quiet db
    → renders s.renderer s.app.user.handle s.app.blocked
        (value_or [] (room_history_for_user s.app.user.id rid 200 s.conn).0)
      ≡ true
    → (t : Screen) × (open_room rid s ≡ ran (tt, t))
      × (shows_room rid t.app ≡ true)
      × All (IsInRoom rid) (t.app.messages (room_chat rid))
      × ((r : ℕ) → at 0 r t.app.unread_room ≡ (if r == rid then 0 else at 0 r s.app.unread_room))
      × ((r : ℕ) → mem r t.app.mention_room ≡ (mem r s.app.mention_room && not (r == rid)))
      × (unread_in s.app.user.id rid t.conn.db ≡ 0)
unfolding open_room refresh_members ◌>>=◌ give call look change render_history
open_room_lem rid db s quiet_ can =
    let uid = s.app.user.id in
    let hist = room_history_for_user uid rid 200 s.conn in
    let ms = room_members_for_user uid rid hist.1 in
    let a =
      show_history hist.0
        (record (s.app) { current = view_room; current_room_id = rid; current_peer_id = 0 }) in
    let same : rest_of (keep_members ms.0 a) ≡ rest_of a = keep_members-rest ms.0 a in
    let b = keep_members ms.0 a in
    let texts : App → Bool =
      λ b. renders s.renderer b.user.handle b.blocked (b.messages (cur_key b)) in
    let shown : texts (keep_members ms.0 a) ≡ true = ap texts same ∙ rw (==_self rid) can in
    let calm : ms.1 ≡ quiet db =
      ap (λ c. (room_members_for_user uid rid c).1)
        (ap (λ c. (room_history_for_user uid rid 200 c).1) quiet_ ∙ history_quiet uid rid 200 db)
      ∙ members_quiet uid rid db in
    let (db', e, none_left, others) = mark_room_read-unread s.now uid rid db in
    (
      record s {
        app = record b {
          unread_room = erase rid b.unread_room;
          mention_room = remove rid b.mention_room;
        };
        conn = (mark_room_read s.now uid rid ms.1).1;
      },
      rw shown refl,
      ap (shows_room rid) same ∙ ==_self rid,
      subst (λ (b : App). All (IsInRoom rid) (b.messages (room_chat rid))) (sym same)
          (rw (==_self rid) (history-All uid rid 200 s.conn hist.0 refl)),
      λ r.
          ap (λ (b : App). at 0 r (erase rid b.unread_room)) same
          ∙ at-erase 0 r rid s.app.unread_room,
      λ r.
          ap (λ (b : App). mem r (remove rid b.mention_room)) same
          ∙ mem-remove rid r s.app.mention_room,
      ap (λ c. unread_in uid rid (mark_room_read s.now uid rid c).1.db) calm
          ∙ ap (λ (x : Result (Unit {0}) × Conn). unread_in uid rid x.1.db) e
          ∙ none_left,
    )
