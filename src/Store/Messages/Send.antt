-- ===== src/Store/Messages/Send.antt =====
-- `InsertRoomMessage` as a whole.
use terminal_social.Common.{
  ℕ, ◌≡◌, refl, ap, ◌∙◌, true, false, List, [], ◌∷◌, ◌++◌, some, arith, ◌==◌, length, any_row,
  select, find_row,
}
use terminal_social.Common.Records.Laws.{any_row-append, find_row-append, length-select}
use terminal_social.Text.{Bytes}
use terminal_social.Domain.{User, Message}
use terminal_social.Domain.Sanitize.{sanitize_user_text}
use terminal_social.Store.Schema.{
  Db, MessageRow, next_id, user_exists, room_exists, is_member_row, is_ban_row,
}
use terminal_social.Store.Schema.Keys.{next_id-fresh}
use terminal_social.Store.Exec.{
  ok, quiet, pure, fail, statement, query, transaction, ◌>>=◌, or_no_rows,
}
use terminal_social.Store.Exec.Inversion.{
  reject-pass, >>=-step, transaction-quiet, statement-quiet, query-quiet,
}
use terminal_social.Store.Rooms.{is_member, require_member, count_bans}
use terminal_social.Store.Rooms.Tables.{known_member-find_row}
use terminal_social.Store.Messages.{
  room_message, insert_message, message_of, stored_message, message_by_id, clip, is_empty,
  notify_mentions, room_message_tx, store_room_message, insert_room_message,
}
use terminal_social.Store.Messages.Marks.{
  recipients, mark_all, mark_all-messages, CanMark, notify_mentions_lem,
}

-- The author may write: he is a member and not banned, and the foreign keys of the members and of the
-- room hold.
pub record CanSend (rid author : ℕ) (db : Db) : Type 0 where
  pub joined : any_row (is_member_row rid author) db.room_members ≡ true
  pub free : any_row (is_ban_row rid author) db.room_bans ≡ false
  pub members :
      (uid : ℕ) → any_row (is_member_row rid uid) db.room_members ≡ true → user_exists uid db ≡ true
  pub room : room_exists rid db ≡ true

-- The tables with one more message.
abbrev pub posted : MessageRow → Db → Db
posted row db = record db { messages = db.messages ++ row ∷ [] }

abbrev pub next_message : Db → ℕ
next_message db = next_id (λ (m : MessageRow). m.id) db.messages

find_row-posted :
    (row : ℕ → MessageRow) (ms : List MessageRow)
    → let mid = next_id (λ (m : MessageRow). m.id) ms in
      (row mid).id ≡ mid → find_row (λ m. m.id == mid) (ms ++ row mid ∷ []) ≡ some (row mid)
find_row-posted row ms same =
    find_row-append _ ms _ (next_id-fresh (λ (m : MessageRow). m.id) ms) ∙ ground (arith, same)

-- A new message is read back with its author's handle.
pub stored_message-posted :
    (row : ℕ → MessageRow) (db db' : Db) (u : User)
    → ((n : ℕ) → (row n).id ≡ n)
    → db'.messages ≡ db.messages ++ row (next_message db) ∷ []
    → db'.users ≡ db.users
    → find_row (λ u. u.id == (row (next_message db)).author_id) db.users ≡ some u
    → stored_message (next_message db) db' ≡ some (message_of (row (next_message db)) u.handle)
stored_message-posted row db db' u same new users found = ground (
  arith,
  ap (find_row (λ m. m.id == next_message db)) new,
  find_row-posted row db.messages (same _),
  ap (find_row (λ v. v.id == (row (next_message db)).author_id)) users,
  found,
)

require_member_lem :
    (rid uid : ℕ) (db : Db)
    → any_row (is_member_row rid uid) db.room_members ≡ true
    → require_member rid uid (quiet db) ≡ (ok tt, quiet db)
unfolding require_member is_member ◌>>=◌ pure fail query statement
require_member_lem rid uid db h = ground (arith, h, known_member-find_row rid uid db.room_members)

posted-CanMark :
    (rid author : ℕ) (body : Bytes) (now : ℕ) (db : Db)
    → CanSend rid author db
    → CanMark rid (next_message db) (posted (room_message rid author body now (next_message db)) db)
posted-CanMark rid author body now db h = record {
  members = h.members;
  room = h.room;
  message =
      any_row-append _ db.messages _
      ∙ ground (arith, next_id-fresh (λ (m : MessageRow). m.id) db.messages);
}

room_message_tx_lem :
    (now rid author : ℕ) (body : Bytes) (mentions : List ℕ) (db : Db)
    → CanSend rid author db
    → let mid = next_message db in
      let db1 = posted (room_message rid author body now mid) db in
      room_message_tx now rid author body mentions (quiet db) ≡ (
        ok (mid, recipients rid author db mentions),
        quiet (mark_all now rid mid db1 (recipients rid author db mentions)),
      )
room_message_tx_lem now rid author body mentions db h =
    unfold room_message_tx in
    >>=-step (statement (insert_message (room_message rid author body now))) _ (quiet db)
      (quiet (posted (room_message rid author body now (next_message db)) db)) (next_message db)
      (statement-quiet _ db _ _ (ground (arith, h.room, h.members author h.joined)))
    ∙ >>=-step (notify_mentions now rid author (next_message db) mentions) _ _ _ _ (
        notify_mentions_lem now rid author (next_message db) mentions _
          (posted-CanMark rid author body now db h))
    ∙ (unfold pure in refl)

pub message_by_id_lem :
    (mid : ℕ) (db : Db) (m : Message)
    → stored_message mid db ≡ some m
    → message_by_id mid (quiet db) ≡ (ok m, quiet db)
unfolding message_by_id
message_by_id_lem mid db m h = query-quiet _ db m (ap or_no_rows h)

count_bans_lem :
    (rid uid : ℕ) (db : Db)
    → count_bans rid uid (quiet db)
      ≡ (ok (length (select (is_ban_row rid uid) db.room_bans)), quiet db)
unfolding count_bans
count_bans_lem rid uid db = query-quiet _ db _ refl

store_room_message_lem :
    (now rid author : ℕ) (body : Bytes) (mentions : List ℕ) (db : Db) (u : User)
    → CanSend rid author db
    → find_row (λ v. v.id == author) db.users ≡ some u
    → let row = room_message rid author body now (next_message db) in
      let notified = recipients rid author db mentions in
      store_room_message now rid author body mentions (quiet db) ≡ (
        ok (message_of row u.handle, notified),
        quiet (mark_all now rid (next_message db) (posted row db) notified),
      )
store_room_message_lem now rid author body mentions db u h found =
    unfold store_room_message in
    (>>=-step (transaction (room_message_tx now rid author body mentions)) _ (quiet db)
        (quiet after) (next_message db, notified)
        (transaction-quiet _ db after _ (room_message_tx_lem now rid author body mentions db h))
      ∙ >>=-step (message_by_id (next_message db)) _ (quiet after) (quiet after)
          (message_of (room_message rid author body now (next_message db)) u.handle)
          (message_by_id_lem (next_message db) after _ (
            stored_message-posted (room_message rid author body now) db after u (λ n. refl) kept.0
              kept.1 found))
      ∙ (unfold pure in refl))
  where
    notified : List ℕ
    notified = recipients rid author db mentions

    after : Db
    after =
        mark_all now rid (next_message db)
          (posted (room_message rid author body now (next_message db)) db) notified

    kept :
        (after.messages ≡ db.messages ++ room_message rid author body now (next_message db) ∷ [])
        × (after.users ≡ db.users)
    kept = mark_all-messages now rid (next_message db) _ notified

-- On a driver that does not fail, a member who is not banned and whose text is not empty once it is
-- sanitized gets his message stored: one row under the next id with the sanitized text cut to 2000
-- bytes; a mention and a notification for each mentioned member but the author, in the order of the
-- mentions, and for nobody else; no other table changes. The call returns the stored message with the
-- author's handle and the list of those notified.
pub insert_room_message_lem :
    (now rid author : ℕ) (body : Bytes) (mentions : List ℕ) (db : Db) (u : User)
    → CanSend rid author db
    → find_row (λ v. v.id == author) db.users ≡ some u
    → is_empty (sanitize_user_text body) ≡ false
    → let row = room_message rid author (clip (sanitize_user_text body)) now (next_message db) in
      let notified = recipients rid author db mentions in
      insert_room_message now rid author body mentions (quiet db) ≡ (
        ok (message_of row u.handle, notified),
        quiet (mark_all now rid (next_message db) (posted row db) notified),
      )
insert_room_message_lem now rid author body mentions db u h found text =
    unfold insert_room_message in
    (>>=-step (require_member rid author) _ (quiet db) (quiet db) tt
        (require_member_lem rid author db h.joined)
      ∙ >>=-step (count_bans rid author) _ (quiet db) (quiet db) _ (count_bans_lem rid author db)
      ∙ reject-pass _ _ _ (quiet db) (length-select (is_ban_row rid author) db.room_bans ∙ h.free)
      ∙ reject-pass _ _ _ (quiet db) text
      ∙ store_room_message_lem now rid author (clip (sanitize_user_text body)) mentions db u h
          found)
