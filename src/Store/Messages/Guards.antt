-- ===== src/Store/Messages/Guards.antt =====
-- Who may send, and what a failed send leaves behind, whatever the driver does.
use terminal_social.Common.{ℕ, ◌≢◌, ◌≡◌, ap, sym, ◌∙◌, true, false, List, arith, any_row}
use terminal_social.Common.Records.Laws.{find_row-some, length-select}
use terminal_social.Text.{Bytes}
use terminal_social.Domain.{User, Message}
use terminal_social.Domain.Sanitize.{sanitize_user_text}
use terminal_social.Store.Schema.{user_exists, is_member_row, is_ban_row, is_block_row}
use terminal_social.Store.Exec.{Error, Result, ok, err, Conn, attempt}
use terminal_social.Store.Exec.Atomic.{
  RestoresOn, IsRefusal, ReadOnly-query, ReadOnly-reject, Restores-bind, Restores-then,
  Restores-transaction, Avoids-query, Avoids-bind, Avoids-pure,
}
use terminal_social.Store.Exec.Inversion.{
  attempt-ok, or_no_rows-ok, query-ok, >>=-ok, query-then, reject-then,
}
use terminal_social.Store.Users.{user_by_id}
use terminal_social.Store.Blocks.{is_blocked}
use terminal_social.Store.Rooms.{require_member, count_bans}
use terminal_social.Store.Rooms.Tables.{require_member-ok, ReadOnly-require_member}
use terminal_social.Store.Messages.{
  message_by_id, is_empty, is_error, store_room_message, insert_room_message, insert_dm,
}

-- Whatever calls of the database fail on the way: a room message that is accepted comes from a user
-- who, before the call, was a member of the room and not banned from it, and its sanitized text is
-- not empty.
pub insert_room_message-guard :
    (now rid author : ℕ) (body : Bytes) (mentions : List ℕ) (c c' : Conn) (r : Message × List ℕ)
    → insert_room_message now rid author body mentions c ≡ (ok r, c')
    → (any_row (is_member_row rid author) c.db.room_members ≡ true)
      × (any_row (is_ban_row rid author) c.db.room_bans ≡ false)
      × (is_empty (sanitize_user_text body) ≡ false)
unfolding insert_room_message count_bans
insert_room_message-guard now rid author body mentions c c' r h =
    let (a1, c1, first, h1) = >>=-ok (require_member rid author) _ c c' r h in
    let (joined, same1) = require_member-ok rid author c c1 a1 first in
    let (n, c2, counted, same2, h2) = query-then _ _ c1 c' r h1 in
    let (free, h3) = reject-then _ _ _ c2 c' r h2 in
    let (text, h4) = reject-then _ _ _ c2 c' r h3 in
    (
      joined,
      sym (length-select (is_ban_row rid author) c.db.room_bans)
          ∙ ground (arith, counted, free, same1),
      text,
    )

Restores-store_room_message :
    (now rid author : ℕ) (body : Bytes) (mentions : List ℕ)
    → RestoresOn IsRefusal (store_room_message now rid author body mentions)
unfolding store_room_message message_by_id
Restores-store_room_message now rid author body mentions =
    Restores-then IsRefusal _ _ (Restores-transaction IsRefusal _)
      (λ a. Avoids-bind IsRefusal _ _ (Avoids-query _) (λ m. Avoids-pure IsRefusal _))

-- Whatever calls of the database fail on the way: a room message that is refused by an error which
-- the code itself makes (neither the driver's nor a missing row) has changed no table.
pub insert_room_message-refused :
    (now rid author : ℕ) (body : Bytes) (mentions : List ℕ) (c c' : Conn) (e : Error)
    → insert_room_message now rid author body mentions c ≡ (err e, c')
    → IsRefusal e
    → c'.db ≡ c.db
unfolding insert_room_message count_bans
insert_room_message-refused now rid author body mentions c c' e h p =
    sym (ap (λ (r : Result (Message × List ℕ) × Conn). r.1.db) h)
    ∙ (Restores-bind IsRefusal _ _ (ReadOnly-require_member rid author) (λ a.
          Restores-bind IsRefusal _ _ (ReadOnly-query _) (λ n.
            Restores-bind IsRefusal _ _ (ReadOnly-reject _ _) (λ _.
              Restores-bind IsRefusal _ _ (ReadOnly-reject _ _)
                (λ _. Restores-store_room_message now rid author _ mentions))))).at
        c e (ap (λ (r : Result (Message × List ℕ) × Conn). r.0) h) p

user_by_id-known :
    (uid : ℕ) (c c' : Conn) (r : Result User)
    → user_by_id uid c ≡ (r, c')
    → is_error r ≡ false
    → (user_exists uid c.db ≡ true) × (c'.db ≡ c.db)
unfolding user_by_id
user_by_id-known uid c c' (err e) h k = absurd (ground (arith, k))
user_by_id-known uid c c' (ok u) h k =
    let (found, same) = query-ok _ c c' u h in
    ((find_row-some _ c.db.users u (or_no_rows-ok _ u found)).1, same)

-- Whatever calls of the database fail on the way: a direct message that is accepted goes from one user
-- to another, the recipient exists and had not blocked the author, and the sanitized text is not
-- empty.
pub insert_dm-guard :
    (now author peer : ℕ) (body : Bytes) (c c' : Conn) (m : Message)
    → insert_dm now author peer body c ≡ (ok m, c')
    → (author ≢ peer)
      × (user_exists peer c.db ≡ true)
      × (any_row (is_block_row peer author) c.db.blocks ≡ false)
      × (is_empty (sanitize_user_text body) ≡ false)
unfolding insert_dm user_by_id is_blocked
insert_dm-guard now author peer body c c' m h =
    let (other, h1) = reject-then _ _ _ c c' m h in
    let (r, c1, asked, h2) = >>=-ok (attempt (user_by_id peer)) _ c c' m h1 in
    let (known, h3) = reject-then _ _ _ c1 c' m h2 in
    let (there, same1) = user_by_id-known peer c c1 r (attempt-ok _ c c1 r asked) known in
    let (b, c2, looked, same2, h4) = query-then _ _ c1 c' m h3 in
    let (open_, h5) = reject-then _ _ _ c2 c' m h4 in
    let (text, h6) = reject-then _ _ _ c2 c' m h5 in
    (
      ground (arith, other),
      there,
      sym (length-select (is_block_row peer author) c.db.blocks)
          ∙ ground (arith, looked, open_, same1),
      text,
    )
