-- ===== src/Store/Notifications/Reports.antt =====
-- Who may fetch or report a message.
use terminal_social.Common.{
  ℕ, ◌≡◌, refl, ap, subst, ◌∙◌, ◌⊎◌, true, Option, none, some, inl, inr, arith, ◌==◌, any_row,
  Bool-cases,
}
use terminal_social.Text.{Bytes, bytes_eq}
use terminal_social.Domain.{Message, MessageKind, room, dm}
use terminal_social.Domain.Sanitize.{sanitize_user_text}
use terminal_social.Store.Schema.{Db, is_member_row, message_target}
use terminal_social.Store.Exec.{ok, Conn}
use terminal_social.Store.Exec.Inversion.{
  query-then, >>=-ok, fail-ok, pure-ok, reject-ok, or_no_rows-ok, statement-ok,
}
use terminal_social.Store.Rooms.Tables.{require_member-ok}
use terminal_social.Store.Messages.{
  stored_message, message_by_id, read_room, read_dm, can_read_message, message_by_id_for_user,
}
use terminal_social.Store.Notifications.{
  parse_target, insert_report, report, report_message_for_user,
}

-- A member of the room that the message was sent to, or a side of the conversation.
abbrev pub CanRead : ℕ → Message → Db → Type 0
CanRead uid m db =
    ((m.kind ≡ room)
      × ((r : ℕ) × (m.room_id ≡ some r) × (any_row (is_member_row r uid) db.room_members ≡ true)))
    ⊎ ((m.kind ≡ dm) × ((m.dm_peer_a ≡ some uid) ⊎ (m.dm_peer_b ≡ some uid)))

MessageKind-cases : (k : MessageKind) → (k ≡ room) ⊎ (k ≡ dm)
MessageKind-cases room = inl refl
MessageKind-cases dm = inr refl

can_read_room-ok :
    (uid : ℕ) (o : Option ℕ) (c c' : Conn) (a : Unit {0})
    → read_room uid o c ≡ (ok a, c')
    → ((r : ℕ) × (o ≡ some r) × (any_row (is_member_row r uid) c.db.room_members ≡ true))
      × (c'.db ≡ c.db)
can_read_room-ok uid none c c' a h = absurd (fail-ok _ a c c' h)
can_read_room-ok uid (some r) c c' a h =
    let (joined, same) = require_member-ok r uid c c' a h in ((r, refl, joined), same)

can_read_dm-ok :
    (uid : ℕ) (o p : Option ℕ) (c c' : Conn) (a : Unit {0})
    → read_dm uid o p c ≡ (ok a, c')
    → ((o ≡ some uid) ⊎ (p ≡ some uid)) × (c'.db ≡ c.db)
can_read_dm-ok uid none p c c' a h = absurd (fail-ok _ a c c' h)
can_read_dm-ok uid (some x) none c c' a h = absurd (fail-ok _ a c c' h)
can_read_dm-ok uid (some x) (some y) c c' a h =
    let (side, same) = reject-ok _ _ a c c' h in
    (
      elim (Bool-cases (x == uid)) [
        | inl e ↦ let one : x ≡ uid = ground (arith, e) in inl (ap some one)
        | inr e ↦ let one : y ≡ uid = ground (arith, e, side) in inr (ap some one)
      ],
      ap (λ (z : Conn). z.db) same,
    )

can_read_message-ok :
    (uid : ℕ) (m : Message) (c c' : Conn) (a : Unit {0})
    → can_read_message uid m c ≡ (ok a, c')
    → CanRead uid m c.db × (c'.db ≡ c.db)
unfolding can_read_message
can_read_message-ok uid m c c' a h = elim (MessageKind-cases m.kind) [
  | inl e ↦
      let (reads, same) = can_read_room-ok uid m.room_id c c' a (rw e at h) in
      (inl (e, reads), same)
  | inr e ↦
      let (reads, same) = can_read_dm-ok uid m.dm_peer_a m.dm_peer_b c c' a (rw e at h) in
      (inr (e, reads), same)
]

-- Whatever calls of the database fail on the way: a message that is fetched for a user is the stored
-- one, and the user is a member of its room or a side of its conversation.
pub message_by_id_for_user-guard :
    (uid mid : ℕ) (c c' : Conn) (m : Message)
    → message_by_id_for_user uid mid c ≡ (ok m, c')
    → (stored_message mid c.db ≡ some m) × CanRead uid m c.db
unfolding message_by_id_for_user message_by_id
message_by_id_for_user-guard uid mid c c' m h =
    let (n, c1, found, same, h1) = query-then _ _ c c' m h in
    let (b, c2, asked, h2) = >>=-ok (can_read_message uid n) _ c1 c' m h1 in
    let (reads, same2) = can_read_message-ok uid n c1 c2 b asked in
    let one : n ≡ m = (pure-ok _ _ c2 c' h2).0 in
    (
      or_no_rows-ok _ n found ∙ ap some one,
      subst (λ x. CanRead uid x c.db) one (subst (λ db. CanRead uid n db) same reads),
    )

-- Whatever calls of the database fail on the way: a report of a message that succeeds is of a stored
-- message which the reporter may read, and it adds one report with the sanitized reason and changes no
-- other table.
pub report_message_for_user-guard :
    (now reporter mid : ℕ) (reason : Bytes) (c c' : Conn) (a : Unit {0})
    → report_message_for_user now reporter mid reason c ≡ (ok a, c')
    → (m : Message) × (stored_message mid c.db ≡ some m)
      × CanRead reporter m c.db
      × (insert_report now reporter message_target mid (sanitize_user_text reason) c.db
          ≡ ok (a, c'.db))
unfolding report_message_for_user message_by_id report parse_target bytes_eq
report_message_for_user-guard now reporter mid reason c c' a h =
    let (m, c1, found, same, h1) = query-then _ _ c c' a h in
    let (b, c2, asked, h2) = >>=-ok (can_read_message reporter m) _ c1 c' a h1 in
    let (reads, same2) = can_read_message-ok reporter m c1 c2 b asked in
    let (_, wrote) = statement-ok _ c2 c' a h2 in
    (
      m,
      or_no_rows-ok _ m found,
      subst (λ db. CanRead reporter m db) same reads,
      subst
          (λ db.
            insert_report now reporter message_target mid (sanitize_user_text reason) db
            ≡ ok (a, c'.db))
          (same2 ∙ same) wrote,
    )
