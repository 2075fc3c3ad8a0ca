-- ===== src/Store/Messages/Marks.antt =====
-- The loop of `InsertRoomMessage` over the mentioned users.
use terminal_social.Common.{
  ℕ, ◌≡◌, refl, ◌∙◌, true, not, ◌&&◌, List, [], ◌∷◌, ◌++◌, Option, none, some, inl, inr, arith,
  ◌==◌, any_row, select, find_row, Bool-cases, if◌then◌else◌,
}
use terminal_social.Domain.{Role, mention_kind}
use terminal_social.Store.Schema.{
  Db, NotificationRow, next_id, user_exists, room_exists, is_member_row, is_mention_row,
}
use terminal_social.Store.Exec.{ok, quiet, pure, fail, statement, query, attempt, ◌>>=◌, ◌>>◌}
use terminal_social.Store.Exec.Inversion.{>>=-step}
use terminal_social.Store.Rooms.{is_member, role_of, has_role}
use terminal_social.Store.Rooms.Tables.{known_member-find_row}
use terminal_social.Store.Messages.{new_notification, known_member, notify_one, notify_mentions}

-- The mention and the notification of one user, as the tables hold them afterwards.
pub mark_one : ℕ → ℕ → ℕ → Db → ℕ → Db
mark_one now rid mid db uid = record db {
  mentions =
      if any_row (is_mention_row mid uid) db.mentions
      then db.mentions
      else db.mentions ++ record { message_id = mid; user_id = uid } ∷ [];
  notifications =
      db.notifications
      ++ new_notification (next_id (λ (n : NotificationRow). n.id) db.notifications) uid
          mention_kind mid (some rid) now
        ∷ [];
}

pub mark_all : ℕ → ℕ → ℕ → Db → List ℕ → Db
mark_all now rid mid db [] = db
mark_all now rid mid db (uid ∷ uids) = mark_all now rid mid (mark_one now rid mid db uid) uids

-- Of the mentioned users those who are members and not the author, in the order of the mentions.
abbrev pub recipients : ℕ → ℕ → Db → List ℕ → List ℕ
recipients rid author db uids =
    select (λ uid. not (uid == author) && any_row (is_member_row rid uid) db.room_members) uids

pub mark_all-messages :
    (now rid mid : ℕ) (db : Db) (uids : List ℕ)
    → ((mark_all now rid mid db uids).messages ≡ db.messages)
      × ((mark_all now rid mid db uids).users ≡ db.users)
unfolding mark_all mark_one
mark_all-messages now rid mid db [] = (refl, refl)
mark_all-messages now rid mid db (uid ∷ uids) =
    mark_all-messages now rid mid (mark_one now rid mid db uid) uids

-- What the foreign keys of a mention in the room ask of the tables.
pub record CanMark (rid mid : ℕ) (db : Db) : Type 0 where
  pub members :
      (uid : ℕ) → any_row (is_member_row rid uid) db.room_members ≡ true → user_exists uid db ≡ true
  pub room : room_exists rid db ≡ true
  pub message : any_row (λ m. m.id == mid) db.messages ≡ true

mark_one-CanMark :
    (now rid mid uid : ℕ) (db : Db)
    → CanMark rid mid db
    → CanMark rid mid (mark_one now rid mid db uid)
unfolding mark_one
mark_one-CanMark now rid mid uid db h = record {
  members = h.members;
  room = h.room;
  message = h.message;
}

recipients-mark_one :
    (now rid mid author v : ℕ) (db : Db) (uids : List ℕ)
    → recipients rid author (mark_one now rid mid db v) uids ≡ recipients rid author db uids
unfolding mark_one
recipients-mark_one now rid mid author v db uids = refl

notify_one_lem :
    (now rid mid uid : ℕ) (db : Db)
    → CanMark rid mid db
    → user_exists uid db ≡ true
    → notify_one now rid mid uid (quiet db) ≡ (ok tt, quiet (mark_one now rid mid db uid))
unfolding notify_one mark_one ◌>>=◌ pure fail query statement
notify_one_lem now rid mid uid db h there = ground (arith, h.room, h.message, there)

is_member_lem :
    (rid uid : ℕ) (db : Db)
    → attempt (is_member rid uid) (quiet db)
      ≡ (ok (ok (role_of (find_row (is_member_row rid uid) db.room_members))), quiet db)
unfolding is_member attempt query statement
is_member_lem rid uid db = refl

known_member-has_role : (r : Option Role) → known_member (ok r) ≡ has_role r
known_member-has_role none = refl
known_member-has_role (some r) = refl

notify_mentions-cons :
    (now rid author mid uid : ℕ) (uids : List ℕ) (db : Db)
    → notify_mentions now rid author mid (uid ∷ uids) (quiet db) ≡ (
        if not (uid == author) && any_row (is_member_row rid uid) db.room_members
        then (notify_one now rid mid uid
              >> (notify_mentions now rid author mid uids >>= λ ns. pure (uid ∷ ns)))
            (quiet db)
        else notify_mentions now rid author mid uids (quiet db))
unfolding notify_mentions ◌>>=◌
notify_mentions-cons now rid author mid uid uids db = ground (
  arith,
  is_member_lem rid uid db,
  known_member-has_role (role_of (find_row (is_member_row rid uid) db.room_members)),
  known_member-find_row rid uid db.room_members,
)

notify_first :
    (now rid author mid uid : ℕ) (uids : List ℕ) (db : Db) (r : List ℕ) (db' : Db)
    → CanMark rid mid db
    → user_exists uid db ≡ true
    → notify_mentions now rid author mid uids (quiet (mark_one now rid mid db uid))
      ≡ (ok r, quiet db')
    → (notify_one now rid mid uid
          >> (notify_mentions now rid author mid uids >>= λ ns. pure (uid ∷ ns)))
        (quiet db)
      ≡ (ok (uid ∷ r), quiet db')
notify_first now rid author mid uid uids db r db' h there rest =
    >>=-step (notify_one now rid mid uid) _ (quiet db) (quiet (mark_one now rid mid db uid)) tt
      (notify_one_lem now rid mid uid db h there)
    ∙ >>=-step (notify_mentions now rid author mid uids) (λ ns. pure (uid ∷ ns)) _ (quiet db') r
        rest
    ∙ (unfold pure in refl)

-- On a driver that does not fail the loop notifies exactly the recipients, in order.
pub notify_mentions_lem :
    (now rid author mid : ℕ) (uids : List ℕ) (db : Db)
    → CanMark rid mid db
    → notify_mentions now rid author mid uids (quiet db) ≡ (
      ok (recipients rid author db uids),
      quiet (mark_all now rid mid db (recipients rid author db uids)),
    )
unfolding mark_all
notify_mentions_lem now rid author mid [] db h = unfold notify_mentions pure in refl
notify_mentions_lem now rid author mid (uid ∷ uids) db h =
    elim (Bool-cases (not (uid == author) && any_row (is_member_row rid uid) db.room_members)) [
      | inl e ↦
          notify_mentions-cons now rid author mid uid uids db
          ∙ rw e (
              notify_first now rid author mid uid uids db (recipients rid author db uids) _ h
                (h.members uid (ground (arith, e)))
                (rw (← recipients-mark_one now rid mid author uid db uids) (
                  notify_mentions_lem now rid author mid uids (mark_one now rid mid db uid)
                    (mark_one-CanMark now rid mid uid db h))))
      | inr e ↦
          notify_mentions-cons now rid author mid uid uids db
          ∙ rw e (notify_mentions_lem now rid author mid uids db h)
    ]
