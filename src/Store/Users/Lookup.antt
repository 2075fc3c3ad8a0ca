-- ===== src/Store/Users/Lookup.antt =====
-- `CreateUser` of internal/store/store.go, and the three ways to look a user up.
use terminal_social.Common.{
  ℕ, ◌≡◌, refl, ap, ◌∙◌, true, false, [], ◌∷◌, ◌++◌, some, arith, ◌==◌, any_row, find_row, ==_self,
}
use terminal_social.Common.Records.Laws.{any_row-append, find_row-append}
use terminal_social.Text.{Bytes, bytes_eq, bytes_eq_iff, nocase_eq, nocase_eq_self}
use terminal_social.Domain.{User, UserKey}
use terminal_social.Store.Schema.{Db, next_id}
use terminal_social.Store.Schema.Keys.{next_id-fresh}
use terminal_social.Store.Exec.{ok, quiet, pure, statement, transaction, or_no_rows}
use terminal_social.Store.Exec.Inversion.{>>=-step, transaction-quiet, statement-quiet, query-quiet}
use terminal_social.Store.Users.{
  key_owner, new_user, insert_user, insert_key, create_user_tx, create_user, user_by_id,
  user_by_handle, user_by_fingerprint,
}

abbrev pub next_user : Db → ℕ
next_user db = next_id (λ (u : User). u.id) db.users

abbrev pub new_key : ℕ → Bytes → Bytes → Db → UserKey
new_key now fingerprint key db = record {
  id = next_id (λ (k : UserKey). k.id) db.user_keys;
  user_id = next_user db;
  fingerprint = fingerprint;
  public_key = key;
  label = [];
  added_at = now;
}

-- The tables with the new user and his key.
abbrev pub registered : ℕ → Bytes → Bytes → Bytes → Db → Db
registered now handle fingerprint key db = record db {
  users = db.users ++ new_user (next_user db) handle now ∷ [];
  user_keys = db.user_keys ++ new_key now fingerprint key db ∷ [];
}

find_new_user :
    (now : ℕ) (handle : Bytes) (db : Db)
    → find_row (λ u. u.id == next_user db) (db.users ++ new_user (next_user db) handle now ∷ [])
      ≡ some (new_user (next_user db) handle now)
find_new_user now handle db =
    find_row-append _ db.users _ (next_id-fresh (λ (u : User). u.id) db.users) ∙ ground arith

bytes_eq_self : (b : Bytes) → bytes_eq b b ≡ true
bytes_eq_self b = (bytes_eq_iff b b).1 refl

create_user_tx_lem :
    (now : ℕ) (handle fingerprint key : Bytes) (db : Db)
    → any_row (λ u. nocase_eq u.handle handle) db.users ≡ false
    → any_row (λ k. bytes_eq k.fingerprint fingerprint) db.user_keys ≡ false
    → create_user_tx now handle fingerprint key (quiet db)
      ≡ (ok (next_user db), quiet (registered now handle fingerprint key db))
create_user_tx_lem now handle fingerprint key db free new =
    unfold create_user_tx in
    (>>=-step (statement (insert_user now handle)) _ (quiet db)
        (quiet (record db { users = db.users ++ new_user (next_user db) handle now ∷ [] }))
        (next_user db) (statement-quiet _ db _ _ (ground (arith, free)))
      ∙ >>=-step (statement (insert_key now (next_user db) fingerprint key [])) _ _
          (quiet (registered now handle fingerprint key db)) tt
          (statement-quiet _ _ _ _ (
            ground (
              arith,
              new,
              any_row-append (λ u. u.id == next_user db) db.users
                  (new_user (next_user db) handle now ∷ []),
              ==_self (next_user db),
            )))
      ∙ (unfold pure in refl))

-- On a driver that does not fail, a registration under a handle that nobody has, up to the case of
-- ASCII letters, and with a key that nobody has registered, succeeds: it adds one user under the next
-- id, without rights, and his key, and changes no other table; and the user is found by his id, by his
-- handle and by the fingerprint of his key.
pub create_user_lem :
    (now : ℕ) (handle fingerprint key : Bytes) (db : Db)
    → any_row (λ u. nocase_eq u.handle handle) db.users ≡ false
    → any_row (λ k. bytes_eq k.fingerprint fingerprint) db.user_keys ≡ false
    → let u = new_user (next_user db) handle now in
      let after = registered now handle fingerprint key db in
      (create_user now handle fingerprint key (quiet db) ≡ (ok u, quiet after))
      × (user_by_id (next_user db) (quiet after) ≡ (ok u, quiet after))
      × (user_by_handle handle (quiet after) ≡ (ok u, quiet after))
      × (user_by_fingerprint fingerprint (quiet after) ≡ (ok u, quiet after))
unfolding user_by_handle user_by_fingerprint
create_user_lem now handle fingerprint key db free new = (
  unfold create_user in
      (>>=-step (transaction (create_user_tx now handle fingerprint key)) _ (quiet db) (quiet after)
          (next_user db)
          (transaction-quiet _ db after _
            (create_user_tx_lem now handle fingerprint key db free new))
        ∙ by_id),
  by_id,
  query-quiet _ after _ (ap or_no_rows named),
  query-quiet _ after _ (ap or_no_rows owner),
)
  where
    u : User
    u = new_user (next_user db) handle now

    after : Db
    after = registered now handle fingerprint key db

    by_id : user_by_id (next_user db) (quiet after) ≡ (ok u, quiet after)
    by_id = unfold user_by_id in query-quiet _ after _ (ap or_no_rows (find_new_user now handle db))

    named : find_row (λ v. nocase_eq v.handle handle) after.users ≡ some u
    named = find_row-append _ db.users _ free ∙ ground (arith, nocase_eq_self handle)

    owner : key_owner fingerprint after ≡ some u
    owner = ground (
      arith,
      find_row-append (λ k. bytes_eq k.fingerprint fingerprint) db.user_keys
          (new_key now fingerprint key db ∷ []) new,
      bytes_eq_self fingerprint,
      find_new_user now handle db,
    )
