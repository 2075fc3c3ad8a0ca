-- ===== src/Store/Users.antt =====
-- The methods of store.go under "Users / Keys". `now` is `time.Now().Unix()`.
pub mod Lookup
use terminal_social.Common.{
  ℕ, Bool, false, List, [], ◌∷◌, ◌++◌, Option, none, some, leb, ◌==◌, length, any_row, select,
  find_row, update_rows, sort_by, if◌then◌else◌,
}
use terminal_social.Text.{Bytes, bytes_eq, nocase_eq}
use terminal_social.Domain.{User, UserKey}
use terminal_social.Domain.Sanitize.{sanitize_user_text}
use terminal_social.Store.Schema.{Db, next_id, user_exists}
use terminal_social.Store.Exec.{
  constraint, user_not_found, Result, ok, err, Action, pure, statement, query, transaction, attempt,
  ◌>>=◌, ◌>>◌, reject, or_no_rows, done,
}

-- The user whose key has the fingerprint (`JOIN user_keys`).
abbrev pub key_owner : Bytes → Db → Option User
key_owner fp db = elim (find_row (λ k. bytes_eq k.fingerprint fp) db.user_keys) [
  | none ↦ none
  | some k ↦ find_row (λ u. u.id == k.user_id) db.users
]

unfoldable pub user_by_fingerprint : Bytes → Action User
user_by_fingerprint fp = query (λ db. or_no_rows (key_owner fp db))

unfoldable pub user_by_handle : Bytes → Action User
user_by_handle h = query (λ db. or_no_rows (find_row (λ u. nocase_eq u.handle h) db.users))

unfoldable pub user_by_id : ℕ → Action User
user_by_id uid = query (λ db. or_no_rows (find_row (λ u. u.id == uid) db.users))

-- The row of a new user, with the defaults of the schema.
abbrev pub new_user : ℕ → Bytes → ℕ → User
new_user uid handle now = record {
  id = uid;
  handle = handle;
  display_name = [];
  bio = [];
  pronouns = [];
  is_admin = false;
  is_suspended = false;
  created_at = now;
  last_seen_at = none;
}

-- `INSERT INTO users`; the handle is unique up to the case of ASCII letters.
abbrev pub insert_user : ℕ → Bytes → Db → Result (ℕ × Db)
insert_user now handle db =
    let uid = next_id (λ (u : User). u.id) db.users in
    if any_row (λ u. nocase_eq u.handle handle) db.users
    then err constraint
    else ok (uid, record db { users = db.users ++ new_user uid handle now ∷ [] })

-- `INSERT INTO user_keys`; the fingerprint is unique and the user must exist.
abbrev pub insert_key : ℕ → ℕ → Bytes → Bytes → Bytes → Db → Result (Unit {0} × Db)
insert_key now uid fingerprint public_key label db =
    let key : UserKey = record {
      id = next_id (λ (k : UserKey). k.id) db.user_keys;
      user_id = uid;
      fingerprint = fingerprint;
      public_key = public_key;
      label = label;
      added_at = now;
    } in
    if any_row (λ k. bytes_eq k.fingerprint fingerprint) db.user_keys
    then err constraint
    else if user_exists uid db
    then done (record db { user_keys = db.user_keys ++ key ∷ [] })
    else err constraint

unfoldable pub create_user_tx : ℕ → Bytes → Bytes → Bytes → Action ℕ
create_user_tx now handle fingerprint public_key = do
  uid ← statement (insert_user now handle)
  statement (insert_key now uid fingerprint public_key [])
  pure uid

unfoldable pub create_user : ℕ → Bytes → Bytes → Bytes → Action User
create_user now handle fingerprint public_key = do
  uid ← transaction (create_user_tx now handle fingerprint public_key)
  user_by_id uid

unfoldable pub add_key : ℕ → ℕ → Bytes → Bytes → Bytes → Action (Unit {0})
add_key now uid fingerprint public_key label =
    statement (insert_key now uid fingerprint public_key label)

unfoldable pub user_keys : ℕ → Action (List UserKey)
user_keys uid = query (λ db.
    ok (sort_by (λ a b. leb a.added_at b.added_at) (select (λ k. k.user_id == uid) db.user_keys)))

unfoldable pub update_profile : ℕ → Bytes → Bytes → Bytes → Action (Unit {0})
update_profile uid display_name bio pronouns = statement (λ db. done (record db {
  users =
      update_rows (λ u. u.id == uid)
        (λ u. record u {
          display_name = sanitize_user_text display_name;
          bio = sanitize_user_text bio;
          pronouns = sanitize_user_text pronouns;
        })
        db.users;
}))

-- Its error is dropped.
unfoldable pub touch_last_seen : ℕ → ℕ → Action (Unit {0})
touch_last_seen now uid = do
  _ ← attempt (
      statement (λ db. done (record db {
        users = update_rows (λ u. u.id == uid) (λ u. record u { last_seen_at = some now }) db.users;
      })))
  pure tt

-- `UPDATE users … WHERE handle = ? COLLATE NOCASE`, with `RowsAffected`.
abbrev pub update_handle : Bytes → (User → User) → Db → Result (ℕ × Db)
update_handle handle f db = ok (
  length (select (λ u. nocase_eq u.handle handle) db.users),
  record db { users = update_rows (λ u. nocase_eq u.handle handle) f db.users },
)

unfoldable pub set_admin : Bytes → Bool → Action (Unit {0})
set_admin handle on = do
  n ← statement (update_handle handle (λ u. record u { is_admin = on }))
  reject (n == 0) user_not_found

unfoldable pub set_suspended : Bytes → Bool → Action (Unit {0})
set_suspended handle on = do
  n ← statement (update_handle handle (λ u. record u { is_suspended = on }))
  reject (n == 0) user_not_found
