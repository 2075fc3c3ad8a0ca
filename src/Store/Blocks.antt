-- ===== src/Store/Blocks.antt =====
-- The methods of store.go under "Blocks".
use terminal_social.Common.{
  ℕ, Bool, List, [], ◌∷◌, ◌++◌, map, ltb, ◌==◌, length, any_row, select, delete_rows, ◌&&◌,
  if◌then◌else◌,
}
use terminal_social.Store.Schema.{Db, BlockRow, user_exists, is_block_row}
use terminal_social.Store.Exec.{constraint, Result, ok, err, Action, statement, query, done}

-- `INSERT OR IGNORE INTO blocks`.
abbrev insert_block : ℕ → ℕ → ℕ → Db → Result (Unit {0} × Db)
insert_block now by target db =
    let row : BlockRow = record { user_id = by; blocked_id = target; created_at = now } in
    if any_row (is_block_row by target) db.blocks
    then done db
    else if user_exists by db && user_exists target db
    then done (record db { blocks = db.blocks ++ row ∷ [] })
    else err constraint

unfoldable pub block : ℕ → ℕ → ℕ → Action (Unit {0})
block now by target = statement (insert_block now by target)

unfoldable pub unblock : ℕ → ℕ → Action (Unit {0})
unblock by target =
    statement (λ db. done (record db { blocks = delete_rows (is_block_row by target) db.blocks }))

-- The keys of the map that the source returns.
unfoldable pub blocked_ids : ℕ → Action (List ℕ)
blocked_ids uid =
    query (λ db. ok (map (λ b. b.blocked_id) (select (λ b. b.user_id == uid) db.blocks)))

unfoldable pub is_blocked : ℕ → ℕ → Action Bool
is_blocked by target = query (λ db. ok (ltb 0 (length (select (is_block_row by target) db.blocks))))
