-- ===== src/Store/Update.antt =====
-- Transactions, and what the database does with an `UPDATE` of `history_coverage`: the trigger
-- `certify_history`, the constraints, and the roll-back of a statement that is refused.
pub mod Effect
pub mod Proved
use bip300_monitor.Base.{ℕ, Bool, String, List, [], ◌∷◌, map, filter, same, ◌==◌, if◌then◌else◌}
use bip300_monitor.Failure.{Result, ok, err, bail, ◌>>=◌}
pub use bip300_monitor.Effect.{commit}
use bip300_monitor.Store.Types.{HistoryStatus, status_discrete}
use bip300_monitor.Store.Rows.{Row, Db, row_is_allowed, update_rows, count_rows}
use bip300_monitor.Store.Certify.{certify_history}

-- A transaction on the tables: what it returns, and the tables after it.
abbrev pub Tx : Type 0 → Type 0
Tx A = Db → Result A × Db

abbrev pub history_conflict_text : String
history_conflict_text = "conflicting immutable block facts"

-- What the database does with the new version of a row: the trigger, then the constraints.
unfoldable pub admit_row : Row → Db → Result Db
unfolding row_is_allowed certify_history
admit_row r db = do
  certified ← certify_history db r
  if row_is_allowed r
      then ok (record db { certified = certified })
      else bail "a history_coverage constraint is violated"

unfoldable pub admit_rows : List Row → Db → Result Db
unfolding admit_row
admit_rows [] db = ok db
admit_rows (r ∷ rs) db = do after ← admit_row r db; admit_rows rs after

-- `UPDATE history_coverage SET … WHERE …`: the tables after it, and how many rows it wrote.
unfoldable pub update_coverage : (Row → Bool) → (Row → Row) → Db → Result (Db × ℕ)
unfolding admit_rows update_rows count_rows
update_coverage where_ set db = do
  admitted ← admit_rows (map set (filter where_ db.coverage)) db
  ok (
    record admitted { coverage = update_rows where_ set db.coverage },
    count_rows where_ db.coverage,
  )

abbrev pub has_status : HistoryStatus → Row → Bool
has_status s r = same status_discrete r.status s

abbrev pub required_one : {A : Type 0} → A → String → Db × ℕ → Result (A × Db)
required_one a text (db, n) = if n == 1 then ok (a, db) else bail text
