-- ===== src/Store/History.antt =====
-- The history operations of shared/src/store.rs that read and move one scope's cursor. An operation
-- that fails rolls its transaction back.
use bip300_monitor.Base.{
  ℕ, Bool, true, false, ◌&&◌, ◌||◌, String, string_discrete, Option, none, some, List, [], ◌∷◌,
  ◌++◌, Bytes, bytes_discrete, any, contains, filter, same, ltb, is_some, if◌then◌else◌,
}
use bip300_monitor.Failure.{Result, ok, or_bail, ◌>>=◌, ◌>>◌}
use bip300_monitor.Proto.{ObservedBlock, at_height}
use bip300_monitor.Store.Types.{
  Store, ScopeKey, CoverageKey, coverage_key_discrete, coverage_key, HistoryStatus, running, error,
  superseded, status_discrete, HistoryCoverage, validate_history_scope, required_height,
  height_to_i32, optional_height_to_i32, optional_block_parts,
}
use bip300_monitor.Store.Rows.{
  Row, CertifiedBlock, Db, has_key, find_row, history_coverage_from_row,
}
use bip300_monitor.Store.Certify.{same_hash}
use bip300_monitor.Store.Instances.{same_entry}
use bip300_monitor.Store.Update.{Tx, commit, admit_rows, update_coverage, has_status, required_one}

-- `COALESCE`.
abbrev or_else {ℓ} : {A : Type ℓ} → Option A → Option A → Option A
or_else (some a) b = some a
or_else none b = b

abbrev listed : Option ℕ → Option String → List (ℕ × String) → Bool
listed none id current = true
listed (some slot) none current = false
listed (some slot) (some id) current = any (same_entry (slot, id)) current

-- `ORDER BY height DESC LIMIT 1`.
highest_of : CertifiedBlock → List CertifiedBlock → ObservedBlock
unfolding at_height
highest_of best [] = at_height best.block_hash best.height
highest_of best (c ∷ cs) = highest_of (if ltb best.height c.height then c else best) cs

unfoldable pub highest : List CertifiedBlock → Option ObservedBlock
unfolding highest_of
highest [] = none
highest (c ∷ cs) = some (highest_of c cs)

-- What `ON CONFLICT … DO UPDATE` makes of an old row: the covered tip stays where the new one has
-- none, and so does the count of rows.
abbrev pub merge_row : Row → Row → Row
merge_row fresh old = record fresh {
  covered_tip_hash = or_else fresh.covered_tip_hash old.covered_tip_hash;
  covered_tip_height = or_else fresh.covered_tip_height old.covered_tip_height;
  rows_recorded = old.rows_recorded;
}

-- `DO UPDATE SET` of every column.
abbrev pub replaced_by : Row → Row → Row
replaced_by new _ = new

unfoldable pub upsert_coverage : Row → Option Row → Db → Result (Row × Db)
unfolding admit_rows update_coverage
upsert_coverage fresh none db = do
  admitted ← admit_rows (fresh ∷ []) db
  ok (fresh, record admitted { coverage = db.coverage ++ fresh ∷ [] })
upsert_coverage fresh (some old) db = do
  updated ← update_coverage (has_key fresh.key) (replaced_by (merge_row fresh old)) db
  ok (merge_row fresh old, updated.0)

-- The rows that a statement selects, and what it sets.
abbrev pub running_at : CoverageKey → Row → Bool
running_at key r = has_key key r && has_status running r

abbrev pub cursor_at : CoverageKey → Bytes → Row → Bool
cursor_at key hash r = has_key key r && same_hash r.next_hash (some hash) && has_status running r

abbrev pub resumable_at : CoverageKey → Row → Bool
resumable_at key r =
    has_key key r && (has_status error r || has_status superseded r) && is_some r.next_hash

abbrev pub unfinished_at : CoverageKey → Row → Bool
unfinished_at key r = has_key key r && (has_status running r || has_status error r)

abbrev pub with_floor : Option Bytes → Option ℕ → Row → Row
with_floor hash height r = record r { floor_hash = hash; floor_height = height }

abbrev pub with_page_size : ℕ → String → Row → Row
with_page_size page_blocks text r = record r {
  effective_page_blocks = page_blocks;
  last_error = some text;
}

abbrev pub resumed : Row → Row
resumed r = record r { status = running; last_error = none }

abbrev pub settled : Bool → String → Row → Row
settled is_current text r = record r {
  status = if is_current then error else superseded;
  last_error = some (if is_current then text else "sidechain instance is no longer active");
}

abbrev pub retired : String → Row → Row
retired reason r = record r { status = superseded; last_error = some reason }

-- The row that `VALUES` lists.
abbrev pub started_row :
    CoverageKey
    → ℕ
    → Option Bytes × Option ℕ
    → ObservedBlock
    → ℕ
    → Option Bytes
    → Option ℕ
    → ℕ
    → Row
started_row key start covered target target_height floor_hash floor_height page_blocks = record {
  key = key;
  coverage_start_height = start;
  covered_tip_hash = covered.0;
  covered_tip_height = covered.1;
  target_tip_hash = target.hash;
  target_tip_height = target_height;
  floor_hash = floor_hash;
  floor_height = floor_height;
  next_hash = some target.hash;
  next_height = some target_height;
  status = running;
  rows_recorded = 0;
  effective_page_blocks = page_blocks;
  last_error = none;
  is_completed = false;
}

module _ (store : Store) (scope : ScopeKey) where
  -- `history_coverage`.
  unfoldable pub history_coverage : Tx (Option HistoryCoverage)
  unfolding validate_history_scope find_row history_coverage_from_row
  history_coverage db = (
    validate_history_scope scope >> elim (find_row (coverage_key store scope) db.coverage) [
      | none ↦ ok none
      | some r ↦ do coverage ← history_coverage_from_row r; ok (some coverage)
    ],
    db,
  )

  abbrev is_candidate : List Bytes → CertifiedBlock → Bool
  is_candidate hashes c =
      same coverage_key_discrete c.key (coverage_key store scope)
      && contains bytes_discrete hashes c.block_hash

  -- `certified_history_floor`.
  unfoldable pub certified_history_floor : List Bytes → Tx (Option ObservedBlock)
  unfolding at_height highest
  certified_history_floor hashes db = (ok (highest (filter (is_candidate hashes) db.certified)), db)

  -- `set_history_floor`.
  unfoldable pub set_history_floor : ObservedBlock → Option Bytes → Option ℕ → Tx (Unit {0})
  unfolding update_coverage status_discrete bytes_discrete height_to_i32
  set_history_floor cursor floor_hash floor_height db = commit db (do
    height ← optional_height_to_i32 floor_height
    updated ←
        update_coverage (cursor_at (coverage_key store scope) cursor.hash)
          (with_floor floor_hash height) db
    required_one tt "history cursor changed while setting the certified floor" updated)

  -- `begin_history_cycle`: `INSERT … ON CONFLICT … DO UPDATE`, and the row that it returns.
  unfoldable pub begin_history_cycle :
      ℕ → Option ObservedBlock → ObservedBlock → Option Bytes → Option ℕ → ℕ → Tx HistoryCoverage
  unfolding validate_history_scope height_to_i32 optional_block_parts required_height
      upsert_coverage history_coverage_from_row find_row
  begin_history_cycle start covered_tip target floor_hash floor_height page_blocks db =
      commit db (do
        validate_history_scope scope
        start ← height_to_i32 start
        covered ← optional_block_parts covered_tip
        target_height ← required_height target "history target tip"
        target_height ← height_to_i32 target_height
        floor_height ← optional_height_to_i32 floor_height
        page_blocks ← height_to_i32 page_blocks
        let fresh : Row =
            started_row (coverage_key store scope) start covered target target_height floor_hash
              floor_height page_blocks
        after ← upsert_coverage fresh (find_row (coverage_key store scope) db.coverage) db
        coverage ← history_coverage_from_row after.0
        ok (coverage, after.1))

  -- `resize_history_page`.
  unfoldable pub resize_history_page : ℕ → String → Tx (Unit {0})
  unfolding validate_history_scope height_to_i32 update_coverage status_discrete
  resize_history_page page_blocks text db = commit db (do
    validate_history_scope scope
    page_blocks ← height_to_i32 page_blocks
    updated ←
        update_coverage (running_at (coverage_key store scope)) (with_page_size page_blocks text) db
    required_one tt "history was not running while resizing its pages" updated)

  -- `resume_history`.
  unfoldable pub resume_history : Tx (Unit {0})
  unfolding validate_history_scope update_coverage status_discrete
  resume_history db = commit db (do
    validate_history_scope scope
    updated ← update_coverage (resumable_at (coverage_key store scope)) resumed db
    required_one tt "history had no resumable cursor" updated)

  -- Whether the slot's current instance is the scope's.
  unfoldable pub scope_is_listed : Db → Bool
  unfolding string_discrete
  scope_is_listed db = listed scope.sidechain scope.sidechain_instance_id db.current

  -- `settle_history_failure`.
  unfoldable pub settle_history_failure : String → Tx HistoryStatus
  unfolding validate_history_scope update_coverage status_discrete scope_is_listed find_row
  settle_history_failure text db = commit db (do
    validate_history_scope scope
    let is_current : Bool = scope_is_listed db
    updated ← update_coverage (running_at (coverage_key store scope)) (settled is_current text) db
    row ←
        or_bail (find_row (coverage_key store scope) updated.0.coverage)
          "history coverage does not exist"
    ok (row.status, updated.0))

-- `supersede_history`.
unfoldable pub supersede_history : Store → String → ℕ → String → String → Tx (Unit {0})
unfolding update_coverage status_discrete
supersede_history store stream slot id reason db = commit db (do
  let key : CoverageKey =
      coverage_key store
        (record { stream = stream; sidechain = some slot; sidechain_instance_id = some id })
  updated ← update_coverage (unfinished_at key) (retired reason) db
  ok (tt, updated.0))
