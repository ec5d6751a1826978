-- ===== src/Store/Rows.antt =====
-- The tables that the history operations of shared/src/store.rs read and write, with the constraints
-- of shared/schema/0003_history_coverage.sql, and SQL's `UPDATE … WHERE` on them.
-- A column that a constraint keeps at 0 or above is a natural number; time stamps are left out, but
-- for whether `completed_at` is null.
pub mod Frame
use bip300_monitor.Base.{
  ℕ, suc, Bool, true, false, ◌&&◌, ◌||◌, not, String, Option, none, some, List, [], ◌∷◌, Bytes,
  length, find, is_some, is_none, same, ltb, ◌==◌, if◌then◌else◌,
}
use bip300_monitor.Failure.{Result, ok, ◌>>=◌}
use bip300_monitor.Store.Types.{
  CoverageKey, FactKey, coverage_key_discrete, HistoryStatus, complete, status_discrete,
  CaptureMethod, HistoryCoverage, block_from_parts,
}

-- A row of `history_coverage`.
pub record Row : Type 0 where
  pub key : CoverageKey
  pub coverage_start_height : ℕ
  pub covered_tip_hash : Option Bytes
  pub covered_tip_height : Option ℕ
  pub target_tip_hash : Bytes
  pub target_tip_height : ℕ
  pub floor_hash : Option Bytes
  pub floor_height : Option ℕ
  pub next_hash : Option Bytes
  pub next_height : Option ℕ
  pub status : HistoryStatus
  pub rows_recorded : ℕ
  pub effective_page_blocks : ℕ
  pub last_error : Option String
  pub is_completed : Bool

-- A row of `event`, without the payload; its place in the table is the order of the ids.
pub record Fact : Type 0 where
  pub key : FactKey
  pub block_hash : Option Bytes
  pub height : Option ℕ
  pub previous_hash : Option Bytes
  pub fact_sha256 : Bytes

-- A row of `event_observation`.
pub record Observation : Type 0 where
  pub capture_seq : ℕ
  pub capture_method : CaptureMethod
  pub fact : Fact

-- A row of `history_certified_block`.
pub record CertifiedBlock : Type 0 where
  pub key : CoverageKey
  pub block_hash : Bytes
  pub previous_hash : Bytes
  pub height : ℕ

pub record Db : Type 0 where
  pub coverage : List Row
  pub facts : List Fact
  pub conflicts : List Fact  -- `event_conflict`, by its first event
  pub observations : List Observation
  pub certified : List CertifiedBlock
  pub instances : List (ℕ × String)  -- `sidechain_instance`
  pub current : List (ℕ × String)  -- `current_sidechain_instance`
  pub capture_seq : Option ℕ  -- `last_capture_seq` of the run, if the run is `running`

abbrev size_32 : Option Bytes → Bool
size_32 none = true
size_32 (some hash) = length hash == 32

abbrev paired {ℓ κ} : {A : Type ℓ} {B : Type κ} → Option A → Option B → Bool
paired (some _) (some _) = true
paired none none = true
paired _ _ = false

-- `history_coverage_completion_shape`.
unfoldable pub completion_shape : Row → Bool
unfolding status_discrete
completion_shape r =
    if same status_discrete r.status complete
    then is_none r.next_hash && r.is_completed
    else is_some r.next_hash && not r.is_completed

-- The CHECK constraints of a coverage row.
unfoldable pub row_is_allowed : Row → Bool
unfolding completion_shape
row_is_allowed r =
    paired r.covered_tip_hash r.covered_tip_height
    && (is_none r.floor_hash || is_some r.floor_height)
    && paired r.next_hash r.next_height
    && (size_32 r.covered_tip_hash
        && length r.target_tip_hash == 32
        && size_32 r.floor_hash
        && size_32 r.next_hash)
    && ltb 0 r.effective_page_blocks
    && completion_shape r

abbrev pub has_key : CoverageKey → Row → Bool
has_key key r = same coverage_key_discrete r.key key

-- `SELECT … WHERE` the identity of a scope.
unfoldable pub find_row : CoverageKey → List Row → Option Row
find_row key rows = find (has_key key) rows

unfoldable pub update_rows : (Row → Bool) → (Row → Row) → List Row → List Row
update_rows p f [] = []
update_rows p f (r ∷ rs) = (if p r then f r else r) ∷ update_rows p f rs

unfoldable pub count_rows : (Row → Bool) → List Row → ℕ
count_rows p [] = 0
count_rows p (r ∷ rs) = let rest = count_rows p rs in if p r then suc rest else rest

-- The reading of a row that a query returned.
unfoldable pub history_coverage_from_row : Row → Result HistoryCoverage
unfolding block_from_parts
history_coverage_from_row r = do
  covered ← block_from_parts r.covered_tip_hash r.covered_tip_height "covered tip"
  next ← block_from_parts r.next_hash r.next_height "next history cursor"
  ok (record {
    scope = r.key.scope;
    event_contract_version = r.key.store.event_contract_version;
    coverage_start_height = r.coverage_start_height;
    covered_tip = covered;
    target_tip = record { hash = r.target_tip_hash; height = some r.target_tip_height };
    floor_hash = r.floor_hash;
    floor_height = r.floor_height;
    next = next;
    status = r.status;
    rows_recorded = r.rows_recorded;
    effective_page_blocks = r.effective_page_blocks;
    last_error = r.last_error;
  })
