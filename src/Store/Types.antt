-- ===== src/Store/Types.antt =====
-- The records of shared/src/store.rs that describe a scope, an instance and a coverage row, and the
-- services that the store takes from other crates.
use bip300_monitor.Base.{
  ℕ, ◌^◌, String, string_discrete, Option, none, some, Bytes, ℕ_discrete, ltb, same, if◌then◌else◌,
}
use bip300_monitor.Failure.{Error, Result, ok, bail, ◌>>=◌}
use bip300_monitor.Proto.{ObservedBlock, MonitorEvent, Event, at_height}

-- What the code calls in other crates: hashing and encoding (sha2, prost, bitcoin, serde_json), and
-- the text that the standard library formats.
pub record Externals : Type 0 where
  pub fact_sha256 : MonitorEvent → Bytes
  pub render_json : Event → Result (Unit {0})
  pub deserialize : Bytes → Option Bytes
  pub sha256d : Bytes → Bytes
  pub instance_text : ℕ → ℕ → ℕ → Bytes → String
  pub error_text : Error → String

-- The columns that tie a row to one `Store` handle.
pub record Store : Type 0 where
  pub dataset_id : String
  pub source : String
  pub event_contract_version : ℕ

pub data HistoryStatus : Type 0 where
  running complete error superseded : HistoryStatus

pub data CaptureMethod : Type 0 where
  startup live backfill poll reconcile : CaptureMethod

pub data SnapshotConsistency : Type 0 where
  stable tip_matched unknown changed : SnapshotConsistency

unfoldable pub status_discrete : Discrete HistoryStatus
status_discrete = hlevel

unfoldable pub consistency_discrete : Discrete SnapshotConsistency
consistency_discrete = hlevel

pub record SidechainInstanceRef : Type 0 where
  pub sidechain : ℕ
  pub sidechain_instance_id : String
  pub activation_height : ℕ

unfoldable pub instance_discrete : Discrete SidechainInstanceRef
unfolding ℕ_discrete string_discrete
instance_discrete = hlevel (ℕ_discrete, string_discrete)

-- `SnapshotMetadata` without its clocks.
pub record SnapshotMetadata : Type 0 where
  pub revision_before : Option String
  pub revision_after : Option String
  pub tip_before : ObservedBlock
  pub tip_after : ObservedBlock
  pub consistency : SnapshotConsistency
  pub attempts : ℕ

unfoldable pub revision_discrete : Discrete (Option String)
unfolding string_discrete
revision_discrete = hlevel string_discrete

-- The three arguments by which the history operations name a scope.
pub record ScopeKey : Type 0 where
  pub stream : String
  pub sidechain : Option ℕ
  pub sidechain_instance_id : Option String

-- The columns of `history_coverage_identity`.
pub record CoverageKey : Type 0 where
  pub store : Store
  pub scope : ScopeKey

unfoldable pub coverage_key_discrete : Discrete CoverageKey
unfolding ℕ_discrete string_discrete
coverage_key_discrete = hlevel (ℕ_discrete, string_discrete)

-- The columns of `event_identity` that name a scope.
pub record FactKey : Type 0 where
  pub store : Store
  pub kind : String
  pub sidechain : Option ℕ
  pub sidechain_instance_id : Option String

unfoldable pub fact_key_discrete : Discrete FactKey
unfolding ℕ_discrete string_discrete
fact_key_discrete = hlevel (ℕ_discrete, string_discrete)

-- The event kind whose facts make up a history stream.
unfoldable pub history_kind : String → Result String
unfolding string_discrete
history_kind stream =
    if same string_discrete stream "block"
    then ok "block_connected"
    else if same string_discrete stream "mainchain_block"
    then ok "mainchain_block"
    else bail "unknown history stream"

abbrev pub fact_key : CoverageKey → String → FactKey
fact_key key kind = record {
  store = key.store;
  kind = kind;
  sidechain = key.scope.sidechain;
  sidechain_instance_id = key.scope.sidechain_instance_id;
}

abbrev pub coverage_key : Store → ScopeKey → CoverageKey
coverage_key store scope = record { store = store; scope = scope }

pub record HistoryCoverage : Type 0 where
  pub scope : ScopeKey
  pub event_contract_version : ℕ
  pub coverage_start_height : ℕ
  pub covered_tip : Option ObservedBlock
  pub target_tip : ObservedBlock
  pub floor_hash : Option Bytes
  pub floor_height : Option ℕ
  pub next : Option ObservedBlock
  pub status : HistoryStatus
  pub rows_recorded : ℕ
  pub effective_page_blocks : ℕ
  pub last_error : Option String

-- A slot and its instance are given together or not at all.
abbrev pub paired_scope : Option ℕ → Option String → Result (Unit {0})
paired_scope (some _) (some _) = ok tt
paired_scope none none = ok tt
paired_scope _ _ = bail "history sidechain and sidechain instance must be present together"

unfoldable pub validate_history_scope : ScopeKey → Result (Unit {0})
validate_history_scope scope = paired_scope scope.sidechain scope.sidechain_instance_id

unfoldable pub required_height : ObservedBlock → String → Result ℕ
required_height block text = elim block.height [ some height ↦ ok height | none ↦ bail text ]

-- `i32::try_from`: a height is kept as a natural number, below 2^31 once it is in the record.
unfoldable pub height_to_i32 : ℕ → Result ℕ
height_to_i32 height =
    if ltb height (2 ^ 31) then ok height else bail "height does not fit in an i32"

abbrev pub optional_height_to_i32 : Option ℕ → Result (Option ℕ)
optional_height_to_i32 none = ok none
optional_height_to_i32 (some height) = do h ← height_to_i32 height; ok (some h)

unfoldable pub optional_block_parts : Option ObservedBlock → Result (Option Bytes × Option ℕ)
unfolding required_height height_to_i32
optional_block_parts none = ok (none, none)
optional_block_parts (some block) = do
  required ← required_height block "history block"
  height ← height_to_i32 required
  ok (some block.hash, some height)

unfoldable pub block_from_parts : Option Bytes → Option ℕ → String → Result (Option ObservedBlock)
unfolding at_height
block_from_parts (some hash) (some height) text = ok (some (at_height hash height))
block_from_parts none none text = ok none
block_from_parts _ _ text = bail text
