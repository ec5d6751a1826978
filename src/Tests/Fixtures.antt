-- ===== src/Tests/Fixtures.antt =====
-- The data that the tests run on: one slot with one instance, a chain of three blocks, and a record
-- whose cursor stands at its tip.
use bip300_monitor.Base.{ℕ, suc, ◌≤◌, refl, false, none, some, List, [], ◌∷◌, Bytes, arith}
use bip300_monitor.Failure.{ok}
use bip300_monitor.Proto.{
  ObservedBlock, BlockHeader, block_connected, EnforcerEvent, MonitorEvent, enforcer,
}
use bip300_monitor.Store.Types.{
  Externals, Store, running, SidechainInstanceRef, ScopeKey, CoverageKey, coverage_key,
}
use bip300_monitor.Store.Rows.{Row, Db, has_key, count_rows, row_is_allowed}
use bip300_monitor.Store.Invariant.{IsSound, IsConsistent}
use bip300_monitor.Backfill.Page.{HistoryStream}
use bip300_monitor.Backfill.Page.Block.{block_history}
use bip300_monitor.Backfill.World.{LiveWrites, Io, World}
use bip300_monitor.Backfill.Cycle.{Walk}

-- A hash of 32 bytes.
abbrev pub hash : ℕ → Bytes
hash n =
    n ∷ 0 ∷ 0 ∷ 0 ∷ 0 ∷ 0 ∷ 0 ∷ 0 ∷ 0 ∷ 0 ∷ 0 ∷ 0 ∷ 0 ∷ 0 ∷ 0 ∷ 0 ∷ 0 ∷ 0 ∷ 0 ∷ 0 ∷ 0 ∷ 0 ∷ 0 ∷ 0
    ∷ 0 ∷ 0 ∷ 0 ∷ 0 ∷ 0 ∷ 0 ∷ 0 ∷ 0 ∷ []

abbrev pub header : ℕ → BlockHeader
header n = record {
  hash = hash (suc n);
  previous_hash = hash n;
  height = n;
  block_work = [];
  cumulative_work = [];
  timestamp = 0;
}

-- The block of slot 3 at a height.
abbrev pub block : ℕ → EnforcerEvent
block n = record { event = some (block_connected (some (header n)) 3 []) }

abbrev pub tip : ObservedBlock
tip = record { hash = hash 3; height = some 2 }

abbrev pub page : List EnforcerEvent
page = block 2 ∷ block 1 ∷ []

abbrev pub instance_of_slot : SidechainInstanceRef
instance_of_slot = record {
  sidechain = 3;
  sidechain_instance_id = "3:0:1:aa";
  activation_height = 1;
}

abbrev pub stream : HistoryStream EnforcerEvent
stream = block_history (λ e. ok 7) instance_of_slot

abbrev fingerprint : MonitorEvent → Bytes
fingerprint event = elim event [
  | enforcer e ↦ elim e.event [ some (block_connected (some h) _ raw) ↦ h.previous_hash | _ ↦ [] ]
  | _ ↦ []
]

abbrev pub ext : Externals
ext = record {
  fact_sha256 = fingerprint;
  render_json = λ e. ok tt;
  deserialize = λ b. some b;
  sha256d = λ b. b;
  instance_text = λ slot proposal activation description. "3:0:1:aa";
  error_text = λ e. "error";
}

abbrev pub store : Store
store = record { dataset_id = "dataset"; source = "enforcer"; event_contract_version = 9 }

abbrev pub scope : ScopeKey
scope = record { stream = "block"; sidechain = some 3; sidechain_instance_id = some "3:0:1:aa" }

-- The cursor of a full walk down to height 1, at the tip.
abbrev pub row : Row
row = record {
  key = coverage_key store scope;
  coverage_start_height = 1;
  covered_tip_hash = none;
  covered_tip_height = none;
  target_tip_hash = hash 3;
  target_tip_height = 2;
  floor_hash = none;
  floor_height = some 0;
  next_hash = some (hash 3);
  next_height = some 2;
  status = running;
  rows_recorded = 0;
  effective_page_blocks = 2;
  last_error = none;
  is_completed = false;
}

abbrev pub db : Db
db = record {
  coverage = row ∷ [];
  facts = [];
  conflicts = [];
  observations = [];
  certified = [];
  instances = (3, "3:0:1:aa") ∷ [];
  current = (3, "3:0:1:aa") ∷ [];
  capture_seq = some 0;
}

row-IsSound : IsSound row
unfolding row_is_allowed
row-IsSound = record { allowed = refl; covers = λ e. absurd (ground arith) }

one_row : (k : CoverageKey) → count_rows (has_key k) (row ∷ []) ≤ 1
unfolding count_rows
one_row k = ground arith

pub db-IsConsistent : IsConsistent db
db-IsConsistent = record { rows = (row-IsSound, tt); unique = one_row }

-- An environment that counts its calls: the client answers from the chain, nobody asks for a
-- shutdown, the connection holds, and the other workers write nothing.
abbrev quiet : Db → LiveWrites
quiet d = record {
  facts = [];
  conflicts = [];
  observations = [];
  instances = d.instances;
  current = d.current;
  capture_seq = d.capture_seq;
}

abbrev pub io : Io ℕ EnforcerEvent
io = record {
  fetch = λ cursor requested n. (ok page, suc n);
  current_tip = λ n. (ok tip, suc n);
  shutdown_requested = λ n. (false, suc n);
  shutdown_while_paused = λ n. (false, suc n);
  connection = λ n. (none, suc n);
  others = λ n d. (quiet d, suc n);
}

abbrev pub walk : Walk ℕ EnforcerEvent
walk = record { ext = ext; store = store; io = io; stream = stream }

abbrev pub world : World ℕ
world = record { db = db; env = 0 }
