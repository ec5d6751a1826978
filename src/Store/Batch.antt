-- ===== src/Store/Batch.antt =====
-- The writers of live events: `record_batch`, `record_snapshot`, `record_tip_observation` and
-- `update_extractor_status` of shared/src/store.rs, on the tables and what a run keeps beside them.
pub mod Occurrences
pub mod Atomic
pub mod Snapshots
use bip300_monitor.Base.{
  ℕ, suc, ◌+◌, ◌^◌, Bool, true, false, not, ◌&&◌, ◌||◌, String, string_discrete, Option, none, some,
  List, [], ◌∷◌, Bytes, ℕ_discrete, bytes_discrete, length, ltb, leb, ◌==◌, same, is_none, is_some,
  if◌then◌else◌,
}
use bip300_monitor.Failure.{Result, ok, err, bail, context, ensure, ◌>>=◌, ◌>>◌}
use bip300_monitor.Proto.{ObservedBlock, observed_block_discrete, Event}
use bip300_monitor.Effect.{Call, commit}
use bip300_monitor.Store.Types.{
  Externals, Store, CaptureMethod, SnapshotConsistency, stable, tip_matched, consistency_discrete,
  SidechainInstanceRef, SnapshotMetadata, revision_discrete, required_height, height_to_i32,
  optional_block_parts,
}
use bip300_monitor.Store.Rows.{Db}
use bip300_monitor.Store.Instances.{Cache}
use bip300_monitor.Store.Insert.{insert, reserve_capture_sequences, validate_sidechain_instance}

-- A row of `tip_observation`.
pub record TipObservation : Type 0 where
  pub capture_seq : ℕ
  pub capture_method : CaptureMethod
  pub tip_hash : Bytes
  pub tip_height : ℕ
  pub previous_hash : Option Bytes
  pub previous_height : Option ℕ

-- The tables, with the groups, the tips, and the tip of `extractor_status`, whose row may be another
-- run's.
pub record Journal : Type 0 where
  pub db : Db
  pub groups : List (CaptureMethod × SnapshotMetadata)
  pub tips : List TipObservation
  pub is_shown : Bool
  pub last_tip : Option (Bytes × ℕ)

abbrev pub slot_of : Option SidechainInstanceRef → Option ℕ
slot_of none = none
slot_of (some instance) = some instance.sidechain

abbrev pub id_of : Option SidechainInstanceRef → Option String
id_of none = none
id_of (some instance) = some instance.sidechain_instance_id

-- The loop of the writers over the events, with numbers from the reserved range.
unfoldable pub insert_events :
    Externals
    → Store
    → CaptureMethod
    → Option SnapshotConsistency
    → Option SidechainInstanceRef
    → ℕ
    → List Event
    → Db × Cache
    → Result (ℕ × Db)
unfolding insert
insert_events ext store method group instance seq [] (db, cache) = ok (0, db)
insert_events ext store method group instance seq (event ∷ rest) (db, cache) = do
  stored ← insert ext store method group (slot_of instance) (id_of instance) seq event (db, cache)
  later ← insert_events ext store method group instance (suc seq) rest (stored.1, stored.2)
  ok (stored.0 + later.0, later.1)

-- The numbers of the events are reserved, and the events inserted.
unfoldable pub write_events :
    Externals
    → Store
    → CaptureMethod
    → Option SnapshotConsistency
    → Option SidechainInstanceRef
    → List Event
    → Db
    → Result (ℕ × Db)
unfolding reserve_capture_sequences insert_events
write_events ext store method group instance events db = do
  reserved ← reserve_capture_sequences (length events) db
  insert_events ext store method group instance reserved.0 events (reserved.1, [])

abbrev pub validate_instance : Option SidechainInstanceRef → Db → Result (Unit {0})
unfolding validate_sidechain_instance
validate_instance none db = ok tt
validate_instance (some instance) db =
    validate_sidechain_instance instance.sidechain instance.sidechain_instance_id db

abbrev pub with_db : Journal → ℕ × Db → ℕ × Journal
with_db journal (n, db) = (n, record journal { db = db })

abbrev is_empty : List Event → Bool
is_empty [] = true
is_empty (_ ∷ _) = false

-- `record_batch`.
unfoldable pub record_batch :
    Externals → Store → List Event → CaptureMethod → Option SidechainInstanceRef → Call Journal ℕ
unfolding validate_sidechain_instance write_events
record_batch ext store events method instance journal =
    if is_empty events
    then (ok 0, journal)
    else commit journal (do
      validate_instance instance journal.db
      written ← write_events ext store method none instance events journal.db
      ok (with_db journal written))

-- `require_hash`.
unfoldable pub require_hash : Bytes → String → Result (Unit {0})
require_hash hash text = ensure (length hash == 32) text

abbrev is_blank : Option String → Bool
unfolding string_discrete
is_blank none = true
is_blank (some text) = same string_discrete text ""

-- A window that claims to be of one tip, or to be atomic, without the evidence for it.
unfoldable pub is_mismatched : SnapshotMetadata → Bool
unfolding consistency_discrete observed_block_discrete
is_mismatched m =
    same consistency_discrete m.consistency tip_matched
    && (not (same observed_block_discrete m.tip_before m.tip_after)
        || is_some m.revision_before
        || is_some m.revision_after)

unfoldable pub claims_stable : Store → SnapshotMetadata → Bool
unfolding consistency_discrete
claims_stable store m =
    leb 8 store.event_contract_version && same consistency_discrete m.consistency stable

unfoldable pub is_unproved : SnapshotMetadata → Bool
unfolding consistency_discrete observed_block_discrete string_discrete revision_discrete
is_unproved m =
    same consistency_discrete m.consistency stable
    && (not (same observed_block_discrete m.tip_before m.tip_after)
        || is_blank m.revision_before
        || not (same revision_discrete m.revision_before m.revision_after))

-- The numbers of a group.
unfoldable pub group_numbers : SnapshotMetadata → Result (ℕ × ℕ)
unfolding required_height height_to_i32
group_numbers m = do
  before ← required_height m.tip_before "snapshot tip before"
  before_height ← height_to_i32 before
  after ← required_height m.tip_after "snapshot tip after"
  after_height ← height_to_i32 after
  ensure (ltb m.attempts (2 ^ 31)) "snapshot attempts overflow"
  ensure (not (m.attempts == 0)) "snapshot attempts must be positive"
  ok (before_height, after_height)

-- What `record_snapshot` asks of the metadata: the heights of the two tips.
unfoldable pub validate_metadata : Store → SnapshotMetadata → Result (ℕ × ℕ)
unfolding require_hash is_mismatched claims_stable is_unproved group_numbers
validate_metadata store m = do
  require_hash m.tip_before.hash "snapshot tip before hash is not 32 bytes"
  require_hash m.tip_after.hash "snapshot tip after hash is not 32 bytes"
  ensure (not (is_mismatched m))
      "tip-matched snapshots require matching tips and no claimed server revision"
  ensure (not (claims_stable store m)) "official API cannot establish atomic stable snapshots"
  ensure (not (is_unproved m)) "stable snapshot requires one tip and one explicit chain revision"
  group_numbers m

-- `update_extractor_status`.
unfoldable pub update_extractor_status : ObservedBlock → Journal → Result Journal
unfolding required_height height_to_i32
update_extractor_status tip journal = do
  required ← required_height tip "extractor status tip"
  height ← height_to_i32 required
  ok (record journal {
    last_tip = if journal.is_shown then some (tip.hash, height) else journal.last_tip;
  })

-- `record_snapshot`.
unfoldable pub record_snapshot :
    Externals → Store → List Event → CaptureMethod → SnapshotMetadata → Call Journal ℕ
unfolding validate_metadata write_events update_extractor_status
record_snapshot ext store events method metadata journal =
    if is_empty events
    then (ok 0, journal)
    else commit journal (do
      validate_metadata store metadata >>= λ _.
          write_events ext store method (some metadata.consistency) none events journal.db
          >>= λ written.
              update_extractor_status metadata.tip_after
                (record journal { db = written.1; groups = (method, metadata) ∷ journal.groups })
              >>= λ after. ok (written.0, after))

-- `record_tip_observation`.
unfoldable pub record_tip_observation :
    ObservedBlock → Option ObservedBlock → CaptureMethod → Call Journal (Unit {0})
unfolding require_hash required_height height_to_i32 optional_block_parts reserve_capture_sequences
    update_extractor_status
record_tip_observation tip previous method journal = commit journal (do
  required ← required_height tip "observed tip"
  height ← height_to_i32 required
  require_hash tip.hash "observed tip hash is not 32 bytes"
  parts ← optional_block_parts previous
  reserved ← reserve_capture_sequences 1 journal.db
  after ← update_extractor_status tip (record journal {
    db = reserved.1;
    tips =
        record {
          capture_seq = reserved.0;
          capture_method = method;
          tip_hash = tip.hash;
          tip_height = height;
          previous_hash = parts.0;
          previous_height = parts.1;
        }
        ∷ journal.tips;
  })
  ok (tt, after))
