-- ===== src/Store/Insert.antt =====
-- The insertion of one event and its occurrence: `insert` and `reserve_capture_sequences` of
-- shared/src/store.rs, with the constraint `event_identity` and the trigger `observe_block_fact` of
-- shared/schema/0010_official_contract_9.sql.
pub mod Frame
pub mod Once
use bip300_monitor.Base.{
  ℕ, ◌+◌, Bool, true, false, ◌&&◌, ◌||◌, not, String, string_discrete, Option, none, some, [], ◌∷◌,
  ◌++◌, Bytes, bytes_discrete, any, find, filter, same, ◌==◌, if◌then◌else◌,
}
use bip300_monitor.Failure.{Result, ok, bail, or_bail, context, ◌>>=◌, ◌>>◌}
use bip300_monitor.Proto.{Event, kind}
use bip300_monitor.Store.Types.{
  Externals, Store, CaptureMethod, SnapshotConsistency, stable, tip_matched, fact_key_discrete,
}
use bip300_monitor.Store.Rows.{Fact, Db}
use bip300_monitor.Store.Certify.{same_hash}
use bip300_monitor.Store.Facts.{facts_of_event, previous_hash_of}
use bip300_monitor.Store.Instances.{Cache, update_sidechain_instances, resolve_instance, same_entry}

-- `IS NOT DISTINCT FROM`.
abbrev pub same_nullable_hash : Option Bytes → Option Bytes → Bool
same_nullable_hash none none = true
same_nullable_hash a b = same_hash a b

-- `event_identity`.
unfoldable pub same_identity : Fact → Fact → Bool
unfolding fact_key_discrete bytes_discrete
same_identity f g =
    same fact_key_discrete f.key g.key
    && same_nullable_hash f.block_hash g.block_hash
    && same bytes_discrete f.fact_sha256 g.fact_sha256

-- An earlier fact that the trigger pairs with the new one.
unfoldable pub contradicts : Fact → Fact → Bool
unfolding fact_key_discrete bytes_discrete
contradicts new f =
    same fact_key_discrete f.key new.key
    && same_hash f.block_hash new.block_hash
    && not (same bytes_discrete f.fact_sha256 new.fact_sha256)

abbrev pub is_block_kind : String → Bool
is_block_kind kind =
    same string_discrete kind "block_connected" || same string_discrete kind "mainchain_block"

-- `observe_block_fact`, after an insertion.
unfoldable pub observe_block_fact : Fact → Db → Db
unfolding string_discrete contradicts
observe_block_fact new db =
    if is_block_kind new.key.kind
    then record db { conflicts = db.conflicts ++ filter (contradicts new) db.facts }
    else db

abbrev pub observe : CaptureMethod → ℕ → Fact → Db → Db
observe method seq f db = record db {
  observations =
      db.observations ++ record { capture_seq = seq; capture_method = method; fact = f } ∷ [];
}

abbrev pub add_fact : Fact → Db → Db
add_fact f db = record db { facts = db.facts ++ f ∷ [] }

-- `INSERT … ON CONFLICT ON CONSTRAINT event_identity DO NOTHING`, the fact that it resolves to, and
-- its observation. The number is 1 if the fact is new.
unfoldable pub insert_fact : CaptureMethod → ℕ → Fact → Db → ℕ × Db
unfolding same_identity observe_block_fact
insert_fact method seq new db = elim (find (same_identity new) db.facts) [
  | some old ↦ (0, observe method seq old db)
  | none ↦ (1, observe method seq new (add_fact new (observe_block_fact new db)))
]

abbrev is_authoritative : Option SnapshotConsistency → Bool
is_authoritative none = true
is_authoritative (some stable) = true
is_authoritative (some tip_matched) = true
is_authoritative (some _) = false

-- `insert`: `group` is the consistency of the snapshot group, if the event is part of one.
unfoldable pub insert :
    Externals
    → Store
    → CaptureMethod
    → Option SnapshotConsistency
    → Option ℕ
    → Option String
    → ℕ
    → Event
    → Db × Cache
    → Result (ℕ × Db × Cache)
unfolding facts_of_event previous_hash_of update_sidechain_instances resolve_instance insert_fact
insert ext store method group slot id seq event (db, cache) = do
  facts ← context (facts_of_event event) "describing an event for the record"
  context (ext.render_json event) "rendering an event payload as JSON"
  monitor_event ← or_bail event.monitor_event "event envelope does not contain a monitor event"
  updated ← update_sidechain_instances ext (is_authoritative group) event (db, cache)
  resolved ← resolve_instance facts.sidechain slot id updated.0 updated.1
  let stored : ℕ × Db =
      insert_fact method seq
        (record {
          key = record {
            store = store;
            kind = facts.kind;
            sidechain = facts.sidechain;
            sidechain_instance_id = resolved.0;
          };
          block_hash = facts.block_hash;
          height = facts.height;
          previous_hash = previous_hash_of event.monitor_event;
          fact_sha256 = ext.fact_sha256 monitor_event;
        })
        updated.0
  ok (stored.0, stored.1, resolved.1)

-- `reserve_capture_sequences`: the first of `count` numbers, which the run will not give again.
unfoldable pub reserve_capture_sequences : ℕ → Db → Result (ℕ × Db)
reserve_capture_sequences count db =
    if count == 0 then bail "cannot reserve an empty capture sequence range" else do
      last ← or_bail db.capture_seq "extractor run is not active"
      ok (last + 1, record db { capture_seq = some (last + count) })

-- `validate_sidechain_instance`.
unfoldable pub validate_sidechain_instance : ℕ → String → Db → Result (Unit {0})
unfolding string_discrete
validate_sidechain_instance slot id db =
    if any (same_entry (slot, id)) db.instances
    then ok tt
    else bail "sidechain instance is not registered for the slot"
