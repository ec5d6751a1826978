-- ===== src/Store/Batch/Snapshots.antt =====
-- What `record_snapshot` records, and what it refuses.
use bip300_monitor.Base.{◌≤◌, ◌≡◌, ◌≢◌, none, length}
use bip300_monitor.Store.Types.{Store, stable, tip_matched, SnapshotMetadata}

-- What a group of the record says of its window can be believed.
abbrev pub IsCredible : Store → SnapshotMetadata → Type 0
IsCredible store m =
    (m.consistency ≡ tip_matched
      → (m.tip_before ≡ m.tip_after) × (m.revision_before ≡ none) × (m.revision_after ≡ none))
    × (m.consistency ≡ stable
        → (m.tip_before ≡ m.tip_after) × (m.revision_before ≡ m.revision_after))
    × (8 ≤ store.event_contract_version → m.consistency ≢ stable)
    × (length m.tip_before.hash ≡ 32)
    × (length m.tip_after.hash ≡ 32)
