-- ===== src/Store/Batch/Atomic.antt =====
-- What a writer leaves: all of its occurrences, or none.
use mathlib.Core.List.{append-nil}
use bip300_monitor.Base.{
  ℕ, suc, ◌+◌, ◌≤◌, ◌≡◌, refl, sym, ap, ◌∙◌, ◌⊎◌, inl, inr, Option, none, some, List, [], ◌∷◌, ◌++◌,
  length, Bool-cases, arith, ◌==◌,
}
use bip300_monitor.Failure.{Error, ok, err, Result-cases, Ensures-ok}
use bip300_monitor.Proto.{Event}
use bip300_monitor.Store.Types.{
  Externals, Store, CaptureMethod, SnapshotConsistency, SidechainInstanceRef,
}
use bip300_monitor.Store.Rows.{Fact, Observation, Db}
use bip300_monitor.Store.Insert.{reserve_capture_sequences}
use bip300_monitor.Store.Batch.{
  Journal, insert_events, write_events, validate_instance, record_batch,
}
use bip300_monitor.Store.Batch.Occurrences.{Describe, WroteAll, insert_events-WroteAll}

-- The occurrences of the events are written after the others of the table, with the numbers after the
-- run's last one, which moves on by as many; the new facts are counted.
abbrev pub HasRecorded : Externals → Store → CaptureMethod → List Event → ℕ → Db → ℕ → Db → Type 0
HasRecorded ext store method events last db n after =
    (os : List Observation) × (added : List Fact) × (after.observations ≡ db.observations ++ os)
    × Describe ext store method (suc last) events os
    × (after.facts ≡ db.facts ++ added)
    × (length added ≡ n)
    × (n ≤ length events)
    × (after.capture_seq ≡ some (last + length events))

module _ (ext : Externals) (store : Store) (method : CaptureMethod) where
  pub write_events-HasRecorded :
      (group : Option SnapshotConsistency) (instance : Option SidechainInstanceRef)
      (events : List Event) (last : ℕ) (db : Db) (written : ℕ × Db)
      → db.capture_seq ≡ some last
      → write_events ext store method group instance events db ≡ ok written
      → HasRecorded ext store method events last db written.0 written.1
  unfolding write_events reserve_capture_sequences
  write_events-HasRecorded group instance events last db written active e =
      elim (Bool-cases (length events == 0)) [
        | inl empty ↦ absurd (ground arith)
        | inr some_event ↦
            let next : last + 1 ≡ suc last = omega arith in
            let reserved : Db = record db { capture_seq = some (last + length events) } in
            let inserted : insert_events ext store method group instance (last + 1) events
                  (reserved, [])
                ≡ ok written =
              rw (some_event, active) at e in
            let (os, added, observed, described, facts, count, bound, kept) =
              Ensures-ok (WroteAll ext store method group (last + 1) events reserved) _ written
                (insert_events-WroteAll ext store method group instance events (last + 1) reserved
                  [])
                inserted in
            (os, added, observed, rw (← next) described, facts, count, bound, kept)
      ]

  -- In an active run, a batch is recorded whole or not at all: an error leaves every table as it was,
  -- and a success adds one occurrence for each event, in their order, with the numbers that follow the
  -- run's last one, which moves on by as many. The fact of an occurrence has the kind, the slot and the
  -- block that its event says and the digest of its message. The new facts come after the others, as
  -- many as the call returns, and at most as many as events.
  pub record_batch-outcome :
      (events : List Event) (instance : Option SidechainInstanceRef) (last : ℕ) (journal : Journal)
      → journal.db.capture_seq ≡ some last
      → ((e : Error) × (record_batch ext store events method instance journal ≡ (err e, journal)))
        ⊎ ((n : ℕ) × (after : Db) × (record_batch ext store events method instance journal
              ≡ (ok n, record journal { db = after }))
            × HasRecorded ext store method events last journal.db n after)
  unfolding record_batch
  record_batch-outcome [] instance last journal active = inr (
    0,
    journal.db,
    refl,
    (
      [],
      [],
      sym (append-nil journal.db.observations),
      tt,
      sym (append-nil journal.db.facts),
      refl,
      omega arith,
      active ∙ ap some (omega arith),
    ),
  )
  record_batch-outcome (event ∷ rest) instance last journal active =
      let events = event ∷ rest in
      elim (Result-cases (validate_instance instance journal.db)) [
        | inr (x, q) ↦ inl (x, rw (record_batch, q) refl)
        | inl (_, q) ↦
            elim (Result-cases (write_events ext store method none instance events journal.db)) [
              | inr (x, w) ↦ inl (x, rw (record_batch, q, w) refl)
              | inl (written, w) ↦ inr (
                written.0,
                written.1,
                rw (record_batch, q, w) refl,
                write_events-HasRecorded none instance events last journal.db written active w,
              )
            ]
      ]
