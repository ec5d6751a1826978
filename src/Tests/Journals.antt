-- ===== src/Tests/Journals.antt =====
-- Tests of the writers of live events, of the state worker and of a live stream.
use bip300_monitor.Base.{
  ℕ, suc, ◌≤◌, ◌≡◌, refl, ◌⊎◌, true, false, none, some, [], ◌∷◌, is_some, bytes_discrete,
  ℕ_discrete,
}
use bip300_monitor.Failure.{Error, Result, ok, err, message, status, unavailable}
use bip300_monitor.Proto.{Event, enforcer, EnforcerEvent}
use bip300_monitor.Store.Types.{live, tip_matched, consistency_discrete, SnapshotMetadata}
use bip300_monitor.Store.Rows.{Db}
use bip300_monitor.Store.Batch.{Journal, record_batch}
use bip300_monitor.Store.Batch.Atomic.{HasRecorded, record_batch-outcome}
use bip300_monitor.State.{needs_retry}
use bip300_monitor.Runtime.Refresh.{
  Refresher, RefreshIo, waiting, is_unsettled, block_changed, refresh_block, refresh_attempts,
  refresh_once, handle_reading,
}
use bip300_monitor.Runtime.Refresh.Laws.{refresh_block-waiting}
use bip300_monitor.Runtime.Stream.{
  started, tip_seen, clock, Forwarding, forwarding, forward_turn, check_tip,
}
use bip300_monitor.Runtime.Stream.Laws.{begin, turn, IsSilent, stalled-IsSilent}
use bip300_monitor.Tests.Fixtures.{hash, tip, block, ext, store, db, instance_of_slot}

abbrev journal : Journal
journal = record { db = db; groups = []; tips = []; is_shown = true; last_tip = none }

abbrev live_event : ℕ → Event
live_event n = record {
  timestamp = 7;
  observed_at_block = some tip;
  monitor_event = some (enforcer (block n));
}

record_batch-outcome_example :
    ((e : Error) × (record_batch ext store
          (live_event 2 ∷ live_event 1 ∷ [])
          live
          (some instance_of_slot)
          journal
        ≡ (err e, journal)))
    ⊎ ((n : ℕ) × (after : Db) × (record_batch ext store
            (live_event 2 ∷ live_event 1 ∷ [])
            live
            (some instance_of_slot)
            journal
          ≡ (ok n, record journal { db = after }))
        × HasRecorded ext store live (live_event 2 ∷ live_event 1 ∷ []) 0 db n after)
record_batch-outcome_example =
    record_batch-outcome ext store live (live_event 2 ∷ live_event 1 ∷ []) (some instance_of_slot) 0
      journal refl

abbrev window : SnapshotMetadata
window = record {
  revision_before = none;
  revision_after = none;
  tip_before = tip;
  tip_after = tip;
  consistency = tip_matched;
  attempts = 1;
}

abbrev refresher : Refresher
refresher = record {
  refreshed_at = hash 2;
  read_failed = false;
  tracker = record { last = []; last_consistency = tip_matched };
}

-- The read fails.
abbrev refresh_io : RefreshIo ℕ
refresh_io = record {
  select = λ n. (block_changed (some (hash 3)), suc n);
  latest = λ n. (hash 3, suc n);
  collect_state = λ n. (err (status unavailable ∷ []), suc n);
  health = λ failure n. (ok tt, suc n);
  publish = λ anchor publication metadata n. (ok tt, suc n);
}

refresh_fails :
    refresh_block refresh_io (hash 3) (refresher, 0)
    ≡ (ok waiting, (record refresher { read_failed = true }, 2))
unfolding refresh_block refresh_attempts refresh_once handle_reading needs_retry
    consistency_discrete bytes_discrete ℕ_discrete
refresh_fails = refl

refresh_block-waiting_example :
    ((record refresher { read_failed = true }).refreshed_at ≡ hash 3)
    ⊎ (is_unsettled (record refresher { read_failed = true }) ≡ true)
refresh_block-waiting_example =
    refresh_block-waiting refresh_io (hash 3) (refresher, 0)
      (record refresher { read_failed = true }, 2) refresh_fails

abbrev handled : EnforcerEvent → Result (Unit {0})
handled event = ok tt

abbrev armed : Forwarding
armed = record started { stalled_tip = some tip; stall_deadline = some 70 }

armed_once : forward_turn 60 handled (tip_seen 10 (some tip)) started ≡ ok (forwarding armed)
unfolding forward_turn check_tip
armed_once = refl

stalled :
    forward_turn 60 handled (clock 71) armed
    ≡ err
        (message "sidechain event stream delivered no event after the mainchain tip advanced" ∷ [])
unfolding forward_turn
stalled = refl

stalled-IsSilent_example :
    (deadline : ℕ) × (deadline ≤ 71)
    × IsSilent 60 handled deadline (tip_seen 10 (some tip) ∷ [])
    × (is_some armed.stalled_tip ≡ true)
stalled-IsSilent_example =
    stalled-IsSilent 60 handled (tip_seen 10 (some tip) ∷ []) armed 71
      (message "sidechain event stream delivered no event after the mainchain tip advanced" ∷ [])
      (turn (tip_seen 10 (some tip)) begin armed_once) stalled
