-- ===== src/Tests/Workers.antt =====
-- Tests of the status of the workers of a run.
use bip300_monitor.Base.{◌≡◌, ◌↔◌, refl, true, none, some, List, [], ◌∷◌, arith}
use bip300_monitor.Failure.{Error, err}
use bip300_monitor.Store.Health.{
  ExtractorWorker, node_history, mainchain_tip, bmm_requests, mainchain_events, confirmed_bmm_fees,
  enforcer_state, block_history, worker_discrete, running, Health, error_of, aggregate_error,
  record_worker_failure, record_worker_success,
}
use bip300_monitor.Store.Health.Calls.{HealthCall, initialize, failure, success, perform_all}
use bip300_monitor.Store.Health.Registered.{unregistered_worker_fails}
use bip300_monitor.Store.Health.Shown.{shown_error-none}
use bip300_monitor.Store.Health.Counted.{failures_in_a_row, failures_after_success}

-- A run that has just begun.
abbrev begun : Health
begun = record {
  workers = λ worker. none;
  failures = [];
  is_shown = true;
  shown_error = none;
  status = running;
  finish_reason = none;
}

-- What the extractor registers: at startup, for the node's history, and for the confirmed fees.
abbrev registrations : List HealthCall
registrations =
    initialize (mainchain_tip ∷ bmm_requests ∷ mainchain_events ∷ enforcer_state ∷ [])
    ∷ initialize (node_history ∷ [])
    ∷ initialize (confirmed_bmm_fees ∷ [])
    ∷ success enforcer_state
    ∷ []

unregistered_worker_fails_example :
    let after = perform_all registrations begun in
    ((e : Error) × (record_worker_failure block_history "slot 3" 1 after ≡ (err e, after)))
    × ((e : Error) × (record_worker_success block_history after ≡ (err e, after)))
unfolding worker_discrete
unregistered_worker_fails_example =
    unregistered_worker_fails block_history registrations begun (refl, (refl, (refl, (refl, tt))))
      refl "slot 3" 1

abbrev day : List HealthCall
day =
    initialize (mainchain_tip ∷ bmm_requests ∷ [])
    ∷ failure bmm_requests "moved" 1
    ∷ failure mainchain_tip "down" 3
    ∷ success bmm_requests
    ∷ []

shown_error-none_example :
    let after = perform_all day begun in
    (after.shown_error ≡ none)
    ↔ ((worker : ExtractorWorker) → error_of (after.workers worker) ≡ none)
unfolding aggregate_error
shown_error-none_example =
    shown_error-none day begun (refl, (refl, (refl, (refl, tt)))) (refl, refl)

abbrev registered : Health
registered = record begun {
  workers = λ worker. some (record { consecutive_failures = 7; last_error = some "old" });
}

failures_after_success_example :
    (perform_all
        (success bmm_requests ∷ failures_in_a_row 3 (failure bmm_requests "moved" 3))
        registered).workers
      bmm_requests
    ≡ some (record { consecutive_failures = 3; last_error = some "moved" })
failures_after_success_example =
    failures_after_success bmm_requests "moved" 3 (omega arith) (omega arith) 3 registered
      (record { consecutive_failures = 7; last_error = some "old" }) (omega arith) refl
