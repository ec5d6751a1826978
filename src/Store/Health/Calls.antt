-- ===== src/Store/Health/Calls.antt =====
-- One call of the store on the rows of a run, and what the calls on a worker can do.
use bip300_monitor.Base.{
  ℕ, suc, ◌≡◌, refl, ap, ◌⊎◌, inl, inr, Bool, false, String, Option, none, some, List, [], ◌∷◌,
  contains, Option-cases, arith,
}
use bip300_monitor.Failure.{Error, message, ok, err, Result-cases}
use bip300_monitor.Effect.{commit}
use bip300_monitor.Store.Health.{
  ExtractorWorker, worker_discrete, WorkerStatus, Health, failure_rows, set_worker,
  recompute_extractor_error, initialize_worker_statuses, after_failure, record_worker_failure,
  record_worker_success, finish_run,
}

-- One call of the store on the rows of a run.
pub data HealthCall : Type 0 where
  initialize : List ExtractorWorker → HealthCall
  failure : ExtractorWorker → String → ℕ → HealthCall
  success : ExtractorWorker → HealthCall
  finish : String → Option String → HealthCall

abbrev pub perform : HealthCall → Health → Health
perform (initialize workers) health = (initialize_worker_statuses workers health).1
perform (failure worker error degraded_after) health =
    (record_worker_failure worker error degraded_after health).1
perform (success worker) health = (record_worker_success worker health).1
perform (finish status reason) health = (finish_run status reason health).1

abbrev pub perform_all : List HealthCall → Health → Health
perform_all [] health = health
perform_all (call ∷ calls) health = perform_all calls (perform call health)

-- Whether a call creates the row of a worker.
abbrev pub registers : ExtractorWorker → HealthCall → Bool
registers worker (initialize workers) = contains worker_discrete workers worker
registers worker _ = false

abbrev pub new_row : WorkerStatus
new_row = record { consecutive_failures = 0; last_error = none }

abbrev pub written :
    ExtractorWorker → WorkerStatus → List (ExtractorWorker × String) → Health → Health
written worker row failures health =
    recompute_extractor_error
      (record health { workers = set_worker worker row health.workers; failures = failures })

-- A failure is refused, or it writes the row that it found.
pub failure-cases :
    (worker : ExtractorWorker) (error : String) (degraded_after : ℕ) (health : Health)
    → ((e : Error) × (record_worker_failure worker error degraded_after health ≡ (err e, health)))
      ⊎ ((row : WorkerStatus) × (health.workers worker ≡ some row)
          × (record_worker_failure worker error degraded_after health ≡ (
            ok (suc row.consecutive_failures),
            written worker
                (after_failure row degraded_after error)
                ((worker, error) ∷ health.failures)
                health,
          )))
unfolding record_worker_failure recompute_extractor_error
failure-cases worker error degraded_after health =
    elim (Result-cases (failure_rows worker error degraded_after health)) [
      | inr (x, q) ↦ inl (x, ap (commit health) q)
      | inl ((failures, after), q) ↦ elim (Option-cases (health.workers worker)) [
        | inl e ↦ absurd (ground arith)
        | inr (row, e) ↦
            let wrote : failure_rows worker error degraded_after health
                ≡ ok (
                  suc row.consecutive_failures,
                  written worker (after_failure row degraded_after error)
                      ((worker, error) ∷ health.failures) health,
                ) =
              ground arith in
            inr (row, e, ap (commit health) wrote)
      ]
    ]

pub success-cases :
    (worker : ExtractorWorker) (health : Health)
    → ((e : Error) × (record_worker_success worker health ≡ (err e, health)))
      ⊎ ((row : WorkerStatus) × (health.workers worker ≡ some row)
          × (record_worker_success worker health
              ≡ (ok tt, written worker new_row health.failures health)))
unfolding record_worker_success
success-cases worker health = elim (Option-cases (health.workers worker)) [
  | inl e ↦
      inl (message "worker status was not initialized" ∷ [], rw (record_worker_success, e) refl)
  | inr (row, e) ↦ inr (row, e, rw (record_worker_success, e) refl)
]
