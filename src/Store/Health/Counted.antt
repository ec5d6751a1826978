-- ===== src/Store/Health/Counted.antt =====
-- The count of failures in a row, and when their error is kept.
use mathlib.Core.Path.{subst}
use bip300_monitor.Base.{
  ℕ, zero, suc, ◌+◌, ◌<◌, ◌^◌, ◌≡◌, refl, true, false, String, Option, none, some, List, [], ◌∷◌,
  same_self, leb, ltb, arith, if◌then◌else◌,
}
use bip300_monitor.Failure.{ok}
use bip300_monitor.Store.Health.{
  ExtractorWorker, worker_discrete, WorkerStatus, Health, set_worker, recompute_extractor_error,
  record_worker_failure, record_worker_success,
}
use bip300_monitor.Store.Health.Calls.{HealthCall, failure, success, perform_all, new_row}

abbrev pub failures_in_a_row : ℕ → HealthCall → List HealthCall
failures_in_a_row zero call = []
failures_in_a_row (suc k) call = call ∷ failures_in_a_row k call

-- The row of a worker that failed so many times since its last success.
abbrev pub row_after : ℕ → String → ℕ → WorkerStatus
row_after degraded_after error n = record {
  consecutive_failures = n;
  last_error = if leb degraded_after n then some error else none;
}

module _ (worker : ExtractorWorker) (error : String) (degraded_after : ℕ)
    (positive : 0 < degraded_after) (fits : degraded_after < 2 ^ 31) where
  set_worker_own :
      (row : WorkerStatus) (workers : ExtractorWorker → Option WorkerStatus)
      → set_worker worker row workers worker ≡ some row
  unfolding set_worker
  set_worker_own row workers = rw (same_self worker_discrete worker) refl

  failure-counted :
      (n : ℕ) (health : Health)
      → suc n < 2 ^ 31
      → health.workers worker ≡ some (row_after degraded_after error n)
      → (record_worker_failure worker error degraded_after health).0 ≡ ok (suc n)
        × ((record_worker_failure worker error degraded_after health).1.workers worker
            ≡ some (row_after degraded_after error (suc n)))
  unfolding record_worker_failure recompute_extractor_error
  failure-counted n health bound present =
      let some_failure : ltb 0 degraded_after ≡ true = ground arith in
      let threshold : ltb degraded_after (2 ^ 31) ≡ true = ground arith in
      let count : ltb (suc n) (2 ^ 31) ≡ true = ground arith in
      rw (record_worker_failure, some_failure, threshold, present, count)
        (refl, set_worker_own (row_after degraded_after error (suc n)) health.workers)

  failures_counted :
      (k n : ℕ) (health : Health)
      → n + k < 2 ^ 31
      → health.workers worker ≡ some (row_after degraded_after error n)
      → (perform_all (failures_in_a_row k (failure worker error degraded_after)) health).workers
          worker
        ≡ some (row_after degraded_after error (n + k))
  failures_counted zero n health bound present =
      subst (λ m. health.workers worker ≡ some (row_after degraded_after error m)) (omega arith)
        present
  failures_counted (suc k) n health bound present =
      let counted = failure-counted n health (omega (arith, bound)) present in
      let rest =
        failures_counted k (suc n) (record_worker_failure worker error degraded_after health).1
          (omega (arith, bound)) counted.1 in
      subst
        (λ m.
          (perform_all (failures_in_a_row (suc k) (failure worker error degraded_after))
              health).workers
            worker
          ≡ some (row_after degraded_after error m))
        (omega arith) rest

  -- With a threshold from 1 on, and it and `k` below 2^31: a worker that last succeeded and then
  -- failed `k` times in a row has the count `k`, and its error is kept exactly from the threshold on.
  pub failures_after_success :
      (k : ℕ) (health : Health) (row : WorkerStatus)
      → k < 2 ^ 31
      → health.workers worker ≡ some row
      → (perform_all
            (success worker ∷ failures_in_a_row k (failure worker error degraded_after))
            health).workers
          worker
        ≡ some (record {
          consecutive_failures = k;
          last_error = if leb degraded_after k then some error else none;
        })
  unfolding record_worker_success recompute_extractor_error
  failures_after_success k health row bound present =
      let quiet : leb degraded_after 0 ≡ false = ground arith in
      let counted =
        failures_counted k 0 (record_worker_success worker health).1 (omega (arith, bound))
          (rw (record_worker_success, present, quiet) (set_worker_own new_row health.workers)) in
      subst
        (λ m.
          (perform_all (success worker ∷ failures_in_a_row k (failure worker error degraded_after))
              health).workers
            worker
          ≡ some (row_after degraded_after error m))
        (omega arith) counted
