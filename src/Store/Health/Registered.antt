-- ===== src/Store/Health/Registered.antt =====
-- Workers without a row: only `initialize_worker_statuses` creates one.
use bip300_monitor.Base.{
  ℕ, ◌≡◌, refl, sym, ap, ◌∙◌, inl, inr, false, String, string_discrete, Option, none, some, List,
  [], ◌∷◌, All, contains, Bool-cases, Option-cases, same, same-eq, arith,
}
use bip300_monitor.Failure.{Error, Result, err}
use bip300_monitor.Store.Health.{
  ExtractorWorker, worker_discrete, WorkerStatus, Health, set_worker, initialized,
  recompute_extractor_error, initialize_worker_statuses, after_failure, record_worker_failure,
  record_worker_success, finish_run,
}
use bip300_monitor.Store.Health.Calls.{
  HealthCall, initialize, failure, success, finish, perform, perform_all, registers, new_row,
  failure-cases, success-cases,
}

set_worker-other :
    (worker other : ExtractorWorker) (row : WorkerStatus)
    (workers : ExtractorWorker → Option WorkerStatus)
    → same worker_discrete other worker ≡ false
    → set_worker worker row workers other ≡ workers other
unfolding set_worker
set_worker-other worker other row workers d = rw d refl

set_worker-none :
    (worker other : ExtractorWorker) (row : WorkerStatus)
    (workers : ExtractorWorker → Option WorkerStatus) (old : WorkerStatus)
    → workers worker ≡ some old
    → workers other ≡ none
    → set_worker worker row workers other ≡ none
set_worker-none worker other row workers old present absent =
    elim (Bool-cases (same worker_discrete other worker)) [
      | inr d ↦ set_worker-other worker other row workers d ∙ absent
      | inl e ↦
          let both : some old ≡ none =
            sym present ∙ ap workers (sym (same-eq worker_discrete other worker e)) ∙ absent in
          absurd (ground arith)
    ]

same-false :
    (a b : ExtractorWorker) → same worker_discrete a b ≡ false → same worker_discrete b a ≡ false
same-false a b h = ground arith

initialized_other :
    (names : List ExtractorWorker) (workers : ExtractorWorker → Option WorkerStatus)
    (other : ExtractorWorker)
    → contains worker_discrete names other ≡ false
    → workers other ≡ none
    → initialized names workers other ≡ none
unfolding initialized
initialized_other [] workers other h absent = absent
initialized_other (worker ∷ rest) workers other h absent =
    let apart : same worker_discrete worker other ≡ false = ground arith in
    let later : contains worker_discrete rest other ≡ false = ground arith in
    elim (Option-cases (workers worker)) [
      | inr (row, e) ↦ rw (initialized, e) (initialized_other rest workers other later absent)
      | inl e ↦
          let turned = same-false worker other apart in
          rw (initialized, e)
            (initialized_other rest (set_worker worker new_row workers) other later
              (set_worker-other worker other new_row workers turned ∙ absent))
    ]

finish-workers :
    (status : String) (reason : Option String) (health : Health)
    → (finish_run status reason health).1.workers ≡ health.workers
unfolding finish_run
finish-workers status reason health =
    elim (Bool-cases (contains string_discrete ("completed" ∷ "failed" ∷ []) status)) [
      | inl e ↦ rw (finish_run, e) refl
      | inr e ↦ rw (finish_run, e) refl
    ]

perform_unregistered :
    (worker : ExtractorWorker) (call : HealthCall) (health : Health)
    → registers worker call ≡ false
    → health.workers worker ≡ none
    → (perform call health).workers worker ≡ none
unfolding initialize_worker_statuses recompute_extractor_error
perform_unregistered worker (initialize workers) health r absent =
    initialized_other workers health.workers worker r absent
perform_unregistered worker (failure w error n) health r absent =
    elim (failure-cases w error n health) [
      | inl (x, e) ↦ ap (λ (o : Result ℕ × Health). o.1.workers worker) e ∙ absent
      | inr (row, present, e) ↦
          ap (λ (o : Result ℕ × Health). o.1.workers worker) e
          ∙ set_worker-none w worker (after_failure row n error) health.workers row present absent
    ]
perform_unregistered worker (success w) health r absent = elim (success-cases w health) [
  | inl (x, e) ↦ ap (λ (o : Result (Unit {0}) × Health). o.1.workers worker) e ∙ absent
  | inr (row, present, e) ↦
      ap (λ (o : Result (Unit {0}) × Health). o.1.workers worker) e
      ∙ set_worker-none w worker new_row health.workers row present absent
]
perform_unregistered worker (finish status reason) health r absent =
    ap (λ (f : ExtractorWorker → Option WorkerStatus). f worker)
      (finish-workers status reason health)
    ∙ absent

perform_all_unregistered :
    (worker : ExtractorWorker) (calls : List HealthCall) (health : Health)
    → All (λ call. registers worker call ≡ false) calls
    → health.workers worker ≡ none
    → (perform_all calls health).workers worker ≡ none
perform_all_unregistered worker [] health others absent = absent
perform_all_unregistered worker (call ∷ calls) health (other, others) absent =
    perform_all_unregistered worker calls (perform call health) others
      (perform_unregistered worker call health other absent)

-- A worker without a row, and that no call registers, never gets one: after any calls, reporting its
-- failure or its success fails, and changes no row.
pub unregistered_worker_fails :
    (worker : ExtractorWorker) (calls : List HealthCall) (health : Health)
    → All (λ call. registers worker call ≡ false) calls
    → health.workers worker ≡ none
    → (error : String) (degraded_after : ℕ)
    → let after = perform_all calls health in
      ((e : Error) × (record_worker_failure worker error degraded_after after ≡ (err e, after)))
      × ((e : Error) × (record_worker_success worker after ≡ (err e, after)))
unregistered_worker_fails worker calls health others absent error degraded_after =
    let after = perform_all calls health in
    let missing = perform_all_unregistered worker calls health others absent in
    (
      elim (failure-cases worker error degraded_after after) [
        | inl refused ↦ refused
        | inr (row, present, e) ↦ absurd (ground arith)
      ],
      elim (success-cases worker after) [
        | inl refused ↦ refused
        | inr (row, present, e) ↦ absurd (ground arith)
      ],
    )
