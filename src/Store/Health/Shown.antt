-- ===== src/Store/Health/Shown.antt =====
-- The error that is shown for a run, and the errors of its workers.
use mathlib.Core.Path.{subst}
use bip300_monitor.Base.{
  ℕ, ◌≡◌, ◌↔◌, refl, sym, ap, ◌∙◌, inl, inr, Bool, true, false, String, Option, none, some, List,
  [], ◌∷◌, All, arith,
}
use bip300_monitor.Failure.{Result}
use bip300_monitor.Store.Health.{
  ExtractorWorker, node_history, mainchain_tip, bmm_requests, mainchain_events, confirmed_bmm_fees,
  enforcer_state, block_history, WorkerStatus, Health, by_name, error_of, joined, aggregate_error,
  recompute_extractor_error, initialize_worker_statuses, after_failure,
}
use bip300_monitor.Store.Health.Calls.{
  HealthCall, initialize, failure, success, finish, perform, perform_all, new_row, written,
  failure-cases, success-cases,
}

-- The error that is shown is the one of the rows.
abbrev pub IsShown : Health → Type 0
IsShown health =
    (health.is_shown ≡ true) × (health.shown_error ≡ aggregate_error health.workers by_name)

abbrev pub is_live : HealthCall → Bool
is_live (finish _ _) = false
is_live _ = true

written-IsShown :
    (worker : ExtractorWorker) (row : WorkerStatus) (failures : List (ExtractorWorker × String))
    (health : Health)
    → IsShown health
    → IsShown (written worker row failures health)
unfolding recompute_extractor_error
written-IsShown worker row failures health (shown, e) = (shown, rw shown refl)

perform-IsShown :
    (call : HealthCall) (health : Health)
    → is_live call ≡ true
    → IsShown health
    → IsShown (perform call health)
unfolding initialize_worker_statuses recompute_extractor_error
perform-IsShown (initialize workers) health live (shown, e) = (shown, rw shown refl)
perform-IsShown (failure worker error n) health live shows =
    elim (failure-cases worker error n health) [
      | inl (x, e) ↦ subst IsShown (sym (ap (λ (o : Result ℕ × Health). o.1) e)) shows
      | inr (row, present, e) ↦ subst IsShown (sym (ap (λ (o : Result ℕ × Health). o.1) e)) (
          written-IsShown worker (after_failure row n error) ((worker, error) ∷ health.failures)
            health shows)
    ]
perform-IsShown (success worker) health live shows = elim (success-cases worker health) [
  | inl (x, e) ↦ subst IsShown (sym (ap (λ (o : Result (Unit {0}) × Health). o.1) e)) shows
  | inr (row, present, e) ↦
      subst IsShown (sym (ap (λ (o : Result (Unit {0}) × Health). o.1) e))
        (written-IsShown worker new_row health.failures health shows)
]
perform-IsShown (finish status reason) health live shows = absurd (ground arith)

perform_all-IsShown :
    (calls : List HealthCall) (health : Health)
    → All (λ call. is_live call ≡ true) calls
    → IsShown health
    → IsShown (perform_all calls health)
perform_all-IsShown [] health live shows = shows
perform_all-IsShown (call ∷ calls) health (l, live) shows =
    perform_all-IsShown calls (perform call health) live (perform-IsShown call health l shows)

joined-none :
    (worker : ExtractorWorker) (text rest : Option String)
    → (joined worker text rest ≡ none) ↔ ((text ≡ none) × (rest ≡ none))
joined-none worker none rest = (λ e. (refl, e), λ p. p.1)
joined-none worker (some t) none = (λ e. absurd (ground arith), λ p. absurd (ground arith))
joined-none worker (some t) (some r) = (λ e. absurd (ground arith), λ p. absurd (ground arith))

aggregate_error-none :
    (workers : ExtractorWorker → Option WorkerStatus) (names : List ExtractorWorker)
    → (aggregate_error workers names ≡ none)
      ↔ All (λ worker. error_of (workers worker) ≡ none) names
unfolding aggregate_error
aggregate_error-none workers [] = (λ e. tt, λ p. refl)
aggregate_error-none workers (worker ∷ rest) =
    let step = joined-none worker (error_of (workers worker)) (aggregate_error workers rest) in
    let ih = aggregate_error-none workers rest in
    (λ e. ((step.0 e).0, ih.0 (step.0 e).1), λ p. step.1 (p.0, ih.1 p.1))

every_worker :
    (P : ExtractorWorker → Type 0) → All P by_name → (worker : ExtractorWorker) → P worker
every_worker P (p, ps) block_history = p
every_worker P (_, (p, ps)) bmm_requests = p
every_worker P (_, (_, (p, ps))) confirmed_bmm_fees = p
every_worker P (_, (_, (_, (p, ps)))) enforcer_state = p
every_worker P (_, (_, (_, (_, (p, ps))))) mainchain_events = p
every_worker P (_, (_, (_, (_, (_, (p, ps)))))) mainchain_tip = p
every_worker P (_, (_, (_, (_, (_, (_, (p, ps))))))) node_history = p

-- From a run whose shown error is the one of its rows, and after any calls but the end of the run:
-- no error is shown exactly when no worker has one.
pub shown_error-none :
    (calls : List HealthCall) (health : Health)
    → All (λ call. is_live call ≡ true) calls
    → IsShown health
    → let after = perform_all calls health in
      (after.shown_error ≡ none)
      ↔ ((worker : ExtractorWorker) → error_of (after.workers worker) ≡ none)
shown_error-none calls health live shows =
    let after = perform_all calls health in
    let shown = (perform_all-IsShown calls health live shows).1 in
    let agreed = aggregate_error-none after.workers by_name in
    (
      λ e.
          every_worker (λ worker. error_of (after.workers worker) ≡ none)
            (agreed.0 (sym shown ∙ e)),
      λ p.
          shown
          ∙ agreed.1 (
            p block_history,
            (
              p bmm_requests,
              (
                p confirmed_bmm_fees,
                (p enforcer_state, (p mainchain_events, (p mainchain_tip, (p node_history, tt)))),
              ),
            ),
          ),
    )
