-- ===== src/Store/Health.antt =====
-- Worker status and the end of a run: `initialize_worker_statuses`, `record_worker_failure`,
-- `record_worker_success`, `finish_run` and `recompute_extractor_error` of shared/src/store.rs, for the
-- rows of one run. `extractor_worker_status` is a function, since its key is the worker.
pub mod Calls
pub mod Registered
pub mod Shown
pub mod Counted
use Prim.Native.String.{◌++◌ as ◌⧺◌}
use bip300_monitor.Base.{
  ℕ, suc, ◌^◌, Bool, true, false, String, string_discrete, Option, none, some, List, [], ◌∷◌,
  contains, ltb, leb, ◌==◌, same, if◌then◌else◌, ◌||◌,
}
use bip300_monitor.Failure.{Result, ok, bail, or_bail, ◌>>=◌, ◌>>◌, ensure}
use bip300_monitor.Effect.{Call, commit}

pub data ExtractorWorker : Type 0 where
  node_history mainchain_tip bmm_requests mainchain_events confirmed_bmm_fees enforcer_state
        block_history :
      ExtractorWorker

unfoldable pub worker_discrete : Discrete ExtractorWorker
worker_discrete = hlevel

-- `ExtractorWorker::as_str`.
unfoldable pub as_str : ExtractorWorker → String
as_str node_history = "node_history"
as_str mainchain_tip = "mainchain_tip"
as_str bmm_requests = "bmm_requests"
as_str mainchain_events = "mainchain_events"
as_str confirmed_bmm_fees = "confirmed_bmm_fees"
as_str enforcer_state = "enforcer_state"
as_str block_history = "block_history"

-- A row of `extractor_worker_status`.
pub record WorkerStatus : Type 0 where
  pub consecutive_failures : ℕ
  pub last_error : Option String

pub data RunStatus : Type 0 where
  running completed failed : RunStatus

-- The rows of a run. `is_shown` is whether the row of `extractor_status` is this run's, and
-- `shown_error` its `last_error`.
pub record Health : Type 0 where
  pub workers : ExtractorWorker → Option WorkerStatus
  pub failures : List (ExtractorWorker × String)
  pub is_shown : Bool
  pub shown_error : Option String
  pub status : RunStatus
  pub finish_reason : Option String

unfoldable pub set_worker :
    ExtractorWorker
    → WorkerStatus
    → (ExtractorWorker → Option WorkerStatus)
    → ExtractorWorker
    → Option WorkerStatus
unfolding worker_discrete
set_worker worker row workers other =
    if same worker_discrete other worker then some row else workers other

-- The workers in the order of their names.
abbrev pub by_name : List ExtractorWorker
by_name =
    block_history ∷ bmm_requests ∷ confirmed_bmm_fees ∷ enforcer_state ∷ mainchain_events
    ∷ mainchain_tip ∷ node_history ∷ []

abbrev pub error_of : Option WorkerStatus → Option String
error_of none = none
error_of (some row) = row.last_error

abbrev pub joined : ExtractorWorker → Option String → Option String → Option String
joined worker none rest = rest
joined worker (some text) none = some (as_str worker ⧺ (": " ⧺ text))
joined worker (some text) (some rest) = some (as_str worker ⧺ (": " ⧺ (text ⧺ ("; " ⧺ rest))))

-- `string_agg(worker || ': ' || last_error, '; ' ORDER BY worker)` over the rows with an error.
unfoldable pub aggregate_error :
    (ExtractorWorker → Option WorkerStatus) → List ExtractorWorker → Option String
unfolding as_str
aggregate_error workers [] = none
aggregate_error workers (worker ∷ rest) =
    joined worker (error_of (workers worker)) (aggregate_error workers rest)

-- The update of the row of `extractor_status`, which may be another run's by now.
abbrev shown_as : Option String → Health → Health
shown_as error health = record health {
  shown_error = if health.is_shown then error else health.shown_error;
}

-- `recompute_extractor_error`.
unfoldable pub recompute_extractor_error : Health → Health
unfolding aggregate_error
recompute_extractor_error health = shown_as (aggregate_error health.workers by_name) health

-- `INSERT … ON CONFLICT DO NOTHING` for each worker.
unfoldable pub initialized :
    List ExtractorWorker
    → (ExtractorWorker → Option WorkerStatus)
    → ExtractorWorker
    → Option WorkerStatus
unfolding set_worker
initialized [] workers = workers
initialized (worker ∷ rest) workers = elim (workers worker) [
  | some _ ↦ initialized rest workers
  | none ↦
      initialized rest
        (set_worker worker (record { consecutive_failures = 0; last_error = none }) workers)
]

unfoldable pub initialize_worker_statuses : List ExtractorWorker → Call Health (Unit {0})
unfolding initialized recompute_extractor_error
initialize_worker_statuses workers health = (
  ok tt,
  recompute_extractor_error (record health { workers = initialized workers health.workers }),
)

abbrev pub after_failure : WorkerStatus → ℕ → String → WorkerStatus
after_failure row degraded_after error = record {
  consecutive_failures = suc row.consecutive_failures;
  last_error = if leb degraded_after (suc row.consecutive_failures) then some error else none;
}

abbrev pub failure_rows : ExtractorWorker → String → ℕ → Health → Result (ℕ × Health)
unfolding recompute_extractor_error set_worker
failure_rows worker error degraded_after health = do
  ensure (ltb 0 degraded_after) "worker degradation threshold must be positive"
  ensure (ltb degraded_after (2 ^ 31)) "worker degradation threshold does not fit in an i32"
  row ← or_bail (health.workers worker) "worker status was not initialized"
  ensure (ltb (suc row.consecutive_failures) (2 ^ 31)) "integer out of range"
  ok (
    suc row.consecutive_failures,
    recompute_extractor_error (record health {
      workers = set_worker worker (after_failure row degraded_after error) health.workers;
      failures = (worker, error) ∷ health.failures;
    }),
  )

-- `record_worker_failure`: the count of failures in a row.
unfoldable pub record_worker_failure : ExtractorWorker → String → ℕ → Call Health ℕ
unfolding recompute_extractor_error set_worker
record_worker_failure worker error degraded_after health =
    commit health (failure_rows worker error degraded_after health)

abbrev pub success_rows : ExtractorWorker → Health → Result (Unit {0} × Health)
unfolding recompute_extractor_error set_worker
success_rows worker health = do
  row ← or_bail (health.workers worker) "worker status was not initialized"
  ok (
    tt,
    recompute_extractor_error (record health {
      workers =
          set_worker worker (record { consecutive_failures = 0; last_error = none }) health.workers;
    }),
  )

-- `record_worker_success`.
unfoldable pub record_worker_success : ExtractorWorker → Call Health (Unit {0})
unfolding recompute_extractor_error set_worker
record_worker_success worker health = commit health (success_rows worker health)

abbrev finished : String → RunStatus
unfolding string_discrete
finished status = if same string_discrete status "completed" then completed else failed

-- The row of the run changes only while it is running.
abbrev while_running : {A : Type 0} → RunStatus → A → A → A
while_running running new old = new
while_running _ new old = old

abbrev closed : String → Option String → Health → Health
closed status reason health = record health {
  status = while_running health.status (finished status) health.status;
  finish_reason = while_running health.status reason health.finish_reason;
}

abbrev terminal_error : String → Option String → Option String
unfolding string_discrete
terminal_error status reason = if same string_discrete status "failed" then reason else none

-- `finish_run`.
unfoldable pub finish_run : String → Option String → Call Health (Unit {0})
unfolding string_discrete
finish_run status reason health = commit health (do
  ensure (contains string_discrete ("completed" ∷ "failed" ∷ []) status)
      "invalid terminal extractor run status"
  ok (tt, shown_as (terminal_error status reason) (closed status reason health)))
