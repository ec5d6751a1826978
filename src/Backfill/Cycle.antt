-- ===== src/Backfill/Cycle.antt =====
-- The helpers of `run_history` in extractors/enforcer/src/backfill.rs that talk to the store and to
-- the client: choosing the cursor of a cycle, probing a target, and settling a failure.
use bip300_monitor.Base.{
  ℕ, ◌-◌, min, Bool, true, false, ◌&&◌, String, string_discrete, Option, none, some, List, [], ◌∷◌,
  bytes_discrete, same, ltb, ◌==◌, if◌then◌else◌,
}
use bip300_monitor.Failure.{Error, Result, ok, err, message, context, or_bail, bail}
use bip300_monitor.Proto.{ObservedBlock}
use bip300_monitor.Store.Types.{
  Externals, Store, ScopeKey, HistoryStatus, running, complete, error, superseded, status_discrete,
  HistoryCoverage, required_height,
}
use bip300_monitor.Store.Update.{Tx, history_conflict_text}
use bip300_monitor.Store.History.{
  history_coverage, begin_history_cycle, resume_history, settle_history_failure, supersede_history,
}
use bip300_monitor.Store.Instances.{slot_instance}
use bip300_monitor.Backfill.Page.{HistoryStream}
use bip300_monitor.Backfill.World.{Io, M, pure, lift, attempt, rpc, store_call, ◌>>=◌, ◌>>◌}

pub data Outcome : Type 0 where
  up_to_date : ObservedBlock → Outcome
  completed : ObservedBlock → ℕ → ℕ → Outcome
  deferred : ObservedBlock → ℕ → ℕ → Outcome
  superseded_scope : ObservedBlock → ℕ → ℕ → Outcome
  interrupted : ObservedBlock → ℕ → ℕ → Outcome
  quarantined : ObservedBlock → Outcome

pub data FailureMode : Type 0 where
  fatal deferrable : FailureMode

-- `Result::with_context` around a call.
abbrev pub with_context : {E A : Type 0} → M E A → String → M E A
with_context m text w = let (r, w') = m w in (context r text, w')

-- The variables of `run_history` that are the same in every round.
pub record Walk (E P : Type 0) : Type 0 where
  pub ext : Externals
  pub store : Store
  pub io : Io E P
  pub stream : HistoryStream P

-- `current_sidechain_instance_id`.
abbrev current_sidechain_instance_id : ℕ → Tx (Option String)
current_sidechain_instance_id slot db = (ok (slot_instance slot db.current), db)

abbrev is_instance : Option String → String → Bool
is_instance none id = false
is_instance (some current) id = same string_discrete current id

module _ {E P : Type 0} (walk : Walk E P) where
  abbrev call : {A : Type 0} → Tx A → M E A
  call = store_call walk.io

  abbrev key : ScopeKey
  key = walk.stream.scope.key

  abbrev pub check_instance : Option ℕ → Option String → M E Bool
  check_instance (some slot) (some id) = do
    current ← call (current_sidechain_instance_id slot)
    pure (is_instance current id)
  check_instance _ _ = pure true

  unfoldable pub scope_is_current : M E Bool
  unfolding ◌>>=◌ store_call string_discrete
  scope_is_current = check_instance key.sidechain key.sidechain_instance_id

  abbrev pub supersede : Option ℕ → Option String → M E (Unit {0})
  supersede (some slot) (some id) =
      call
        (supersede_history walk.store key.stream slot id "sidechain instance is no longer active")
  supersede _ _ = pure tt

  unfoldable pub mark_superseded : M E (Unit {0})
  unfolding store_call supersede_history
  mark_superseded = supersede key.sidechain key.sidechain_instance_id

  abbrev holds_conflict : Option HistoryCoverage → Bool
  holds_conflict none = false
  holds_conflict (some c) =
      same status_discrete c.status error && is_instance c.last_error history_conflict_text

  unfoldable pub is_quarantined : M E Bool
  unfolding ◌>>=◌ store_call history_coverage status_discrete string_discrete
  is_quarantined = do
    coverage ← with_context (call (history_coverage walk.store key)) "reading history coverage"
    pure (holds_conflict coverage)

  -- `scope.activation_height.checked_sub(1)`.
  abbrev pub below_activation : Option ℕ
  below_activation =
      if walk.stream.scope.activation_height == 0
      then none
      else some (walk.stream.scope.activation_height - 1)

  unfoldable pub begin_full_cycle : ObservedBlock → ℕ → M E HistoryCoverage
  unfolding store_call begin_history_cycle
  begin_full_cycle tip page_blocks =
      with_context
        (call (
          begin_history_cycle walk.store key walk.stream.scope.activation_height none tip none
            below_activation page_blocks))
        "starting full history"

  -- The branch of `prepare_cycle` for a completed scope: nothing to do, an extension, or a full walk.
  unfoldable pub extend_cycle :
      HistoryCoverage → ObservedBlock → ℕ → ℕ → M E (Option HistoryCoverage)
  unfolding ◌>>=◌ store_call begin_history_cycle begin_full_cycle required_height bytes_discrete
  extend_cycle existing tip tip_height configured = do
    covered ← lift (or_bail existing.covered_tip "completed history coverage has no covered tip")
    if same bytes_discrete covered.hash tip.hash then pure none else do
      let page_blocks = min existing.effective_page_blocks configured
      covered_height ← lift (required_height covered "covered history tip")
      if ltb covered_height tip_height
          then (do
            coverage ←
                with_context
                  (call (
                    begin_history_cycle walk.store key walk.stream.scope.activation_height
                      (some covered) tip (some covered.hash) covered.height page_blocks))
                  "extending history"
            pure (some coverage))
          else do coverage ← begin_full_cycle tip page_blocks; pure (some coverage)

  abbrev pub resume : HistoryCoverage → M E (Option HistoryCoverage)
  resume existing = do
    with_context (call (resume_history walk.store key)) "resuming history"
    pure (some (record existing { status = running; last_error = none }))

  abbrev pub cycle_of :
      HistoryStatus → HistoryCoverage → ObservedBlock → ℕ → ℕ → M E (Option HistoryCoverage)
  cycle_of running existing tip tip_height configured = pure (some existing)
  cycle_of error existing tip tip_height configured = resume existing
  cycle_of superseded existing tip tip_height configured = resume existing
  cycle_of complete existing tip tip_height configured =
      extend_cycle existing tip tip_height configured

  -- The cursor to walk from, or nothing where the tip is covered already.
  unfoldable pub prepare_cycle : ObservedBlock → ℕ → M E (Option HistoryCoverage)
  unfolding ◌>>=◌ store_call history_coverage resume_history begin_full_cycle extend_cycle
      required_height
  prepare_cycle tip configured = do
    tip_height ← lift (required_height tip "history target")
    if ltb tip_height walk.stream.scope.activation_height
        then lift (bail "history stream starts after the target tip")
        else do
          existing ←
              with_context (call (history_coverage walk.store key)) "reading history coverage"
          elim existing [
            | none ↦ do coverage ← begin_full_cycle tip configured; pure (some coverage)
            | some coverage ↦
                if coverage.coverage_start_height == walk.stream.scope.activation_height
                then cycle_of coverage.status coverage tip tip_height configured
                else lift (bail "history stream starts at another height")
          ]

  abbrev pub probe_result : Result (List P) → Result (Option Bool)
  probe_result (ok []) = ok (some false)
  probe_result (ok (_ ∷ _)) = ok (some true)
  probe_result (err e) =
      if walk.stream.inconclusive_probe_error e
      then ok none
      else if walk.stream.unavailable_error e
      then ok (some false)
      else err (message "probing the persisted history target" ∷ e)

  unfoldable pub target_is_available : ObservedBlock → M E (Option Bool)
  unfolding ◌>>=◌
  target_is_available target = do
    found ← attempt (rpc (walk.io.fetch target 1))
    lift (probe_result found)

  abbrev pub settled :
      Result HistoryStatus → Error → ObservedBlock → ℕ → ℕ → FailureMode → Result Outcome
  settled (err mark_error) e target blocks pages mode =
      err (message "also failed to settle the history error in Postgres" ∷ e)
  settled (ok superseded) e target blocks pages mode = ok (superseded_scope target blocks pages)
  settled (ok error) e target blocks pages deferrable = ok (deferred target blocks pages)
  settled (ok error) e target blocks pages fatal = err e
  settled (ok _) e target blocks pages mode =
      err (message "history failure settled to unexpected status" ∷ e)

  unfoldable pub settle_failure : Error → ObservedBlock → ℕ → ℕ → FailureMode → M E Outcome
  unfolding ◌>>=◌ store_call settle_history_failure
  settle_failure e target blocks pages mode = do
    status ← attempt (call (settle_history_failure walk.store key (walk.ext.error_text e)))
    lift (settled status e target blocks pages mode)
