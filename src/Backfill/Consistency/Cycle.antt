-- ===== src/Backfill/Consistency/Cycle.antt =====
-- The invariant of the coverage table through the helpers of `run_history`.
use bip300_monitor.Base.{
  ℕ, min, true, Option, none, some, String, Bytes, bytes_discrete, same, ltb, ◌==◌, if◌then◌else◌,
}
use bip300_monitor.Failure.{Error, bail}
use bip300_monitor.Proto.{ObservedBlock}
use bip300_monitor.Store.Types.{
  ScopeKey, HistoryCoverage, HistoryStatus, running, complete, error, superseded,
}
use bip300_monitor.Store.History.{history_coverage, begin_history_cycle, settle_history_failure}
use bip300_monitor.Store.Invariant.Cursor.{
  begin_history_cycle-IsConsistent, resume_history-IsConsistent,
  settle_history_failure-IsConsistent, supersede_history-IsConsistent,
}
use bip300_monitor.Backfill.World.{M, pure, lift, attempt, rpc, store_call, ◌>>=◌}
use bip300_monitor.Backfill.Consistency.{
  Keeps, Keeps-pure, Keeps-lift, Keeps-rpc, Keeps-attempt, Keeps-if, Keeps-bind, Keeps-store_call,
}
use bip300_monitor.Backfill.Cycle.{
  FailureMode, Walk, with_context, scope_is_current, check_instance, mark_superseded, supersede,
  is_quarantined, below_activation, begin_full_cycle, extend_cycle, cycle_of, resume, prepare_cycle,
  probe_result, settled, target_is_available, settle_failure,
}
use bip300_monitor.Backfill.Round.{Progress, settle, restart}

module _ {E P : Type 0} (walk : Walk E P) where
  Keeps-with_context :
      {A : Type 0} (m : M E A) (text : String) → Keeps m → Keeps (with_context m text)
  Keeps-with_context m text k = record { at = λ w h. k.at w h }

  Keeps-check_instance :
      (slot : Option ℕ) (id : Option String) → Keeps (check_instance walk slot id)
  Keeps-check_instance none id = Keeps-pure true
  Keeps-check_instance (some slot) none = Keeps-pure true
  Keeps-check_instance (some slot) (some id) =
      Keeps-bind _ _ (Keeps-store_call walk.io _ (λ db h. h)) λ c. Keeps-pure _

  pub Keeps-scope_is_current : Keeps (scope_is_current walk)
  unfolding scope_is_current
  Keeps-scope_is_current = Keeps-check_instance _ _

  Keeps-supersede : (slot : Option ℕ) (id : Option String) → Keeps (supersede walk slot id)
  Keeps-supersede none id = Keeps-pure tt
  Keeps-supersede (some slot) none = Keeps-pure tt
  Keeps-supersede (some slot) (some id) =
      Keeps-store_call walk.io _ (supersede_history-IsConsistent walk.store _ slot id _)

  pub Keeps-mark_superseded : Keeps (mark_superseded walk)
  unfolding mark_superseded
  Keeps-mark_superseded = Keeps-supersede _ _

  pub Keeps-is_quarantined : Keeps (is_quarantined walk)
  unfolding is_quarantined
  Keeps-is_quarantined =
      Keeps-bind _ _
        (Keeps-with_context _ _ (Keeps-store_call walk.io _ (unfold history_coverage in λ db h. h)))
        λ c. Keeps-pure _

  abbrev scope_key : ScopeKey
  scope_key = walk.stream.scope.key

  abbrev start : ℕ
  start = walk.stream.scope.activation_height

  Keeps-begin :
      (covered : Option ObservedBlock) (tip : ObservedBlock) (hash : Option Bytes)
      (height : Option ℕ) (n : ℕ)
      → Keeps (
          store_call walk.io
            (begin_history_cycle walk.store scope_key start covered tip hash height n))
  Keeps-begin covered tip hash height n = Keeps-store_call walk.io _ λ db h.
      begin_history_cycle-IsConsistent walk.store scope_key db h start covered tip hash height n

  pub Keeps-begin_full_cycle : (tip : ObservedBlock) (n : ℕ) → Keeps (begin_full_cycle walk tip n)
  unfolding begin_full_cycle
  Keeps-begin_full_cycle tip n =
      Keeps-with_context _ _ (Keeps-begin none tip none (below_activation walk) n)

  Keeps-extend_cycle :
      (c : HistoryCoverage) (tip : ObservedBlock) (height n : ℕ)
      → Keeps (extend_cycle walk c tip height n)
  unfolding extend_cycle
  Keeps-extend_cycle c tip height n = Keeps-bind _ _ (Keeps-lift _) λ covered.
      Keeps-if (same bytes_discrete covered.hash tip.hash) _ _ (Keeps-pure none) (
        Keeps-bind _ _ (Keeps-lift _) λ covered_height.
          Keeps-if (ltb covered_height height) _ _
            (Keeps-bind _ _
              (Keeps-with_context _ _ (
                Keeps-begin (some covered) tip (some covered.hash) covered.height
                  (min c.effective_page_blocks n)))
              λ d. Keeps-pure _)
            (Keeps-bind _ _ (Keeps-begin_full_cycle tip (min c.effective_page_blocks n))
              λ d. Keeps-pure _))

  Keeps-resume : (c : HistoryCoverage) → Keeps (resume walk c)
  Keeps-resume c =
      Keeps-bind _ _
        (Keeps-with_context _ _ (
          Keeps-store_call walk.io _ λ db h. resume_history-IsConsistent walk.store scope_key db h))
        λ _. Keeps-pure _

  Keeps-cycle_of :
      (s : HistoryStatus) (c : HistoryCoverage) (tip : ObservedBlock) (height n : ℕ)
      → Keeps (cycle_of walk s c tip height n)
  Keeps-cycle_of running c tip height n = Keeps-pure _
  Keeps-cycle_of error c tip height n = Keeps-resume c
  Keeps-cycle_of superseded c tip height n = Keeps-resume c
  Keeps-cycle_of complete c tip height n = Keeps-extend_cycle c tip height n

  Keeps-chosen :
      (existing : Option HistoryCoverage) (tip : ObservedBlock) (height n : ℕ)
      → Keeps (elim existing [
        | none ↦ begin_full_cycle walk tip n >>= λ coverage. pure (some coverage)
        | some coverage ↦
            if coverage.coverage_start_height == start
            then cycle_of walk coverage.status coverage tip height n
            else lift (bail "history stream starts at another height")
      ])
  Keeps-chosen none tip height n = Keeps-bind _ _ (Keeps-begin_full_cycle tip n) λ d. Keeps-pure _
  Keeps-chosen (some c) tip height n =
      Keeps-if (c.coverage_start_height == start) _ _ (Keeps-cycle_of c.status c tip height n)
        (Keeps-lift _)

  pub Keeps-prepare_cycle : (tip : ObservedBlock) (n : ℕ) → Keeps (prepare_cycle walk tip n)
  unfolding prepare_cycle
  Keeps-prepare_cycle tip n = Keeps-bind _ _ (Keeps-lift _) λ height.
      Keeps-if (ltb height start) _ _ (Keeps-lift _) (
        Keeps-bind _ _
          (Keeps-with_context _ _
            (Keeps-store_call walk.io _ (unfold history_coverage in λ db h. h)))
          λ existing. Keeps-chosen existing tip height n)

  pub Keeps-target_is_available : (target : ObservedBlock) → Keeps (target_is_available walk target)
  unfolding target_is_available
  Keeps-target_is_available target =
      Keeps-bind (attempt (rpc (walk.io.fetch target 1))) _
        (Keeps-attempt (rpc (walk.io.fetch target 1)) (Keeps-rpc (walk.io.fetch target 1)))
        λ found. Keeps-lift (probe_result walk found)

  Keeps-settle_failure :
      (e : Error) (target : ObservedBlock) (blocks pages : ℕ) (mode : FailureMode)
      → Keeps (settle_failure walk e target blocks pages mode)
  unfolding settle_failure
  Keeps-settle_failure e target blocks pages mode =
      Keeps-bind
        (attempt (
          store_call walk.io (settle_history_failure walk.store scope_key (walk.ext.error_text e))))
        _
        (Keeps-attempt _ (
          Keeps-store_call walk.io _ λ db h.
            settle_history_failure-IsConsistent walk.store scope_key db h (walk.ext.error_text e)))
        λ status. Keeps-lift (settled walk status e target blocks pages mode)

  pub Keeps-settle : (p : Progress) (e : Error) (mode : FailureMode) → Keeps (settle walk p e mode)
  Keeps-settle p e mode = record {
    at = (Keeps-settle_failure e p.coverage.target_tip p.blocks p.pages mode).at;
  }

  pub Keeps-restart : (p : Progress) (target : ObservedBlock) → Keeps (restart walk p target)
  Keeps-restart p target =
      Keeps-bind _ _ (Keeps-begin_full_cycle target p.coverage.effective_page_blocks)
        λ c. Keeps-pure _
