-- ===== src/Runtime/Schedule/Turn.antt =====
-- One turn of the loop of `backfill_sidechains`, over an environment.
use bip300_monitor.Base.{
  ℕ, zero, suc, Bool, true, false, String, string_discrete, Option, none, some, [], ◌∷◌,
  bytes_discrete, same, if◌then◌else◌,
}
use bip300_monitor.Failure.{Result, ok, err, message, retryable_rpc_error}
use bip300_monitor.Effect.{Call, pure, fail, attempted, ◌>>=◌, ◌>>◌}
use bip300_monitor.Proto.{ObservedBlock}
use bip300_monitor.Store.Types.{SidechainInstanceRef}
use bip300_monitor.Backfill.Cycle.{
  Outcome, interrupted, superseded_scope, quarantined, deferred, up_to_date, completed,
}
use bip300_monitor.Runtime.Schedule.{
  BackfillRequest, Scheduler, schedule_backfill_retry, Wake, Next, return_now, go_on, serve,
  next_work, id_of, drop_deferred, discard, admit, forget,
}

-- The environment's answers: `select!`, `current_sidechain_instance_id`, `backfill::run`,
-- `record_worker_failure` of a quarantine, and the tip.
pub record WorkIo (E : Type 0) : Type 0 where
  pub select : E → Wake × E
  pub current_instance : ℕ → Call E (Option String)
  pub run : SidechainInstanceRef → ObservedBlock → Call E Outcome
  pub report_quarantine : ℕ → Call E (Unit {0})
  pub current_tip : Call E ObservedBlock

-- How a turn ends: the worker returns, or loops.
pub data Verdict : Type 0 where
  returned looped : Verdict

-- The loop's variables and the environment.
abbrev pub Desk : Type 0 → Type 0
Desk E = Scheduler × E

unfoldable pub is_current : Option String → String → Bool
unfolding string_discrete
is_current none id = false
is_current (some current) id = same string_discrete current id

module _ {E : Type 0} where
  abbrev pub ask : {A : Type 0} → Call E A → Call (Desk E) A
  ask call (s, env) = let (r, after) = call env in (r, (s, after))

  abbrev pub change : {A : Type 0} → (Scheduler → Scheduler) → A → Call (Desk E) A
  change f a (s, env) = (ok a, (f s, env))

module _ {E : Type 0} (io : WorkIo E) where
  abbrev pub later : SidechainInstanceRef → ObservedBlock → Call (Desk E) Verdict
  unfolding schedule_backfill_retry
  later instance target =
      change (schedule_backfill_retry (record { instance = instance; target = target })) looped

  -- What a walk's end calls for: the end of the turn, or the block to reconcile the tip with.
  unfoldable pub settle_outcome :
      SidechainInstanceRef
      → Outcome
      → (ObservedBlock → Call (Desk E) Verdict)
      → Call (Desk E) Verdict
  unfolding ◌>>=◌ schedule_backfill_retry
  settle_outcome instance (interrupted _ _ _) reconcile = pure returned
  settle_outcome instance (superseded_scope _ _ _) reconcile = change (forget instance) looped
  settle_outcome instance (quarantined _) reconcile = do
    ask (io.report_quarantine instance.sidechain)
    pure looped
  settle_outcome instance (deferred target _ _) reconcile = later instance target
  settle_outcome instance (up_to_date target) reconcile = reconcile target
  settle_outcome instance (completed target _ _) reconcile = reconcile target

  -- The tip that the client answers with.
  unfoldable pub after_tip :
      SidechainInstanceRef
      → ObservedBlock
      → (ObservedBlock → Call (Desk E) Verdict)
      → Result ObservedBlock
      → Call (Desk E) Verdict
  unfolding bytes_discrete schedule_backfill_retry retryable_rpc_error
  after_tip instance target again (ok tip) =
      if same bytes_discrete tip.hash target.hash then pure looped else again tip
  after_tip instance target again (err e) =
      if retryable_rpc_error e
      then later instance target
      else fail (message "reconciling sidechain history with the tip" ∷ e)

  -- After a walk that reached its target: the instance and the tip again.
  unfoldable pub reconcile :
      SidechainInstanceRef
      → (ObservedBlock → Call (Desk E) Verdict)
      → ObservedBlock
      → Call (Desk E) Verdict
  unfolding ◌>>=◌ is_current after_tip
  reconcile instance again target = do
    current ← ask (io.current_instance instance.sidechain)
    elim (is_current current instance.sidechain_instance_id) [
      | false ↦ change (forget instance) looped
      | true ↦ do tip ← attempted (ask io.current_tip); after_tip instance target again tip
    ]

  -- The walk, and then the tip that it has to reach: as many times as there is fuel.
  unfoldable pub service : ℕ → SidechainInstanceRef → ObservedBlock → Call (Desk E) Verdict
  unfolding ◌>>=◌ settle_outcome reconcile
  service zero instance target = fail []
  service (suc fuel) instance target = do
    outcome ← ask (io.run instance target)
    settle_outcome instance outcome (reconcile instance (service fuel instance))

  -- A request: a stale one is discarded, another one is served.
  unfoldable pub serve_request : ℕ → BackfillRequest → Bool → Call (Desk E) Verdict
  unfolding ◌>>=◌ drop_deferred is_current discard admit service
  serve_request fuel request from_timer = do
    change (drop_deferred from_timer (id_of request)) tt
    current ← ask (io.current_instance request.instance.sidechain)
    elim (is_current current (id_of request)) [
      | false ↦ change (discard request) looped
      | true ↦ do change (admit request) tt; service fuel request.instance request.target
    ]

  unfoldable pub follow : ℕ → Next → Call (Desk E) Verdict
  unfolding serve_request
  follow fuel return_now desk = (ok returned, desk)
  follow fuel (go_on s) (before, env) = (ok looped, (s, env))
  follow fuel (serve request from_timer s) (before, env) =
      serve_request fuel request from_timer (s, env)

  -- One turn of the loop.
  unfoldable pub schedule_turn : ℕ → Call (Desk E) Verdict
  unfolding next_work follow
  schedule_turn fuel (s, env) =
      let (wake, after) = io.select env in follow fuel (next_work wake s) (s, after)
