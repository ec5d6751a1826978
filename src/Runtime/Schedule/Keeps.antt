-- ===== src/Runtime/Schedule/Keeps.antt =====
-- Properties of the loop's variables that a turn keeps, whatever the environment answers.
use bip300_monitor.Base.{Bool-cases, inl, inr, ℕ, zero, suc, Bool, bytes_discrete, same}
use bip300_monitor.Failure.{Result, ok, err, retryable_rpc_error}
use bip300_monitor.Effect.{Call, continue, attempted, pure, ◌>>=◌}
use bip300_monitor.Proto.{ObservedBlock}
use bip300_monitor.Store.Types.{SidechainInstanceRef}
use bip300_monitor.Backfill.Cycle.{
  Outcome, interrupted, superseded_scope, quarantined, deferred, up_to_date, completed,
}
use bip300_monitor.Runtime.Schedule.{
  BackfillRequest, Scheduler, schedule_backfill_retry, Wake, Next, return_now, go_on, serve,
  next_work, id_of, drop_deferred, discard, admit, forget,
}
use bip300_monitor.Runtime.Schedule.Turn.{
  WorkIo, Verdict, looped, Desk, is_current, ask, change, settle_outcome, after_tip, reconcile,
  service, serve_request, follow, schedule_turn,
}

-- The changes of the variables while one instance is served keep a property.
pub record IsServed (P : Scheduler → Type 0) (instance : SidechainInstanceRef) : Type 0 where
  pub retried :
      (target : ObservedBlock) (s : Scheduler)
      → P s
      → P (schedule_backfill_retry (record { instance = instance; target = target }) s)
  pub forgotten : (s : Scheduler) → P s → P (forget instance s)

-- The changes of the variables within a turn keep a property.
pub record IsKept (P : Scheduler → Type 0) : Type 0 where
  pub retried :
      (request : BackfillRequest) (s : Scheduler) → P s → P (schedule_backfill_retry request s)
  pub forgotten : (instance : SidechainInstanceRef) (s : Scheduler) → P s → P (forget instance s)
  pub discarded : (request : BackfillRequest) (s : Scheduler) → P s → P (discard request s)
  pub admitted : (request : BackfillRequest) (s : Scheduler) → P s → P (admit request s)

-- A property of the variables that the loop goes on with, or that a request is served with.
abbrev pub After : (Scheduler → Type 0) → Next → Type 0
After P return_now = Unit
After P (go_on s) = P s
After P (serve request from_timer s) = P (drop_deferred from_timer (id_of request) s)

module _ {E : Type 0} (P : Scheduler → Type 0) where
  abbrev pub Keeps : {A : Type 0} → Call (Desk E) A → Type 0
  Keeps m = (desk : Desk E) → P desk.0 → P (m desk).1.0

  continue-Keeps :
      {A B : Type 0} (r : Result A × Desk E) (f : A → Call (Desk E) B)
      → P r.1.0
      → ((a : A) → Keeps (f a))
      → P (continue r f).1.0
  continue-Keeps (ok a, desk) f p k = k a desk p
  continue-Keeps (err e, desk) f p k = p

  bind-Keeps :
      {A B : Type 0} (m : Call (Desk E) A) (f : A → Call (Desk E) B)
      → Keeps m
      → ((a : A) → Keeps (f a))
      → Keeps (m >>= f)
  unfolding ◌>>=◌
  bind-Keeps m f k l desk p = continue-Keeps (m desk) f (k desk p) l

  ask-Keeps : {A : Type 0} (call : Call E A) → Keeps (ask call)
  ask-Keeps call desk p = p

  change-Keeps :
      {A : Type 0} (f : Scheduler → Scheduler) (a : A)
      → ((s : Scheduler) → P s → P (f s))
      → Keeps (change f a)
  change-Keeps f a k (s, env) p = k s p

  module _ (io : WorkIo E) (instance : SidechainInstanceRef) (served : IsServed P instance) where
    settle_outcome-Keeps :
        (outcome : Outcome) (then : ObservedBlock → Call (Desk E) Verdict)
        → ((target : ObservedBlock) → Keeps (then target))
        → Keeps (settle_outcome io instance outcome then)
    unfolding settle_outcome
    settle_outcome-Keeps (interrupted _ _ _) then k desk p = p
    settle_outcome-Keeps (superseded_scope _ _ _) then k desk p = served.forgotten desk.0 p
    settle_outcome-Keeps (quarantined _) then k desk p =
        bind-Keeps (ask (io.report_quarantine instance.sidechain)) (λ _. pure looped)
          (ask-Keeps (io.report_quarantine instance.sidechain)) (λ _ desk p. p) desk p
    settle_outcome-Keeps (deferred target _ _) then k desk p = served.retried target desk.0 p
    settle_outcome-Keeps (up_to_date target) then k desk p = k target desk p
    settle_outcome-Keeps (completed target _ _) then k desk p = k target desk p

    after_tip-Keeps :
        (target : ObservedBlock) (again : ObservedBlock → Call (Desk E) Verdict)
        (tip : Result ObservedBlock)
        → ((t : ObservedBlock) → Keeps (again t))
        → Keeps (after_tip io instance target again tip)
    unfolding after_tip
    after_tip-Keeps target again (ok tip) k desk p =
        elim (Bool-cases (same bytes_discrete tip.hash target.hash)) [
          | inl e ↦ rw (e) p
          | inr e ↦ rw (e) (k tip desk p)
        ]
    after_tip-Keeps target again (err x) k desk p = elim (Bool-cases (retryable_rpc_error x)) [
      | inl e ↦ rw (e) (served.retried target desk.0 p)
      | inr e ↦ rw (e) p
    ]

    reconcile-Keeps :
        (again : ObservedBlock → Call (Desk E) Verdict) (target : ObservedBlock)
        → ((t : ObservedBlock) → Keeps (again t))
        → Keeps (reconcile io instance again target)
    unfolding reconcile
    reconcile-Keeps again target k =
        bind-Keeps (ask (io.current_instance instance.sidechain)) _
          (ask-Keeps (io.current_instance instance.sidechain))
          (λ current desk p. elim (Bool-cases (is_current current instance.sidechain_instance_id)) [
            | inr e ↦ rw (e) (served.forgotten desk.0 p)
            | inl e ↦ rw (e) (
                bind-Keeps (attempted (ask io.current_tip)) (after_tip io instance target again)
                  (λ d q. q) (λ tip. after_tip-Keeps target again tip k) desk p)
          ])

    pub service-Keeps :
        (fuel : ℕ) (target : ObservedBlock) → Keeps (service io fuel instance target)
    unfolding service
    service-Keeps zero target desk p = p
    service-Keeps (suc fuel) target desk p =
        bind-Keeps (ask (io.run instance target)) _ (ask-Keeps (io.run instance target))
          (λ outcome.
            settle_outcome-Keeps outcome (reconcile io instance (service io fuel instance))
              (λ t. reconcile-Keeps (service io fuel instance) t (λ u. service-Keeps fuel u)))
          desk p

  module _ (io : WorkIo E) (kept : IsKept P) where
    -- Serving a request keeps what holds once its timer is off the list.
    pub serve_request-Keeps :
        (fuel : ℕ) (request : BackfillRequest) (from_timer : Bool) (s : Scheduler) (env : E)
        → P (drop_deferred from_timer (id_of request) s)
        → P (serve_request io fuel request from_timer (s, env)).1.0
    unfolding serve_request
    serve_request-Keeps fuel request from_timer s env p =
        bind-Keeps (ask (io.current_instance request.instance.sidechain)) _
          (ask-Keeps (io.current_instance request.instance.sidechain))
          (λ current desk q. elim (Bool-cases (is_current current (id_of request))) [
            | inr e ↦ rw (e) (kept.discarded request desk.0 q)
            | inl e ↦ rw (e) (
                bind-Keeps (change (admit request) tt)
                  (λ _. service io fuel request.instance request.target)
                  (change-Keeps (admit request) tt (kept.admitted request))
                  (λ _.
                    service-Keeps io request.instance
                      (record {
                        retried = λ target s. kept.retried _ s;
                        forgotten = λ s. kept.forgotten request.instance s;
                      })
                      fuel request.target)
                  desk q)
          ])
          (drop_deferred from_timer (id_of request) s, env) p

    follow-Keeps :
        (fuel : ℕ) (next : Next) (s : Scheduler) (env : E)
        → P s
        → After P next
        → P (follow io fuel next (s, env)).1.0
    unfolding follow
    follow-Keeps fuel return_now s env p after = p
    follow-Keeps fuel (go_on t) s env p after = after
    follow-Keeps fuel (serve request from_timer t) s env p after =
        serve_request-Keeps fuel request from_timer t env after

    -- One turn keeps what the loop's head leaves.
    pub schedule_turn-Keeps :
        (fuel : ℕ) (s : Scheduler) (env : E)
        → P s
        → ((wake : Wake) → After P (next_work wake s))
        → P (schedule_turn io fuel (s, env)).1.0
    unfolding schedule_turn
    schedule_turn-Keeps fuel s env p after =
        follow-Keeps fuel (next_work (io.select env).0 s) s (io.select env).1 p
          (after (io.select env).0)
