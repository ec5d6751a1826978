-- ===== src/Runtime/Sampling/Stable.antt =====
-- The subscriptions at startup and the snapshot that comes with them.
use mathlib.Core.Path.{subst}
use bip300_monitor.Base.{
  ℕ, String, zero, suc, ◌≡◌, sym, ap, ◌∙◌, inl, inr, List, [], ◌∷◌, map, same, same-eq, Bool-cases,
  arith, if◌then◌else◌,
}
use bip300_monitor.Failure.{Result, ok, err, context}
use bip300_monitor.Effect.{Call, lift}
use bip300_monitor.Effect.Laws.{bind-ok}
use bip300_monitor.Proto.{EnforcerEvent}
use bip300_monitor.Store.Types.{Externals, SidechainInstanceRef}
use bip300_monitor.Runtime.Instances.{
  is_empty, select_active_instances, active_instances_from_state, active_instances_for_slots,
}
use bip300_monitor.Runtime.Sampling.{
  PreparedObservation, StartupSource, snapshot_max_attempts, within, subscribe_all,
  collect_initial_snapshot_attempts, prepare_observation, instances_discrete, slots_of,
  stable_attempts, prepare_stable_observation,
}

value_or : {A : Type 0} → A → Result A → A
value_or a (ok b) = b
value_or a (err x) = a

ok_eq : {S A : Type 0} (a b : A) (s t : S) → ◌≡◌ {A = Result A × S} (ok a, s) (ok b, t) → a ≡ b
unfolding value_or
ok_eq a b s t e = ap (λ r. value_or a r.0) e

pair-ok :
    {E A : Type 0} (r : Result A × E) (text : String) (a : A) (after : E)
    → ◌≡◌ {A = Result A × E} (context r.0 text, r.1) (ok a, after)
    → r ≡ (ok a, after)
pair-ok (ok x, s) text a after e = e
pair-ok (err x, s) text a after e = absurd (ground arith)

within-ok :
    {E A : Type 0} (call : Call E A) (text : String) (env after : E) (a : A)
    → within call text env ≡ (ok a, after)
    → call env ≡ (ok a, after)
within-ok call text env after a e = pair-ok (call env) text a after e

module _ {E St : Type 0} (source : StartupSource E St) where
  abbrev slots_of_streams : List (ℕ × St) → List ℕ
  slots_of_streams streams = map (λ (s : ℕ × St). s.0) streams

  subscribe_all-ok :
      (slots : List ℕ) (env after : E) (streams : List (ℕ × St))
      → subscribe_all source slots env ≡ (ok streams, after)
      → slots_of_streams streams ≡ slots
  unfolding subscribe_all
  subscribe_all-ok [] env after streams e = ap slots_of_streams (sym (ok_eq _ _ _ _ e))
  subscribe_all-ok (slot ∷ slots) env after streams e =
      let (stream, env1, q1, e1) =
        bind-ok (within (source.subscribe_events slot) _) _ env streams after e in
      let (rest, env2, q2, e2) = bind-ok (subscribe_all source slots) _ env1 streams after e1 in
      ap slots_of_streams (sym (ok_eq _ _ _ _ e2))
      ∙ ap (λ l. slot ∷ l) (subscribe_all-ok slots env1 env2 rest q2)

  prepare_observation-ok :
      (slots sidechains : List ℕ) (env after : E) (observation : PreparedObservation St)
      → prepare_observation source slots sidechains env ≡ (ok observation, after)
      → slots_of_streams observation.streams ≡ slots
  unfolding prepare_observation
  prepare_observation-ok slots sidechains env after observation e =
      let (streams, env1, q1, e1) =
        bind-ok (within (subscribe_all source slots) _) _ env observation after e in
      let (collected, env2, q2, e2) =
        bind-ok (collect_initial_snapshot_attempts source sidechains) _ env1 observation after e1 in
      ap (λ (o : PreparedObservation St). slots_of_streams o.streams) (sym (ok_eq _ _ _ _ e2))
      ∙ subscribe_all-ok slots env env1 streams
          (within-ok (subscribe_all source slots) _ env env1 streams q1)

  module _ (ext : Externals) (configured : List ℕ) where
    -- The streams are those of the instances that the snapshot names, and the observed slots are
    -- these, or the configured ones where there are any.
    abbrev pub IsStable : List ℕ → PreparedObservation St → Type 0
    IsStable sidechains observation =
        (actual : List SidechainInstanceRef) × (active_instances_for_slots ext
            observation.snapshot.state configured
          ≡ ok actual)
        × (slots_of_streams observation.streams ≡ slots_of actual)
        × (sidechains ≡ (if is_empty configured then slots_of actual else configured))

    from_state :
        (read actual : List SidechainInstanceRef) (state : List EnforcerEvent)
        → active_instances_from_state ext state ≡ ok read
        → select_active_instances read configured ≡ ok actual
        → active_instances_for_slots ext state configured ≡ ok actual
    unfolding active_instances_for_slots
    from_state read actual state r a = rw (active_instances_for_slots, r) a

    stable_attempts-ok :
        (left : ℕ) (env after : E) (sidechains : List ℕ) (observation : PreparedObservation St)
        → stable_attempts source ext configured left env ≡ (ok (sidechains, observation), after)
        → IsStable sidechains observation
    unfolding stable_attempts
    stable_attempts-ok zero env after sidechains observation e = absurd (ground arith)
    stable_attempts-ok (suc left) env after sidechains observation e =
        let (active, env1, q1, e1) = bind-ok (within source.active_instances _) _ env _ after e in
        let (expected, env2, q2, e2) =
          bind-ok (lift (select_active_instances active configured)) _ env1 _ after e1 in
        let slots = if is_empty configured then slots_of expected else configured in
        let (prepared, env3, q3, e3) =
          bind-ok (prepare_observation source (slots_of expected) slots) _ env2 _ after e2 in
        let (read, env4, q4, e4) =
          bind-ok (lift (active_instances_from_state ext prepared.snapshot.state)) _ env3 _ after
            e3 in
        let (actual, env5, q5, e5) =
          bind-ok (lift (select_active_instances read configured)) _ env4 _ after e4 in
        elim (Bool-cases (same instances_discrete actual expected)) [
          | inr moved ↦ stable_attempts-ok left env5 after sidechains observation (rw (moved) at e5)
          | inl still ↦
              let same_instances = same-eq instances_discrete actual expected still in
              let pair = ok_eq _ _ _ _ (rw (still) at e5) in
              let chosen =
                from_state read actual prepared.snapshot.state
                  (ap (λ (r : Result (List SidechainInstanceRef) × E). r.0) q4)
                  (ap (λ (r : Result (List SidechainInstanceRef) × E). r.0) q5) in
              subst (λ (r : List ℕ × PreparedObservation St). IsStable r.0 r.1) pair
                (
                  actual,
                  chosen,
                  prepare_observation-ok (slots_of expected) slots env2 env3 prepared q3
                      ∙ ap slots_of (sym same_instances),
                  ap (λ l. if is_empty configured then slots_of l else configured)
                      (sym same_instances),
                )
        ]

    -- What `prepare_stable_observation` returns belongs together: one stream for each instance that the
    -- returned snapshot names among the configured slots, in their order, and no other. The observed
    -- slots are those of the instances, or the configured ones where there are any.
    pub prepare_stable_observation-ok :
        (env after : E) (sidechains : List ℕ) (observation : PreparedObservation St)
        → prepare_stable_observation source ext configured env
          ≡ (ok (sidechains, observation), after)
        → IsStable sidechains observation
    unfolding prepare_stable_observation
    prepare_stable_observation-ok env after sidechains observation e =
        stable_attempts-ok snapshot_max_attempts env after sidechains observation e
