-- ===== src/Runtime/Sampling.antt =====
-- Reads that are bracketed by reads of the tip: `bmm_consistency`, `collect_bmm_sample`,
-- `snapshot_tips_are_consistent`, `collect_initial_snapshot_attempts`, `prepare_observation` and
-- `prepare_stable_observation` of extractors/enforcer/src/runtime.rs. The traits through which the code
-- reads (`BmmSource`, `StartupSource`) are records of calls on an environment; clocks are left out.
pub mod Laws
pub mod Startup
pub mod Stable
use bip300_monitor.Base.{
  ℕ, zero, suc, Bool, true, false, ◌&&◌, String, string_discrete, Option, none, some, List, [], ◌∷◌,
  Bytes, bytes_discrete, same, map, if◌then◌else◌, ltb, ◌||◌, ◌==◌,
}
use bip300_monitor.Failure.{Result, ok, err, bail, context}
use bip300_monitor.Effect.{Call, pure, lift, fail, ◌>>=◌, ◌>>◌}
use bip300_monitor.Proto.{ObservedBlock, EnforcerEvent}
use bip300_monitor.Store.Types.{
  Externals, SidechainInstanceRef, instance_discrete, SnapshotConsistency, stable, tip_matched,
  unknown, changed, consistency_discrete, SnapshotMetadata, revision_discrete,
}
use bip300_monitor.Runtime.Instances.{
  is_empty, select_active_instances, active_instances_from_state,
}

abbrev pub snapshot_max_attempts : ℕ
snapshot_max_attempts = 3

-- `bmm_consistency`: `now` and `ready_at` are instants.
unfoldable pub bmm_consistency : SnapshotConsistency → ℕ → ℕ → SnapshotConsistency
unfolding consistency_discrete
bmm_consistency sampled now ready_at =
    if ltb now ready_at && same consistency_discrete sampled tip_matched then unknown else sampled

-- A call with the context that the code gives its error.
abbrev pub within : {E A : Type 0} → Call E A → String → Call E A
within call text env = let (r, after) = call env in (context r text, after)

-- `BmmSource`, and `convert::bmm_requests` on what it answers.
pub record BmmSource (E R : Type 0) : Type 0 where
  pub revision : Call E (Option String)
  pub current_tip : Call E ObservedBlock
  pub bmm_requests : Bytes → Call E R
  pub convert : Bytes → R → Result EnforcerEvent

abbrev pub sampled :
    Result EnforcerEvent → SnapshotMetadata → Result (Option (EnforcerEvent × SnapshotMetadata))
sampled (ok payload) metadata = ok (some (payload, metadata))
sampled (err e) metadata = err e

module _ {E R : Type 0} (source : BmmSource E R) where
  -- One attempt: nothing where the tip or the revision moved around the answer.
  abbrev pub judge_sample :
      ℕ
      → Option String × ObservedBlock
      → R
      → Option String × ObservedBlock
      → Result (Option (EnforcerEvent × SnapshotMetadata))
  unfolding bytes_discrete revision_discrete
  judge_sample attempt (revision_before, tip_before) response (revision_after, tip_after) =
      if same bytes_discrete tip_before.hash tip_after.hash
        && same revision_discrete revision_before revision_after
      then sampled
          (context (source.convert tip_before.hash response) "converting live BMM requests")
          (record {
            revision_before = revision_before;
            revision_after = revision_after;
            tip_before = tip_before;
            tip_after = tip_after;
            consistency = tip_matched;
            attempts = attempt;
          })
      else ok none

  unfoldable pub sample_once : ℕ → Call E (Option (EnforcerEvent × SnapshotMetadata))
  unfolding ◌>>=◌ bytes_discrete revision_discrete
  sample_once attempt = do
    revision_before ← source.revision
    tip_before ← within source.current_tip "reading the mainchain tip before sampling BMM requests"
    response ← within (source.bmm_requests tip_before.hash) "sampling live BMM requests"
    tip_after ← within source.current_tip "reading the mainchain tip after sampling BMM requests"
    revision_after ← source.revision
    lift (judge_sample attempt (revision_before, tip_before) response (revision_after, tip_after))

  -- The attempts from number `attempt` on, of which so many are left.
  unfoldable pub sample_attempts : ℕ → ℕ → Call E (EnforcerEvent × SnapshotMetadata)
  unfolding ◌>>=◌ sample_once
  sample_attempts zero attempt =
      lift (bail "mainchain tip changed during every BMM snapshot attempt")
  sample_attempts (suc left) attempt = do
    sample ← sample_once attempt
    elim sample [ some taken ↦ pure taken | none ↦ sample_attempts left (suc attempt) ]

  -- `collect_bmm_sample`.
  unfoldable pub collect_bmm_sample : ℕ → Call E (EnforcerEvent × SnapshotMetadata)
  unfolding sample_attempts
  collect_bmm_sample max_attempts = sample_attempts max_attempts 1

-- `InitialSnapshot`.
pub record InitialSnapshot : Type 0 where
  pub anchor : ObservedBlock
  pub constants : List EnforcerEvent
  pub state : List EnforcerEvent

-- `snapshot_tips_are_consistent`.
unfoldable pub snapshot_tips_are_consistent : Bytes → Bytes → Bytes → Bool
unfolding bytes_discrete
snapshot_tips_are_consistent tip_before snapshot_tip tip_after =
    same bytes_discrete tip_before snapshot_tip && same bytes_discrete snapshot_tip tip_after

unfoldable pub instances_discrete : Discrete (List SidechainInstanceRef)
unfolding instance_discrete
instances_discrete = hlevel instance_discrete

abbrev pub slots_of : List SidechainInstanceRef → List ℕ
slots_of instances = map (λ (i : SidechainInstanceRef). i.sidechain) instances

-- `StartupSource`.
pub record StartupSource (E St : Type 0) : Type 0 where
  pub active_instances : Call E (List SidechainInstanceRef)
  pub subscribe_events : ℕ → Call E St
  pub current_tip : Call E ObservedBlock
  pub collect_snapshot : List ℕ → Call E InitialSnapshot

pub record PreparedObservation (St : Type 0) : Type 0 where
  pub streams : List (ℕ × St)
  pub snapshot : InitialSnapshot
  pub snapshot_metadata : SnapshotMetadata

abbrev pub snapshot_consistency :
    ObservedBlock → InitialSnapshot → ObservedBlock → SnapshotConsistency
unfolding snapshot_tips_are_consistent
snapshot_consistency tip_before snapshot tip_after =
    if snapshot_tips_are_consistent tip_before.hash snapshot.anchor.hash tip_after.hash
    then tip_matched
    else changed

-- The attempt is the one to return.
unfoldable pub is_final : SnapshotMetadata → Bool
unfolding consistency_discrete
is_final metadata =
    same consistency_discrete metadata.consistency tip_matched
    || (metadata.attempts == snapshot_max_attempts)

module _ {E St : Type 0} (source : StartupSource E St) where
  -- One attempt.
  unfoldable pub snapshot_once : List ℕ → ℕ → Call E (InitialSnapshot × SnapshotMetadata)
  unfolding ◌>>=◌ snapshot_tips_are_consistent
  snapshot_once sidechains attempt = do
    tip_before ←
        within source.current_tip "reading the mainchain tip before collecting the snapshot"
    snapshot ←
        within (source.collect_snapshot sidechains) "collecting the initial enforcer snapshot"
    tip_after ← within source.current_tip "reading the mainchain tip after collecting the snapshot"
    pure (
      snapshot,
      record {
        revision_before = none;
        revision_after = none;
        tip_before = tip_before;
        tip_after = tip_after;
        consistency = snapshot_consistency tip_before snapshot tip_after;
        attempts = attempt;
      },
    )

  unfoldable pub snapshot_attempts : List ℕ → ℕ → ℕ → Call E (InitialSnapshot × SnapshotMetadata)
  unfolding ◌>>=◌ snapshot_once is_final
  snapshot_attempts sidechains zero attempt = fail []
  snapshot_attempts sidechains (suc left) attempt = do
    collected ← snapshot_once sidechains attempt
    elim (is_final collected.1) [
      | true ↦ pure collected
      | false ↦ snapshot_attempts sidechains left (suc attempt)
    ]

  -- `collect_initial_snapshot_attempts`. The code's `unreachable!` is the error without a cause.
  unfoldable pub collect_initial_snapshot_attempts :
      List ℕ → Call E (InitialSnapshot × SnapshotMetadata)
  unfolding snapshot_attempts
  collect_initial_snapshot_attempts sidechains =
      snapshot_attempts sidechains snapshot_max_attempts 1

  -- `try_join_all` of the subscriptions, one after the other.
  unfoldable pub subscribe_all : List ℕ → Call E (List (ℕ × St))
  unfolding ◌>>=◌
  subscribe_all [] = pure []
  subscribe_all (sidechain ∷ rest) = do
    stream ← within (source.subscribe_events sidechain) "subscribing to sidechain events"
    streams ← subscribe_all rest
    pure ((sidechain, stream) ∷ streams)

  -- `prepare_observation`.
  unfoldable pub prepare_observation : List ℕ → List ℕ → Call E (PreparedObservation St)
  unfolding ◌>>=◌ subscribe_all collect_initial_snapshot_attempts
  prepare_observation subscription_slots sidechains = do
    streams ← within (subscribe_all subscription_slots) "opening all sidechain subscriptions"
    collected ← collect_initial_snapshot_attempts sidechains
    pure (record { streams = streams; snapshot = collected.0; snapshot_metadata = collected.1 })

  module _ (ext : Externals) (configured : List ℕ) where
    -- The lifecycle attempts of which so many are left.
    unfoldable pub stable_attempts : ℕ → Call E (List ℕ × PreparedObservation St)
    unfolding ◌>>=◌ prepare_observation select_active_instances active_instances_from_state
        instances_discrete
    stable_attempts zero =
        lift (bail "active sidechain identities changed during every startup attempt")
    stable_attempts (suc left) = do
      active ←
          within source.active_instances "reading active sidechains before opening subscriptions"
      expected ← lift (select_active_instances active configured)
      let sidechains = if is_empty configured then slots_of expected else configured
      observation ← prepare_observation (slots_of expected) sidechains
      read ← lift (active_instances_from_state ext observation.snapshot.state)
      actual ← lift (select_active_instances read configured)
      elim (same instances_discrete actual expected) [
        | true ↦ pure (sidechains, observation)
        | false ↦ stable_attempts left
      ]

    -- `prepare_stable_observation`.
    unfoldable pub prepare_stable_observation : Call E (List ℕ × PreparedObservation St)
    unfolding stable_attempts
    prepare_stable_observation = stable_attempts snapshot_max_attempts
