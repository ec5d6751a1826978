-- ===== src/Tests/Runs.antt =====
-- Tests of the workers of the extractor.
use bip300_monitor.Base.{
  ◌≢◌, ℕ, zero, suc, ◌≡◌, ◌↔◌, refl, true, false, not, ◌&&◌, String, Option, none, some, List, [],
  ◌∷◌, Bytes, ℕ_discrete, contains, filter, bytes_discrete, string_discrete,
}
use bip300_monitor.Failure.{ok, err, is_ok, status, unavailable}
use bip300_monitor.Proto.{
  ObservedBlock, EnforcerEvent, Bip300Constants, ActiveSidechain, chain_info, bmm_requests,
  active_sidechains,
}
use bip300_monitor.Store.Types.{
  SidechainInstanceRef, instance_discrete, tip_matched, consistency_discrete,
}
use bip300_monitor.State.{active_instances}
use bip300_monitor.Store.Instances.{sidechain_instance_ref, sidechain_description_hash}
use bip300_monitor.Runtime.Sampling.Stable.{IsStable, prepare_stable_observation-ok}
use bip300_monitor.Runtime.Instances.{
  active_instances_from_state, is_wanted, insert_instances, select_active_instances,
}
use bip300_monitor.Runtime.Instances.Laws.{
  InSlotOrder, has_duplicate, select_active_instances-ok, select_active_instances-is_ok,
}
use bip300_monitor.Runtime.Identity.{ChainArgs, find_chain_info, validate_chain_identity}
use bip300_monitor.Runtime.Identity.Laws.{IsIdentified, validate_chain_identity-ok}
use bip300_monitor.Store.Types.{SnapshotMetadata, revision_discrete}
use bip300_monitor.Runtime.Sampling.{
  BmmSource, sample_once, sample_attempts, collect_bmm_sample, InitialSnapshot, StartupSource,
  collect_initial_snapshot_attempts, PreparedObservation, subscribe_all, prepare_observation,
  prepare_stable_observation, stable_attempts, snapshot_attempts, snapshot_once, is_final,
  snapshot_tips_are_consistent, instances_discrete,
}
use bip300_monitor.Runtime.Sampling.Laws.{IsSample, collect_bmm_sample-ok}
use bip300_monitor.Runtime.Sampling.Startup.{IsHonest, collect_initial_snapshot_attempts_end}
use bip300_monitor.Backfill.Cycle.{deferred}
use bip300_monitor.Runtime.Schedule.{BackfillRequest, Scheduler, id_of, due}
use bip300_monitor.Runtime.Schedule.Turn.{WorkIo, serve_request, schedule_turn}
use bip300_monitor.Runtime.Schedule.Served.{IsServing, IsDiscarded, serve_request-IsServing}
use bip300_monitor.Runtime.Schedule.Retries.{IsTimed, schedule_turn-IsTimed}
use bip300_monitor.Tests.Fixtures.{ext, hash, tip, instance_of_slot}

abbrev other_instance : SidechainInstanceRef
other_instance = record { sidechain = 1; sidechain_instance_id = "1:0:1:bb"; activation_height = 1 }

abbrev active : List SidechainInstanceRef
active = instance_of_slot ∷ other_instance ∷ []

selection : select_active_instances active [] ≡ ok (other_instance ∷ instance_of_slot ∷ [])
unfolding select_active_instances is_wanted insert_instances
selection = refl

select_active_instances-ok_example :
    InSlotOrder (other_instance ∷ instance_of_slot ∷ [])
    × ((i : SidechainInstanceRef)
        → contains instance_discrete (other_instance ∷ instance_of_slot ∷ []) i
          ≡ (contains instance_discrete active i && is_wanted [] i))
select_active_instances-ok_example =
    select_active_instances-ok active [] (other_instance ∷ instance_of_slot ∷ []) selection

select_active_instances-is_ok_example :
    is_ok (select_active_instances (instance_of_slot ∷ active) (3 ∷ []))
    ≡ not (has_duplicate (filter (is_wanted (3 ∷ [])) (instance_of_slot ∷ active)))
select_active_instances-is_ok_example =
    select_active_instances-is_ok (instance_of_slot ∷ active) (3 ∷ [])

abbrev constants : Bip300Constants
constants = record {
  withdrawal_bundle_max_age = 144;
  withdrawal_bundle_inclusion_threshold = 72;
  used_sidechain_slot_proposal_max_age = 144;
  used_sidechain_slot_activation_threshold = 72;
  unused_sidechain_slot_proposal_max_age = 36;
  unused_sidechain_slot_activation_threshold = 30;
  activation_height = 963648;
}

abbrev chain_args : ChainArgs
chain_args = record {
  network_id = "alphanet";
  activation_height = 963648;
  expected_enforcer_network = some "NETWORK_SIGNET";
  allow_unknown_network_preset = false;
}

abbrev payloads : List EnforcerEvent
payloads = record { event = some (chain_info 4 (some constants)) } ∷ []

abbrev network_number : String → Option ℕ
network_number name = some 4

validate_chain_identity-ok_example :
    (validate_chain_identity network_number chain_args payloads ≡ ok tt) ↔ (
      (raw_network : ℕ) × (c : Bip300Constants) × (find_chain_info payloads
        ≡ some (raw_network, some c))
      × IsIdentified network_number chain_args raw_network c)
validate_chain_identity-ok_example = validate_chain_identity-ok network_number chain_args payloads

abbrev auction : EnforcerEvent
auction = record { event = some (bmm_requests (hash 3) []) }

abbrev moving_tip : ℕ → ObservedBlock
moving_tip (suc zero) = record { hash = hash 2; height = some 1 }
moving_tip _ = tip

-- The tip moves once, between the first two reads.
abbrev bmm_source : BmmSource ℕ Bytes
bmm_source = record {
  revision = λ n. (ok none, suc n);
  current_tip = λ n. (ok (moving_tip n), suc n);
  bmm_requests = λ parent n. (ok parent, suc n);
  convert = λ parent response. ok auction;
}

abbrev sample : SnapshotMetadata
sample = record {
  revision_before = none;
  revision_after = none;
  tip_before = tip;
  tip_after = tip;
  consistency = tip_matched;
  attempts = 2;
}

sample_is_taken : collect_bmm_sample bmm_source 3 0 ≡ (ok (auction, sample), 10)
unfolding collect_bmm_sample sample_attempts sample_once bytes_discrete revision_discrete
    string_discrete ℕ_discrete
sample_is_taken = refl

collect_bmm_sample-ok_example : IsSample bmm_source 3 auction sample
collect_bmm_sample-ok_example =
    collect_bmm_sample-ok bmm_source 3 0 10 auction sample sample_is_taken

abbrev startup_source : StartupSource ℕ ℕ
startup_source = record {
  active_instances = λ n. (ok active, suc n);
  subscribe_events = λ slot n. (ok slot, suc n);
  current_tip = λ n. (ok (record { hash = hash n; height = none }), suc n);
  collect_snapshot =
      λ slots n. (ok (record { anchor = tip; constants = payloads; state = [] }), suc n);
}

-- The tip moves at each read.
collect_initial_snapshot_attempts_end_example :
    (snapshot : InitialSnapshot) × (metadata : SnapshotMetadata) × (after : ℕ)
    × (collect_initial_snapshot_attempts startup_source (3 ∷ []) 0
        ≡ (ok (snapshot, metadata), after))
    × IsHonest snapshot metadata
unfolding is_ok
collect_initial_snapshot_attempts_end_example =
    collect_initial_snapshot_attempts_end startup_source (λ env. refl) (λ slots env. refl) (3 ∷ [])
      0

abbrev request : BackfillRequest
request = record { instance = instance_of_slot; target = tip }

-- A timer is due, and the walk that it starts is deferred again.
abbrev work_io : WorkIo ℕ
work_io = record {
  select = λ n. (due 0, suc n);
  current_instance = λ slot n. (ok (some "3:0:1:aa"), suc n);
  run = λ instance target n. (ok (deferred tip 0 0), suc n);
  report_quarantine = λ slot n. (ok tt, suc n);
  current_tip = λ n. (err (status unavailable ∷ []), suc n);
}

abbrev scheduler : Scheduler
scheduler = record {
  requests_open = true;
  tip_updates_open = true;
  activations = [];
  pending = [];
  deferred = "3:0:1:aa" ∷ [];
  retries = request ∷ [];
}

schedule_turn-IsTimed_example : IsTimed (schedule_turn work_io 4 (scheduler, 0)).1.0
schedule_turn-IsTimed_example = schedule_turn-IsTimed work_io 4 scheduler 0 (refl, refl)

serve_request-IsServing_example :
    (some "3:0:1:aa" ≡ some (id_of request)
      → IsServing request scheduler (serve_request work_io 4 request true (scheduler, 0)).1.0)
    × (some "3:0:1:aa" ≢ some (id_of request)
        → IsDiscarded request scheduler (serve_request work_io 4 request true (scheduler, 0)).1.0)
serve_request-IsServing_example =
    serve_request-IsServing work_io 4 request true scheduler 0 1 (some "3:0:1:aa") refl tt tt

abbrev sidechain : ActiveSidechain
sidechain = record {
  sidechain_number = 3;
  raw_description = 1 ∷ [];
  vote_count = 0;
  proposal_height = 0;
  activation_height = 1;
  declaration = [];
  description_hash = 1 ∷ [];
}

abbrev stable_source : StartupSource ℕ ℕ
stable_source = record {
  active_instances = λ n. (ok (instance_of_slot ∷ []), suc n);
  subscribe_events = λ slot n. (ok n, suc n);
  current_tip = λ n. (ok tip, suc n);
  collect_snapshot = λ slots n. (
    ok (record {
      anchor = tip;
      constants = [];
      state = record { event = some (active_sidechains (sidechain ∷ [])) } ∷ [];
    }),
    suc n,
  );
}

abbrev observation : PreparedObservation ℕ
observation = record {
  streams = (3, 1) ∷ [];
  snapshot = record {
    anchor = tip;
    constants = [];
    state = record { event = some (active_sidechains (sidechain ∷ [])) } ∷ [];
  };
  snapshot_metadata = record sample { attempts = 1 };
}

observation_is_stable :
    prepare_stable_observation stable_source ext [] 0 ≡ (ok (3 ∷ [], observation), 5)
unfolding prepare_stable_observation stable_attempts prepare_observation subscribe_all
    collect_initial_snapshot_attempts snapshot_attempts snapshot_once is_final
    snapshot_tips_are_consistent consistency_discrete bytes_discrete ℕ_discrete
    select_active_instances is_wanted insert_instances active_instances_from_state active_instances
    sidechain_instance_ref sidechain_description_hash instances_discrete instance_discrete
observation_is_stable = refl

prepare_stable_observation-ok_example : IsStable stable_source ext [] (3 ∷ []) observation
prepare_stable_observation-ok_example =
    prepare_stable_observation-ok stable_source ext [] 0 5 (3 ∷ []) observation
      observation_is_stable
