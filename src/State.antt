-- ===== src/State.antt =====
-- extractors/enforcer/src/state.rs: readings of the mutable enforcer state, the tracker of what was
-- published last, and the anchors that events describe.

pub mod Tracker
use bip300_monitor.Base.{
  ℕ, Bool, true, false, ◌&&◌, not, Option, none, some, List, [], ◌∷◌, ℕ_discrete, any, find,
  is_some, same, if◌then◌else◌,
}
use bip300_monitor.Failure.{Result, ok, err, bail, or_bail, traverse, ◌>>=◌}
use bip300_monitor.Proto.{
  ObservedBlock, at_height, without_height, ActiveSidechain, EnforcerPayload, chain_info, chain_tip,
  sidechain_proposals, active_sidechains, ctip, block_connected, block_disconnected,
  withdrawal_bundle_proposals, bmm_requests, mainchain_transition, EnforcerEvent,
  enforcer_event_discrete,
}
use bip300_monitor.Store.Types.{
  Externals, SidechainInstanceRef, SnapshotConsistency, stable, tip_matched, unknown, changed,
  consistency_discrete,
}
use bip300_monitor.Store.Instances.{sidechain_instance_ref}

-- `PayloadKey`.
pub data PayloadKey : Type 0 where
  proposals_key active_key : PayloadKey
  ctip_key bundles_key : ℕ → PayloadKey

unfoldable pub payload_key_discrete : Discrete PayloadKey
unfolding ℕ_discrete
payload_key_discrete = hlevel ℕ_discrete

-- `payload_key`.
unfoldable pub payload_key : EnforcerEvent → Result PayloadKey
payload_key payload = elim payload.event [
  | some (sidechain_proposals _) ↦ ok proposals_key
  | some (active_sidechains _) ↦ ok active_key
  | some (ctip slot _) ↦ ok (ctip_key slot)
  | some (withdrawal_bundle_proposals slot _) ↦ ok (bundles_key slot)
  | _ ↦ bail "mutable state collection contains an unexpected payload"
]

-- `payload_key(previous).is_ok_and(|candidate| candidate == key)`.
unfoldable pub is_keyed : PayloadKey → EnforcerEvent → Bool
unfolding payload_key payload_key_discrete
is_keyed key payload = elim (payload_key payload) [
  | ok candidate ↦ same payload_key_discrete candidate key
  | err _ ↦ false
]

-- `Tracker`.
pub record Tracked : Type 0 where
  pub last : List EnforcerEvent
  pub last_consistency : SnapshotConsistency

-- `Publication`.
pub record Publication : Type 0 where
  pub payloads : List EnforcerEvent
  pub changed : List EnforcerEvent

-- `Tracker::new`.
unfoldable pub new_tracker : List EnforcerEvent → Tracked
new_tracker published = record { last = published; last_consistency = tip_matched }

-- `Tracker::with_consistency`.
unfoldable pub with_consistency : SnapshotConsistency → Tracked → Tracked
with_consistency consistency tracker = record tracker { last_consistency = consistency }

-- `Tracker::needs_retry`.
unfoldable pub needs_retry : Tracked → Bool
unfolding consistency_discrete
needs_retry tracker = same consistency_discrete tracker.last_consistency changed

-- `previous != Some(payload)`.
unfoldable pub differs : Option EnforcerEvent → EnforcerEvent → Bool
unfolding enforcer_event_discrete
differs none payload = true
differs (some previous) payload = not (same enforcer_event_discrete previous payload)

-- The loop of `take_changed` over the reading.
unfoldable pub changed_payloads :
    List EnforcerEvent → List EnforcerEvent → Result (List EnforcerEvent)
unfolding payload_key is_keyed differs
changed_payloads last [] = ok []
changed_payloads last (payload ∷ rest) = do
  key ← payload_key payload
  later ← changed_payloads last rest
  ok (if differs (find (is_keyed key) last) payload then payload ∷ later else later)

-- `Tracker::take_changed`: an unexpected payload ends it before the reading is kept.
unfoldable pub take_changed : List EnforcerEvent → Tracked → Result (List EnforcerEvent) × Tracked
unfolding changed_payloads
take_changed current tracker = elim (changed_payloads tracker.last current) [
  | ok payloads ↦ (ok payloads, record tracker { last = current })
  | err e ↦ (err e, tracker)
]

abbrev pub publication : List EnforcerEvent → Result (List EnforcerEvent) → Result Publication
publication current (ok payloads) = ok (record { payloads = current; changed = payloads })
publication current (err e) = err e

-- `Tracker::take_observation`: only a tip-matched reading becomes the baseline.
unfoldable pub take_observation :
    List EnforcerEvent → SnapshotConsistency → Tracked → Result Publication × Tracked
unfolding take_changed consistency_discrete
take_observation current consistency tracker =
    let noted : Tracked = record tracker { last_consistency = consistency } in
    let taken = take_changed current noted in
    if same consistency_discrete consistency tip_matched
    then (publication current taken.0, taken.1)
    else (publication current taken.0, record taken.1 { last = tracker.last })

module _ (ext : Externals) where
  -- `active_instances`.
  unfoldable pub active_instances : EnforcerEvent → Option (Result (List SidechainInstanceRef))
  unfolding sidechain_instance_ref
  active_instances payload = elim payload.event [
    | some (active_sidechains sidechains) ↦ some (traverse (sidechain_instance_ref ext) sidechains)
    | _ ↦ none
  ]

  -- `Publication::active_sidechains_changed`.
  unfoldable pub active_sidechains_changed : Publication → Bool
  unfolding active_instances
  active_sidechains_changed p = any (λ payload. is_some (active_instances payload)) p.changed

-- `tip_anchor`.
unfoldable pub tip_anchor : EnforcerEvent → Result ObservedBlock
unfolding at_height
tip_anchor payload = elim payload.event [
  | some (chain_tip header) ↦ do
    h ← or_bail header "chain-tip event is missing its block header"
    ok (at_height h.hash h.height)
  | _ ↦ bail "expected a chain-tip event while reading the enforcer tip"
]

abbrev anchor_of : EnforcerPayload → Result ObservedBlock
unfolding at_height without_height
anchor_of (block_connected header _ _) = do
  h ← or_bail header "connected block is missing its header"
  ok (at_height h.hash h.height)
anchor_of (block_disconnected hash _) = ok (without_height hash)
anchor_of _ = bail "a live event carried an unexpected payload for a block anchor"

-- `block_anchor`.
unfoldable pub block_anchor : EnforcerEvent → Result ObservedBlock
unfolding at_height without_height
block_anchor payload = do
  event ← or_bail payload.event "live event is missing its concrete event"
  anchor_of event
