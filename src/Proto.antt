-- ===== src/Proto.antt =====
-- The messages of proto/event.proto and proto/enforcer_extractor.proto, and the methods that
-- shared/src/protobuf/event.rs and shared/src/protobuf/enforcer_extractor.rs add to them.
-- A part of a message that no modelled code looks into is kept as its encoding, in `Bytes`.
use native.Mathlib.Decide.{ℕ_discrete}
use bip300_monitor.Base.{ℕ, String, Option, none, some, List, Bytes, bytes_discrete}

pub record ObservedBlock : Type 0 where
  pub hash : Bytes
  pub height : Option ℕ

unfoldable pub at_height : Bytes → ℕ → ObservedBlock
at_height hash height = record { hash = hash; height = some height }

unfoldable pub without_height : Bytes → ObservedBlock
without_height hash = record { hash = hash; height = none }

pub record BlockHeader : Type 0 where
  pub hash : Bytes
  pub previous_hash : Bytes
  pub height : ℕ
  pub block_work : Bytes
  pub cumulative_work : Bytes
  pub timestamp : ℕ

pub record Bip300Constants : Type 0 where
  pub withdrawal_bundle_max_age : ℕ
  pub withdrawal_bundle_inclusion_threshold : ℕ
  pub used_sidechain_slot_proposal_max_age : ℕ
  pub used_sidechain_slot_activation_threshold : ℕ
  pub unused_sidechain_slot_proposal_max_age : ℕ
  pub unused_sidechain_slot_activation_threshold : ℕ
  pub activation_height : ℕ

pub record ActiveSidechain : Type 0 where
  pub sidechain_number : ℕ
  pub raw_description : Bytes
  pub vote_count : ℕ
  pub proposal_height : ℕ
  pub activation_height : ℕ
  pub declaration : Bytes
  pub description_hash : Bytes

-- The concrete events of an `EnforcerEvent`.
pub data EnforcerPayload : Type 0 where
  chain_info : ℕ → Option Bip300Constants → EnforcerPayload
  chain_tip : Option BlockHeader → EnforcerPayload
  sidechain_proposals : Bytes → EnforcerPayload
  active_sidechains : List ActiveSidechain → EnforcerPayload
  ctip : ℕ → Bytes → EnforcerPayload
  block_connected : Option BlockHeader → ℕ → Bytes → EnforcerPayload
  block_disconnected : Bytes → ℕ → EnforcerPayload
  withdrawal_bundle_proposals : ℕ → Bytes → EnforcerPayload
  bmm_requests : Bytes → Bytes → EnforcerPayload
  mainchain_transition : ℕ → Option BlockHeader → Bytes → EnforcerPayload

pub record EnforcerEvent : Type 0 where
  pub event : Option EnforcerPayload

-- The concrete events of a `NodeEvent`.
pub data NodePayload : Type 0 where
  mainchain_block : Option BlockHeader → Bytes → NodePayload
  node_chain_tip : Option BlockHeader → NodePayload
  confirmed_bmm_fees : Option BlockHeader → Bytes → NodePayload

pub data MonitorEvent : Type 0 where
  enforcer : EnforcerEvent → MonitorEvent
  node : Option NodePayload → MonitorEvent

pub record Event : Type 0 where
  pub timestamp : ℕ
  pub observed_at_block : Option ObservedBlock
  pub monitor_event : Option MonitorEvent

unfoldable pub enforcer_event_discrete : Discrete EnforcerEvent
unfolding ℕ_discrete bytes_discrete
enforcer_event_discrete = hlevel (ℕ_discrete, bytes_discrete)

unfoldable pub observed_block_discrete : Discrete ObservedBlock
unfolding ℕ_discrete bytes_discrete
observed_block_discrete = hlevel (ℕ_discrete, bytes_discrete)

unfoldable pub node_kind : NodePayload → String
node_kind (mainchain_block _ _) = "mainchain_block"
node_kind (node_chain_tip _) = "chain_tip"
node_kind (confirmed_bmm_fees _ _) = "confirmed_bmm_fees"

unfoldable pub node_header : NodePayload → Option BlockHeader
node_header (mainchain_block header _) = header
node_header (node_chain_tip header) = header
node_header (confirmed_bmm_fees header _) = header

unfoldable pub kind : EnforcerPayload → String
kind (chain_info _ _) = "chain_info"
kind (chain_tip _) = "chain_tip"
kind (sidechain_proposals _) = "sidechain_proposals"
kind (active_sidechains _) = "active_sidechains"
kind (ctip _ _) = "ctip"
kind (block_connected _ _ _) = "block_connected"
kind (block_disconnected _ _) = "block_disconnected"
kind (withdrawal_bundle_proposals _ _) = "withdrawal_bundle_proposals"
kind (bmm_requests _ _) = "bmm_requests"
kind (mainchain_transition _ _ _) = "mainchain_transition"

unfoldable pub sidechain_number : EnforcerPayload → Option ℕ
sidechain_number (ctip slot _) = some slot
sidechain_number (block_connected _ slot _) = some slot
sidechain_number (block_disconnected _ slot) = some slot
sidechain_number (withdrawal_bundle_proposals slot _) = some slot
sidechain_number _ = none
