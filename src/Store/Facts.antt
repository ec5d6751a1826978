-- ===== src/Store/Facts.antt =====
-- `facts` and the `previous_hash` column of shared/src/store.rs: what the record reads off an event.
use bip300_monitor.Base.{ℕ, ◌^◌, String, Option, none, some, Bytes, ltb, if◌then◌else◌}
use bip300_monitor.Failure.{Result, ok, bail, or_bail, ◌>>=◌}
use bip300_monitor.Proto.{
  ObservedBlock, BlockHeader, EnforcerPayload, block_connected, mainchain_transition, MonitorEvent,
  enforcer, node, Event, node_kind, node_header, kind, sidechain_number,
}
use bip300_monitor.Store.Types.{height_to_i32, optional_height_to_i32}

-- `Facts`.
pub record FactColumns : Type 0 where
  pub kind : String
  pub sidechain : Option ℕ
  pub block_hash : Option Bytes
  pub height : Option ℕ

-- `i16::try_from` on a slot number.
abbrev slot_to_i16 : Option ℕ → Result (Option ℕ)
slot_to_i16 none = ok none
slot_to_i16 (some slot) =
    if ltb slot (2 ^ 15) then ok (some slot) else bail "sidechain slot does not fit"

abbrev anchor_hash : Option ObservedBlock → Option Bytes
anchor_hash none = none
anchor_hash (some anchor) = some anchor.hash

abbrev anchor_height : Option ObservedBlock → Option ℕ
anchor_height none = none
anchor_height (some anchor) = anchor.height

fact_columns : Option ObservedBlock → MonitorEvent → Result FactColumns
unfolding height_to_i32 kind sidechain_number node_kind
fact_columns anchor (node payload) = do
  payload ← or_bail payload "missing node event"
  height ← optional_height_to_i32 (anchor_height anchor)
  ok (record {
    kind = node_kind payload;
    sidechain = none;
    block_hash = anchor_hash anchor;
    height = height;
  })
fact_columns anchor (enforcer event) = do
  payload ← or_bail event.event "enforcer event does not contain a concrete event"
  slot ← slot_to_i16 (sidechain_number payload)
  height ← optional_height_to_i32 (anchor_height anchor)
  ok (record {
    kind = kind payload;
    sidechain = slot;
    block_hash = anchor_hash anchor;
    height = height;
  })

unfoldable pub facts_of_event : Event → Result FactColumns
unfolding fact_columns
facts_of_event event = do
  monitor_event ← or_bail event.monitor_event "event envelope does not contain a monitor event"
  fact_columns event.observed_at_block monitor_event

abbrev header_parent : Option BlockHeader → Option Bytes
header_parent none = none
header_parent (some header) = some header.previous_hash

abbrev payload_parent : Option EnforcerPayload → Option Bytes
payload_parent (some (block_connected header _ _)) = header_parent header
payload_parent (some (mainchain_transition _ header _)) = header_parent header
payload_parent _ = none

-- The `previous_hash` column.
unfoldable pub previous_hash_of : Option MonitorEvent → Option Bytes
unfolding node_header
previous_hash_of (some (node (some payload))) = header_parent (node_header payload)
previous_hash_of (some (enforcer event)) = payload_parent event.event
previous_hash_of _ = none
