-- ===== src/Backfill/Page/Block.antt =====
-- `BlockHistory` of extractors/enforcer/src/backfill.rs: the blocks of one sidechain slot, as a stream.
use bip300_monitor.Base.{ℕ, none, some}
use bip300_monitor.Failure.{Result, ok, not_found, error_has_code, retryable_rpc_error, ◌>>=◌}
use bip300_monitor.Proto.{ObservedBlock, EnforcerEvent, enforcer, Event}
use bip300_monitor.Store.Types.{SidechainInstanceRef}
use bip300_monitor.Backfill.Page.{HistoryScope, HistoryStream, connected_header}

-- `envelope`, with the reading of the clock that `Event::new` makes.
abbrev envelope : (EnforcerEvent → Result ℕ) → EnforcerEvent → ObservedBlock → Result Event
envelope clock payload anchor = do
  now ← clock payload
  ok (record {
    timestamp = now;
    observed_at_block = some anchor;
    monitor_event = some (enforcer payload);
  })

abbrev block_scope : SidechainInstanceRef → HistoryScope
block_scope instance_ref = record {
  key = record {
    stream = "block";
    sidechain = some instance_ref.sidechain;
    sidechain_instance_id = some instance_ref.sidechain_instance_id;
  };
  activation_height = instance_ref.activation_height;
  expected_start_hash = none;
}

unfoldable pub block_history :
    (EnforcerEvent → Result ℕ) → SidechainInstanceRef → HistoryStream EnforcerEvent
unfolding connected_header retryable_rpc_error error_has_code
block_history clock instance_ref = record {
  scope = block_scope instance_ref;
  header = connected_header;
  envelope = envelope clock;
  unavailable_error = λ e. error_has_code e not_found;
  inconclusive_probe_error = retryable_rpc_error;
}
