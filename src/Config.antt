-- ===== src/Config.antt =====
-- `Args::validate`, `validate_identity`, `validate_hex` and `activation_block_hash_bytes` of
-- extractors/enforcer/src/config.rs. A Rust string is the list of its UTF-8 bytes, and the parsing of
-- the arguments is clap's.
pub mod Laws
use bip300_monitor.Base.{
  ℕ, Bool, true, false, not, ◌&&◌, ◌||◌, Option, none, some, List, [], ◌∷◌, Bytes, bytes_discrete,
  ℕ_discrete, String, length, contains, is_some, same, ◌==◌, leb, ltb, if◌then◌else◌,
}
use bip300_monitor.Failure.{Result, ok, bail, context, or_bail, ensure, ◌>>=◌, ◌>>◌}

-- `Args`, with the flush timeout of its `NatsArgs`, and without the PostgreSQL arguments and the log
-- level.
pub record Args : Type 0 where
  pub node_rpc_endpoint : Option Bytes
  pub node_rpc_cookie_file : Option Bytes
  pub nats_flush_timeout_seconds : ℕ
  pub network_id : Bytes
  pub activation_height : ℕ
  pub activation_block_hash : Bytes
  pub allow_unknown_network_preset : Bool
  pub expected_enforcer_network : Option Bytes
  pub node_commit : Bytes
  pub enforcer_commit : Bytes
  pub monitor_commit : Bytes
  pub enforcer_endpoint : Bytes
  pub sidechains : List ℕ
  pub backfill_page_blocks : ℕ
  pub backfill_page_pause_ms : ℕ
  pub tip_poll_interval_seconds : ℕ
  pub bmm_request_poll_interval_seconds : ℕ
  pub bmm_readiness_grace_seconds : ℕ
  pub confirmed_bmm_fees : Bool
  pub stream_stall_timeout_seconds : ℕ
  pub liveness_file : Option Bytes
  pub request_timeout_seconds : ℕ
  pub shutdown_timeout_seconds : ℕ

-- The bytes of "unknown".
abbrev pub unknown : Bytes
unknown = 117 ∷ 110 ∷ 107 ∷ 110 ∷ 111 ∷ 119 ∷ 110 ∷ []

-- `Iterator::all`.
abbrev pub every : (ℕ → Bool) → Bytes → Bool
every p [] = true
every p (x ∷ xs) = p x && every p xs

abbrev between : ℕ → ℕ → ℕ → Bool
between low high byte = leb low byte && leb byte high

-- `u8::is_ascii_hexdigit`.
abbrev pub is_ascii_hexdigit : ℕ → Bool
is_ascii_hexdigit byte = between 48 57 byte || between 65 70 byte || between 97 102 byte

-- The bytes of a network id: lowercase ASCII letters, digits and hyphens.
abbrev pub is_network_byte : ℕ → Bool
is_network_byte byte = between 97 122 byte || between 48 57 byte || (byte == 45)

unfoldable pub validate_hex : Bytes → ℕ → String → Result (Unit {0})
validate_hex value size text = ensure ((length value == size) && every is_ascii_hexdigit value) text

abbrev pub is_unknown : Bytes → Bool
unfolding bytes_discrete
is_unknown value = same bytes_discrete value unknown

unfoldable pub is_production : Args → Bool
unfolding bytes_discrete
is_production args =
    not (args.activation_height == 0)
    || not (is_unknown args.activation_block_hash)
    || not (is_unknown args.node_commit)
    || not (is_unknown args.enforcer_commit)
    || not (is_unknown args.monitor_commit)

-- The sidechains that are configured, after the set of those before.
unfoldable pub validate_sidechains : List ℕ → List ℕ → Result (Unit {0})
unfolding ℕ_discrete
validate_sidechains unique [] = ok tt
validate_sidechains unique (sidechain ∷ rest) = do
  ensure (not (contains ℕ_discrete unique sidechain)) "sidechain slot was configured more than once"
  validate_sidechains (sidechain ∷ unique) rest

abbrev pub is_empty : Bytes → Bool
is_empty [] = true
is_empty (x ∷ xs) = false

-- `mainchain::Network::from_str_name` of the generated code, as the number of the network:
-- 0 is `Unspecified` and 1 is `Unknown`.
module _ (from_str_name : Bytes → Option ℕ) where
  abbrev pub validate_production : Args → Result (Unit {0})
  unfolding validate_hex
  validate_production args = do
    validate_hex args.activation_block_hash 64 "activation block hash must be 64 hex characters"
    validate_hex args.node_commit 40 "node commit must be 40 hex characters"
    validate_hex args.enforcer_commit 40 "enforcer commit must be 40 hex characters"
    validate_hex args.monitor_commit 40 "monitor commit must be 40 hex characters"
    expected ← or_bail args.expected_enforcer_network "expected enforcer network must be configured"
    network ← or_bail (from_str_name expected) "unknown enforcer network"
    ensure (ltb 1 network) "expected enforcer network must be a concrete network"

  abbrev pub validate_development : Option Bytes → Result (Unit {0})
  validate_development none = ok tt
  validate_development (some expected) = do
    network ← or_bail (from_str_name expected) "unknown enforcer network"
    ok tt

  unfoldable pub validate_identity : Args → Result (Unit {0})
  unfolding is_production validate_hex
  validate_identity args = do
    ensure (not (is_empty args.network_id) && every is_network_byte args.network_id)
        "network id must contain only lowercase ASCII letters, digits, or hyphens"
    if is_production args
        then validate_production args
        else validate_development args.expected_enforcer_network

  -- `Args::validate`, with the test for the variable BIP300_MONITOR_BACKFILL_MAX_BLOCKS.
  unfoldable pub validate : Bool → Args → Result (Unit {0})
  unfolding validate_sidechains validate_identity
  validate max_blocks_is_set args = do
    ensure
        (if is_some args.node_rpc_endpoint
          then is_some args.node_rpc_cookie_file
          else not (is_some args.node_rpc_cookie_file))
        "node RPC endpoint and cookie file must be configured together"
    ensure (not max_blocks_is_set) "BIP300_MONITOR_BACKFILL_MAX_BLOCKS was removed"
    ensure (ltb args.nats_flush_timeout_seconds args.shutdown_timeout_seconds)
        "shutdown timeout must be greater than the NATS flush timeout"
    ensure (leb args.tip_poll_interval_seconds args.stream_stall_timeout_seconds)
        "stream stall timeout must be at least the tip poll interval"
    validate_sidechains [] args.sidechains
    validate_identity args

-- `hex::decode`.
module _ (decode : Bytes → Result Bytes) where
  unfoldable pub activation_block_hash_bytes : Args → Result (Option Bytes)
  unfolding bytes_discrete
  activation_block_hash_bytes args =
      if is_unknown args.activation_block_hash
      then ok none
      else (context (decode args.activation_block_hash)
            "decoding the configured activation block hash"
          >>= λ hash.
              ensure (length hash == 32) "activation block hash must decode to exactly 32 bytes"
              >> ok (some hash))
