-- ===== src/Tests/Arguments.antt =====
-- Tests of the validation of the arguments.
use bip300_monitor.Base.{
  ℕ, zero, suc, ◌+◌, ◌-◌, ◌*◌, ◌≡◌, refl, false, Option, none, some, [], ◌∷◌, Bytes, bytes_discrete,
  same, length, leb, if◌then◌else◌, arith,
}
use bip300_monitor.Failure.{Result, ok}
use bip300_monitor.Config.{
  Args, is_production, validate_hex, validate_sidechains, validate_identity, validate,
}
use bip300_monitor.Config.Laws.{
  IsValidated, Decodes, IsActivationHash, validate-ok, activation_block_hash_bytes-ok,
}

-- So many times the digit `a`.
abbrev digits : ℕ → Bytes
digits zero = []
digits (suc n) = 97 ∷ digits n

-- The name `net`, of the network 2.
abbrev from_str_name : Bytes → Option ℕ
unfolding bytes_discrete
from_str_name name = if same bytes_discrete name (110 ∷ 101 ∷ 116 ∷ []) then some 2 else none

abbrev production : Args
production = record {
  node_rpc_endpoint = none;
  node_rpc_cookie_file = none;
  nats_flush_timeout_seconds = 5;
  network_id = 110 ∷ 101 ∷ 116 ∷ [];
  activation_height = 7;
  activation_block_hash = digits 64;
  allow_unknown_network_preset = false;
  expected_enforcer_network = some (110 ∷ 101 ∷ 116 ∷ []);
  node_commit = digits 40;
  enforcer_commit = digits 40;
  monitor_commit = digits 40;
  enforcer_endpoint = [];
  backfill_page_blocks = 128;
  backfill_page_pause_ms = 100;
  bmm_request_poll_interval_seconds = 5;
  bmm_readiness_grace_seconds = 120;
  confirmed_bmm_fees = false;
  liveness_file = none;
  request_timeout_seconds = 10;
  sidechains = 1 ∷ 9 ∷ [];
  tip_poll_interval_seconds = 30;
  stream_stall_timeout_seconds = 60;
  shutdown_timeout_seconds = 15;
}

production_is_accepted : validate from_str_name false production ≡ ok tt
unfolding validate validate_identity validate_sidechains validate_hex is_production
production_is_accepted = refl

validate-ok_example : IsValidated from_str_name false production
validate-ok_example = validate-ok from_str_name false production production_is_accepted

abbrev digit : ℕ → ℕ
digit byte = if leb byte 57 then byte - 48 else if leb byte 70 then byte - 55 else byte - 87

-- Two digits make a byte.
abbrev pairs : Bytes → Bytes
pairs [] = []
pairs (x ∷ []) = []
pairs (x ∷ y ∷ rest) = (16 * digit x + digit y) ∷ pairs rest

half : (n : ℕ) (value : Bytes) → length value ≡ n + n → length (pairs value) ≡ n
half zero [] e = refl
half zero (x ∷ rest) e = absurd (omega (arith, e))
half (suc n) [] e = absurd (omega (arith, e))
half (suc n) (x ∷ []) e = absurd (omega (arith, e))
half (suc n) (x ∷ y ∷ rest) e = let h = half n rest (omega (arith, e)) in omega (arith, h)

abbrev decode : Bytes → Result Bytes
decode value = ok (pairs value)

decode-Decodes : Decodes decode
decode-Decodes value h = (pairs value, refl, half 32 value h.0)

activation_block_hash_bytes-ok_example : IsActivationHash decode production
activation_block_hash_bytes-ok_example =
    activation_block_hash_bytes-ok from_str_name decode false production decode-Decodes
      production_is_accepted
