-- ===== src/Convert.antt =====
-- `bmm_requests` of extractors/enforcer/src/convert.rs, and the checks on fields that it calls. A Rust
-- string is the list of its UTF-8 bytes.
pub mod Laws
use bip300_monitor.Base.{
  ℕ, Bool, true, false, not, ◌&&◌, ◌||◌, Option, none, some, List, [], ◌∷◌, Bytes, bytes_discrete,
  String, length, any, same, ◌==◌, leb, ltb, if◌then◌else◌,
}
use bip300_monitor.Failure.{Result, ok, context, or_bail, ensure, traverse, ◌>>=◌, ◌>>◌}
use bip300_monitor.Proto.{EnforcerEvent, bmm_requests}

-- `common::ConsensusHex` and `common::ReverseHex`.
pub record HexText : Type 0 where
  pub hex : Option Bytes

-- `get_seen_bmm_requests_response::BmmRequest`.
pub record SeenRequest : Type 0 where
  pub sidechain_number : ℕ
  pub txid : Option HexText
  pub critical_hash : Option HexText
  pub bid_sats : ℕ

-- `events::BmmRequest`.
pub record BmmRequest : Type 0 where
  pub sidechain_number : ℕ
  pub txid : Bytes
  pub critical_hash : Bytes
  pub bid_sats : ℕ

unfoldable pub required {ℓ} : {A : Type ℓ} → Option A → String → Result A
required value field = or_bail value field

unfoldable pub require_32_bytes : Bytes → String → Result Bytes
require_32_bytes value field = ensure (length value == 32) field >> ok value

unfoldable pub slot : ℕ → String → Result ℕ
slot value field = ensure (leb value 255) field >> ok value

-- `Vec<u8>::cmp`, as the test whether the first is not the greater one.
unfoldable pub at_most : Bytes → Bytes → Bool
at_most [] right = true
at_most (x ∷ xs) [] = false
at_most (x ∷ xs) (y ∷ ys) = ltb x y || (x == y) && at_most xs ys

-- The comparison of `requests.sort_by`, as the test whether the left request may stand first.
unfoldable pub may_precede : BmmRequest → BmmRequest → Bool
unfolding at_most
may_precede left right =
    ltb left.sidechain_number right.sidechain_number
    || (left.sidechain_number == right.sidechain_number)
      && (ltb right.bid_sats left.bid_sats
          || (right.bid_sats == left.bid_sats) && at_most left.txid right.txid)

-- `slice::sort_by`, which is stable.
unfoldable pub insert_request : BmmRequest → List BmmRequest → List BmmRequest
unfolding may_precede
insert_request request [] = request ∷ []
insert_request request (next ∷ rest) =
    let later = insert_request request rest in
    if may_precede request next then request ∷ next ∷ rest else next ∷ later

unfoldable pub sort_requests : List BmmRequest → List BmmRequest
unfolding insert_request
sort_requests [] = []
sort_requests (request ∷ rest) = insert_request request (sort_requests rest)

-- Whether two requests have one identity.
unfoldable pub has_identity : BmmRequest → BmmRequest → Bool
unfolding bytes_discrete
has_identity left right =
    (left.sidechain_number == right.sidechain_number) && same bytes_discrete left.txid right.txid

-- The loop that fills `identities`, after the requests before.
unfoldable pub check_identities : List BmmRequest → List BmmRequest → Result (Unit {0})
unfolding has_identity
check_identities before [] = ok tt
check_identities before (request ∷ rest) = do
  ensure (not (any (has_identity request) before)) "duplicate BMM request"
  check_identities (request ∷ before) rest

-- `hex::decode`, and the encoding of the requests in the event.
module _ (decode : Bytes → Result Bytes) (encode : List BmmRequest → Bytes) where
  abbrev pub decode_hex : Bytes → String → Result Bytes
  decode_hex value field = context (decode value) field

  -- `consensus_hex`, whose steps `hash_from_reverse` repeats.
  abbrev pub consensus_hex : Option HexText → String → Result Bytes
  unfolding required
  consensus_hex value field = do
    text ← required value field
    digits ← required text.hex field
    decode_hex digits field

  -- `fixed_consensus_hex` and `hash_from_reverse`.
  unfoldable pub fixed_hex : Option HexText → String → Result Bytes
  unfolding required require_32_bytes
  fixed_hex value field = do bytes ← consensus_hex value field; require_32_bytes bytes field

  unfoldable pub convert_request : SeenRequest → Result BmmRequest
  unfolding slot fixed_hex
  convert_request request = do
    ensure (leb request.sidechain_number 255) "BMM request has invalid sidechain slot"
    number ← slot request.sidechain_number "request.sidechain_number"
    txid ← fixed_hex request.txid "bmm_request.txid"
    critical_hash ← fixed_hex request.critical_hash "bmm_request.critical_hash"
    ok (record {
      sidechain_number = number;
      txid = txid;
      critical_hash = critical_hash;
      bid_sats = request.bid_sats;
    })

  unfoldable pub convert_requests : List SeenRequest → Result (List BmmRequest)
  unfolding convert_request check_identities sort_requests
  convert_requests requests = do
    converted ← traverse convert_request requests
    check_identities [] converted
    ok (sort_requests converted)

  unfoldable pub bmm_requests_event : Bytes → List SeenRequest → Result EnforcerEvent
  unfolding require_32_bytes convert_requests
  bmm_requests_event previous_mainchain_block_hash requests = do
    previous ←
        require_32_bytes previous_mainchain_block_hash "bmm_requests.previous_mainchain_block_hash"
    converted ← convert_requests requests
    ok (record { event = some (bmm_requests previous (encode converted)) })
