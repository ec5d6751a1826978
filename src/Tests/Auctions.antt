-- ===== src/Tests/Auctions.antt =====
-- Tests of the converted auctions.
use bip300_monitor.Base.{ℕ, zero, suc, ◌≡◌, refl, some, List, [], ◌∷◌, Bytes, length, All}
use bip300_monitor.Failure.{Result, ok}
use bip300_monitor.Convert.{
  SeenRequest, BmmRequest, slot, at_most, may_precede, insert_request, sort_requests, has_identity,
  check_identities, required, require_32_bytes, fixed_hex, convert_request, convert_requests,
}
use bip300_monitor.Convert.Laws.{IsChecked, IsUnique, IsOrdered, convert_requests-ok}

abbrev hash_of : ℕ → ℕ → Bytes
hash_of zero byte = []
hash_of (suc n) byte = byte ∷ hash_of n byte

-- A decoding that gives the bytes that it is given.
abbrev decode : Bytes → Result Bytes
decode value = ok value

abbrev encode : List BmmRequest → Bytes
encode requests = []

abbrev seen_request : ℕ → ℕ → ℕ → SeenRequest
seen_request number byte bid = record {
  sidechain_number = number;
  txid = some (record { hex = some (hash_of 32 byte) });
  critical_hash = some (record { hex = some (hash_of 32 7) });
  bid_sats = bid;
}

abbrev request : ℕ → ℕ → ℕ → BmmRequest
request number byte bid = record {
  sidechain_number = number;
  txid = hash_of 32 byte;
  critical_hash = hash_of 32 7;
  bid_sats = bid;
}

abbrev seen : List SeenRequest
seen = seen_request 9 1 10 ∷ seen_request 2 4 10 ∷ seen_request 2 3 10 ∷ seen_request 2 5 20 ∷ []

abbrev auction : List BmmRequest
auction = request 2 5 20 ∷ request 2 3 10 ∷ request 2 4 10 ∷ request 9 1 10 ∷ []

auction_is_converted : convert_requests decode encode seen ≡ ok auction
unfolding convert_requests check_identities convert_request sort_requests insert_request
    has_identity may_precede at_most slot fixed_hex required require_32_bytes
auction_is_converted = refl

convert_requests-ok_example :
    (length auction ≡ length seen) × All IsChecked auction × IsUnique auction × IsOrdered auction
convert_requests-ok_example = convert_requests-ok decode encode seen auction auction_is_converted
