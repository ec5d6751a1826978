-- ===== src/Config/Laws.antt =====
-- What validated arguments guarantee.
use bip300_monitor.Base.{
  ℕ, ◌≡◌, ◌≢◌, ◌⊎◌, refl, sym, inl, inr, Bool, true, false, not, ◌&&◌, ◌||◌, ◌<◌, ◌≤◌, String,
  Option, none, some, List, [], ◌∷◌, Bytes, ℕ_discrete, bytes_discrete, length, contains, is_some,
  same-eq, ltb→lt, leb→le, Bool-cases, ◌==◌, arith, if◌then◌else◌, All,
}
use bip300_monitor.Failure.{Result, ok, err, ensure, or_bail, ◌>>◌, ensure-ok, returned-ok}
use bip300_monitor.Config.{
  Args, unknown, every, is_empty, is_network_byte, is_ascii_hexdigit, validate_hex, is_unknown,
  is_production, validate_sidechains, validate_production, validate_development, validate_identity,
  validate, activation_block_hash_bytes,
}

-- A hexadecimal text of a length.
abbrev pub IsHex : ℕ → Bytes → Type 0
IsHex size value = (length value ≡ size) × (every is_ascii_hexdigit value ≡ true)

-- No element stands in a list twice.
abbrev pub IsDistinct : List ℕ → Type 0
IsDistinct [] = Unit
IsDistinct (x ∷ xs) = All (λ y. y ≢ x) xs × IsDistinct xs

checked : (b : Bool) (text : String) → ensure b text ≡ ok tt → b ≡ true
checked true text e = refl
checked false text e = absurd (ground arith)

and_true : (a b : Bool) → a && b ≡ true → (a ≡ true) × (b ≡ true)
and_true a b e = ground arith

holds_negated : (b : Bool) → not b ≡ true → b ≡ false
holds_negated b e = ground arith

equal_number : (a b : ℕ) → (a == b) ≡ true → a ≡ b
equal_number a b e = ground arith

validate_hex-ok :
    (value : Bytes) (size : ℕ) (text : String)
    → validate_hex value size text ≡ ok tt
    → IsHex size value
unfolding validate_hex
validate_hex-ok value size text e =
    let (l, h) = and_true _ _ (checked _ text e) in (equal_number (length value) size l, h)

-- What is left of a set of sidechains avoids those before.
abbrev Avoids : List ℕ → List ℕ → Type 0
Avoids unique xs = All (λ x. contains ℕ_discrete unique x ≡ false) xs

not_first :
    (s : ℕ) (unique xs : List ℕ) → Avoids (s ∷ unique) xs → Avoids unique xs × All (λ y. y ≢ s) xs
unfolding ℕ_discrete
not_first s unique [] a = (tt, tt)
not_first s unique (x ∷ xs) a =
    let (h, t) = not_first s unique xs a.1 in ((ground arith, h), (ground arith, t))

validate_sidechains-ok :
    (unique xs : List ℕ) → validate_sidechains unique xs ≡ ok tt → Avoids unique xs × IsDistinct xs
unfolding validate_sidechains
validate_sidechains-ok unique [] e = (tt, tt)
validate_sidechains-ok unique (x ∷ xs) e =
    let (fresh, rest) = ensure-ok _ _ _ tt e in
    let (avoids, distinct) = validate_sidechains-ok (x ∷ unique) xs rest in
    let (kept, others) = not_first x unique xs avoids in
    ((holds_negated _ fresh, kept), (others, distinct))

or_false : (a b : Bool) → a || b ≡ false → (a ≡ false) × (b ≡ false)
or_false a b e = ground arith

fails_negated : (b : Bool) → not b ≡ false → b ≡ true
fails_negated b e = ground arith

-- No hash and no height of the dataset's identity is set.
abbrev pub IsOpen : Args → Type 0
IsOpen args =
    (args.activation_height ≡ 0)
    × (args.activation_block_hash ≡ unknown)
    × (args.node_commit ≡ unknown)
    × (args.enforcer_commit ≡ unknown)
    × (args.monitor_commit ≡ unknown)

left_unknown : (value : Bytes) → not (is_unknown value) ≡ false → value ≡ unknown
unfolding bytes_discrete
left_unknown value e = same-eq bytes_discrete value unknown (fails_negated _ e)

is_production-false : (args : Args) → is_production args ≡ false → IsOpen args
unfolding is_production
is_production-false args e =
    let (e1, monitor) = or_false _ _ e in
    let (e2, enforcer) = or_false _ _ e1 in
    let (e3, node) = or_false _ _ e2 in
    let (height, hash) = or_false _ _ e3 in
    (
      equal_number args.activation_height 0 (fails_negated _ height),
      left_unknown args.activation_block_hash hash,
      left_unknown args.node_commit node,
      left_unknown args.enforcer_commit enforcer,
      left_unknown args.monitor_commit monitor,
    )

-- A nonempty text of lowercase letters, digits and hyphens.
abbrev pub IsNetworkId : Bytes → Type 0
IsNetworkId id = (1 ≤ length id) × (every is_network_byte id ≡ true)

length-nonempty : (id : Bytes) → not (is_empty id) ≡ true → 1 ≤ length id
length-nonempty [] e = absurd (ground arith)
length-nonempty (x ∷ id) e = omega arith

or_bail-ok : (o : Option Bytes) (text : String) (b : Bytes) → or_bail o text ≡ ok b → o ≡ some b
or_bail-ok none text b e = absurd (ground arith)
or_bail-ok (some a) text b e = ground arith

or_bail-number : (o : Option ℕ) (text : String) (n : ℕ) → or_bail o text ≡ ok n → o ≡ some n
or_bail-number none text n e = absurd (ground arith)
or_bail-number (some a) text n e = ground arith

then_ok :
    (first next : Result (Unit {0})) → (first >> next) ≡ ok tt → (first ≡ ok tt) × (next ≡ ok tt)
then_ok (ok tt) next e = (refl, e)
then_ok (err x) next e = absurd (ground arith)

both_or_none : (a b : Bool) → (if a then b else not b) ≡ true → a ≡ b
both_or_none true b e = sym e
both_or_none false b e = sym (holds_negated b e)

-- The branch that a test took.
taken :
    (b : Bool) (x y : Result (Unit {0}))
    → (if b then x else y) ≡ ok tt
    → ((b ≡ true) × (x ≡ ok tt)) ⊎ ((b ≡ false) × (y ≡ ok tt))
taken true x y e = inl (refl, e)
taken false x y e = inr (refl, e)

module _ (from_str_name : Bytes → Option ℕ) where
  -- The hashes of the dataset's identity are set, and a concrete network.
  abbrev pub IsPinned : Args → Type 0
  IsPinned args =
      IsHex 64 args.activation_block_hash
      × IsHex 40 args.node_commit
      × IsHex 40 args.enforcer_commit
      × IsHex 40 args.monitor_commit
      × ((name : Bytes) × (network : ℕ) × (args.expected_enforcer_network ≡ some name)
          × (from_str_name name ≡ some network)
          × (1 < network))

  validate_production-ok :
      (args : Args) → validate_production from_str_name args ≡ ok tt → IsPinned args
  unfolding validate_hex
  validate_production-ok args e =
      let (hash, e1) = then_ok _ _ e in
      let (node, e2) = then_ok _ _ e1 in
      let (enforcer, e3) = then_ok _ _ e2 in
      let (monitor, e4) = then_ok _ _ e3 in
      let (name, named, e5) = returned-ok _ _ tt e4 in
      let (network, known, concrete) = returned-ok _ _ tt e5 in
      (
        validate_hex-ok args.activation_block_hash 64 _ hash,
        validate_hex-ok args.node_commit 40 _ node,
        validate_hex-ok args.enforcer_commit 40 _ enforcer,
        validate_hex-ok args.monitor_commit 40 _ monitor,
        (
          name,
          network,
          or_bail-ok _ _ name named,
          or_bail-number _ _ network known,
          ltb→lt 1 network (checked _ _ concrete),
        ),
      )

  -- A network name, where there is one, is known.
  abbrev pub IsKnown : Option Bytes → Type 0
  IsKnown none = Unit
  IsKnown (some name) = (network : ℕ) × (from_str_name name ≡ some network)

  validate_development-ok :
      (expected : Option Bytes)
      → validate_development from_str_name expected ≡ ok tt
      → IsKnown expected
  validate_development-ok none e = tt
  validate_development-ok (some name) e =
      let (network, known, _) = returned-ok _ _ tt e in
      (network, or_bail-number (from_str_name name) _ network known)

  -- The identity of the dataset: pinned, or open with a known network or none.
  abbrev pub IsIdentity : Args → Type 0
  IsIdentity args = IsPinned args ⊎ (IsOpen args × IsKnown args.expected_enforcer_network)

  validate_identity-ok :
      (args : Args)
      → validate_identity from_str_name args ≡ ok tt
      → IsNetworkId args.network_id × IsIdentity args
  unfolding validate_identity
  validate_identity-ok args e =
      let (id, identity) = then_ok _ _ e in
      let (nonempty, characters) = and_true _ _ (checked _ _ id) in
      let named : IsNetworkId args.network_id =
        (length-nonempty args.network_id nonempty, characters) in
      elim (taken (is_production args) (validate_production from_str_name args)
        (validate_development from_str_name args.expected_enforcer_network) identity) [
          | inl p ↦ (named, inl (validate_production-ok args p.1))
          | inr p ↦ (
            named,
            inr (
              is_production-false args p.0,
              validate_development-ok args.expected_enforcer_network p.1,
            ),
          )
        ]

  -- What `validate` guarantees of the arguments.
  abbrev pub IsValidated : Bool → Args → Type 0
  IsValidated max_blocks_is_set args =
      (is_some args.node_rpc_endpoint ≡ is_some args.node_rpc_cookie_file)
      × (args.nats_flush_timeout_seconds < args.shutdown_timeout_seconds)
      × (args.tip_poll_interval_seconds ≤ args.stream_stall_timeout_seconds)
      × IsDistinct args.sidechains
      × IsIdentity args
      × IsNetworkId args.network_id
      × (max_blocks_is_set ≡ false)

  -- Arguments that `validate` accepts configure the node's endpoint and cookie file together, stop
  -- later than the NATS flush ends, wait for a stalled stream at least one tip poll, and list no
  -- sidechain twice; the removed setting is absent, and the network id is a nonempty text of lowercase
  -- letters, digits and hyphens. The dataset is pinned or open. It is pinned where the activation hash
  -- has 64 hexadecimal digits, each of the three commits has 40, and the expected network is a concrete
  -- one. It is open where the activation height is 0, the hash and the commits are "unknown", and the
  -- expected network, if there is one, has a known name.
  pub validate-ok :
      (max_blocks_is_set : Bool) (args : Args)
      → validate from_str_name max_blocks_is_set args ≡ ok tt
      → IsValidated max_blocks_is_set args
  unfolding validate
  validate-ok max_blocks_is_set args e =
      let (node, e1) = then_ok _ _ e in
      let (removed, e2) = then_ok _ _ e1 in
      let (shutdown, e3) = then_ok _ _ e2 in
      let (stall, e4) = then_ok _ _ e3 in
      let (sidechains, identity) = then_ok _ _ e4 in
      (
        both_or_none _ _ (checked _ _ node),
        ltb→lt _ _ (checked _ _ shutdown),
        leb→le _ _ (checked _ _ stall),
        (validate_sidechains-ok [] args.sidechains sidechains).1,
        (validate_identity-ok args identity).1,
        (validate_identity-ok args identity).0,
        holds_negated _ (checked _ _ removed),
      )

-- The bytes that `hex::decode` gives for a text of 64 hexadecimal digits are 32.
abbrev pub Decodes : (Bytes → Result Bytes) → Type 0
Decodes decode =
    (value : Bytes)
    → IsHex 64 value
    → (hash : Bytes) × (decode value ≡ ok hash) × (length hash ≡ 32)

-- The outcomes of `activation_block_hash_bytes` on validated arguments.
abbrev pub IsActivationHash : (Bytes → Result Bytes) → Args → Type 0
IsActivationHash decode args =
    ((args.activation_block_hash ≡ unknown) × (activation_block_hash_bytes decode args ≡ ok none))
    ⊎ ((hash : Bytes) × (activation_block_hash_bytes decode args ≡ ok (some hash))
        × (length hash ≡ 32))

module _ (from_str_name : Bytes → Option ℕ) (decode : Bytes → Result Bytes) where
  pinned_hash :
      (args : Args) → Decodes decode → IsPinned from_str_name args → IsActivationHash decode args
  unfolding activation_block_hash_bytes
  pinned_hash args decodes pinned =
      let (hash, decoded, size) = decodes args.activation_block_hash pinned.0 in
      elim (Bool-cases (is_unknown args.activation_block_hash)) [
        | inl u ↦ inl (same-eq bytes_discrete args.activation_block_hash unknown u, rw u refl)
        | inr u ↦ inr (hash, rw (u, decoded, size) refl, size)
      ]

  open_hash : (args : Args) → IsOpen args → IsActivationHash decode args
  unfolding activation_block_hash_bytes
  open_hash args is_open = inl (is_open.1, rw is_open.1 refl)

  -- Where `hex::decode` gives 32 bytes for 64 hexadecimal digits, the activation hash of validated
  -- arguments is read without an error: none where the text is "unknown", and 32 bytes otherwise.
  pub activation_block_hash_bytes-ok :
      (max_blocks_is_set : Bool) (args : Args)
      → Decodes decode
      → validate from_str_name max_blocks_is_set args ≡ ok tt
      → IsActivationHash decode args
  activation_block_hash_bytes-ok max_blocks_is_set args decodes e =
      elim (validate-ok from_str_name max_blocks_is_set args e).4 [
        | inl pinned ↦ pinned_hash args decodes pinned
        | inr is_open ↦ open_hash args is_open.0
      ]
