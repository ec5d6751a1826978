-- ===== src/Runtime/Identity/Laws.antt =====
-- What a validated chain identity says.
use bip300_monitor.Base.{
  ℕ, ◌≡◌, ◌↔◌, refl, sym, ap, ◌∙◌, inl, inr, Bool, true, false, String, Option, none, some, List,
  Option-cases, same, same-eq, same_self, ◌==◌, arith,
}
use bip300_monitor.Failure.{Result, ok, err, ensure, ◌>>◌}
use bip300_monitor.Proto.{EnforcerEvent, Bip300Constants}
use bip300_monitor.Runtime.Identity.{
  NetworkPreset, reported_thresholds, ChainArgs, find_chain_info, thresholds_discrete, find_preset,
  expect_network, expect_preset, validate_chain_identity,
}
use bip300_monitor.Runtime.Identity.Presets.{
  HasParameters, IsPreset, IsPreset-HasParameters, IsPreset-of_HasParameters,
}

ensured : (b : Bool) (text : String) → ensure b text ≡ ok tt → b ≡ true
ensured true text e = refl
ensured false text e = absurd (ground arith)

matches : (n : ℕ) → ensure (n == n) "enforcer network is not the expected one" ≡ ok tt
matches n = ground arith

-- A check and what follows it.
checked_then :
    (b : Bool) (text : String) (next : Result (Unit {0}))
    → ((ensure b text >> next) ≡ ok tt) ↔ ((b ≡ true) × (next ≡ ok tt))
checked_then true text next = (λ e. (refl, e), λ p. p.1)
checked_then false text next = (λ e. absurd (ground arith), λ p. absurd (ground arith))

same_of : (a b : List ℕ) → a ≡ b → same thresholds_discrete a b ≡ true
same_of a b e = rw e (same_self thresholds_discrete b)

-- A check that succeeded, and what follows it.
both_ok :
    (first next : Result (Unit {0}))
    → ((first >> next) ≡ ok tt) ↔ ((first ≡ ok tt) × (next ≡ ok tt))
both_ok (ok tt) next = (λ e. (refl, e), λ p. p.1)
both_ok (err x) next = (λ e. absurd (ground arith), λ p. absurd (ground arith))

equal_numbers : (a b : ℕ) → ((a == b) ≡ true) ↔ (a ≡ b)
equal_numbers a b = (λ e. ground arith, λ p. ground arith)

module _ (from_str_name : String → Option ℕ) where
  -- The network that is expected is the one that is reported.
  abbrev pub IsExpected : Option String → ℕ → Type 0
  IsExpected none raw_network = Unit
  IsExpected (some name) raw_network = from_str_name name ≡ some raw_network

  expect_network-ok :
      (expected : Option String) (raw_network : ℕ)
      → (expect_network from_str_name expected raw_network ≡ ok tt)
        ↔ IsExpected expected raw_network
  expect_network-ok none raw_network = (λ e. tt, λ p. refl)
  expect_network-ok (some name) raw_network = (
    λ e. elim (Option-cases (from_str_name name)) [
      | inl q ↦ absurd (ground arith)
      | inr (n, q) ↦ let n_eq : n ≡ raw_network = ground arith in q ∙ ap some n_eq
    ],
    λ p. rw p (matches raw_network),
  )

  expect_preset-ok :
      (args : ChainArgs) (constants : Bip300Constants) (preset : Option NetworkPreset)
      → (expect_preset from_str_name args constants preset ≡ ok tt) ↔ IsPreset args constants preset
  unfolding thresholds_discrete reported_thresholds
  expect_preset-ok args constants none = (ensured _ _, λ p. rw p refl)
  expect_preset-ok args constants (some preset) =
      let heights = preset.activation_height == args.activation_height in
      let thresholds = same thresholds_discrete (reported_thresholds constants) preset.thresholds in
      (
        λ e.
            let (h, rest) = (checked_then heights _ _).0 e in
            (
              (equal_numbers preset.activation_height args.activation_height).0 h,
              same-eq thresholds_discrete (reported_thresholds constants) preset.thresholds
                  (ensured thresholds _ rest),
            ),
        λ p. (checked_then heights _ _).1 (
          (equal_numbers preset.activation_height args.activation_height).1 p.0,
          rw (same_of (reported_thresholds constants) preset.thresholds p.1) refl,
        ),
      )

  abbrev checks : ChainArgs → ℕ → Bip300Constants → Result (Unit {0})
  checks args raw_network constants =
      ensure (constants.activation_height == args.activation_height)
        "enforcer BIP300 activation height is not the expected one"
      >> (expect_network from_str_name args.expected_enforcer_network raw_network
          >> expect_preset from_str_name args constants (find_preset args.network_id))

  abbrev pub IsIdentified : ChainArgs → ℕ → Bip300Constants → Type 0
  IsIdentified args raw_network constants =
      (constants.activation_height ≡ args.activation_height)
      × IsExpected args.expected_enforcer_network raw_network
      × HasParameters args constants

  checks-ok :
      (args : ChainArgs) (raw_network : ℕ) (constants : Bip300Constants)
      → (checks args raw_network constants ≡ ok tt) ↔ IsIdentified args raw_network constants
  checks-ok args raw_network constants =
      let height = checked_then (constants.activation_height == args.activation_height) _ _ in
      let same_height = equal_numbers constants.activation_height args.activation_height in
      let rest =
        both_ok (expect_network from_str_name args.expected_enforcer_network raw_network)
          (expect_preset from_str_name args constants (find_preset args.network_id)) in
      let network = expect_network-ok args.expected_enforcer_network raw_network in
      let preset = expect_preset-ok args constants (find_preset args.network_id) in
      (
        λ e.
            let (h, r) = height.0 e in
            let (n, p) = rest.0 r in
            (same_height.0 h, network.0 n, IsPreset-HasParameters args constants (preset.0 p)),
        λ (h, n, p). height.1 (
          same_height.1 h,
          rest.1 (network.1 n, preset.1 (IsPreset-of_HasParameters args constants p)),
        ),
      )

  -- The identity is validated exactly where the snapshot's first chain info has constants with the
  -- activation height of the arguments; it reports the network that is expected, if one is; and a dataset
  -- named "mainnet", "betanet" or "alphanet" has the height and the six thresholds of that network, while
  -- one of another name either expects no network or is allowed to have no preset.
  pub validate_chain_identity-ok :
      (args : ChainArgs) (snapshot_constants : List EnforcerEvent)
      → (validate_chain_identity from_str_name args snapshot_constants ≡ ok tt) ↔ (
          (raw_network : ℕ) × (constants : Bip300Constants) × (find_chain_info snapshot_constants
            ≡ some (raw_network, some constants))
          × IsIdentified args raw_network constants)
  unfolding validate_chain_identity
  validate_chain_identity-ok args snapshot_constants =
      elim (Option-cases (find_chain_info snapshot_constants)) [
        | inl q ↦ (λ e. absurd (ground arith), λ p. absurd (ground arith))
        | inr ((raw, held), q) ↦ elim (Option-cases held) [
          | inl h ↦ (λ e. absurd (ground arith), λ p. absurd (ground arith))
          | inr (constants, h) ↦
              let found : find_chain_info snapshot_constants ≡ some (raw, some constants) =
                q ∙ ap (λ o. some (raw, o)) h in
              let remaining : validate_chain_identity from_str_name args snapshot_constants
                  ≡ checks args raw constants =
                rw (validate_chain_identity, found) refl in
              (
                λ e. (raw, constants, found, (checks-ok args raw constants).0 (sym remaining ∙ e)),
                λ (raw', constants', found', rest).
                    rw (validate_chain_identity, found') ((checks-ok args raw' constants').1 rest),
              )
        ]
      ]
