-- ===== src/Runtime/Identity.antt =====
-- `NETWORK_PRESETS`, `reported_thresholds` and `validate_chain_identity` of
-- extractors/enforcer/src/runtime.rs.
pub mod Presets
pub mod Laws
use bip300_monitor.Base.{
  ℕ, Bool, true, false, not, ◌&&◌, String, string_discrete, Option, none, some, List, [], ◌∷◌,
  ℕ_discrete, find, is_some, same, ◌==◌, if◌then◌else◌,
}
use bip300_monitor.Failure.{Result, ok, err, bail, or_bail, ensure, ◌>>=◌, ◌>>◌}
use bip300_monitor.Proto.{EnforcerEvent, Bip300Constants, chain_info}

-- The thresholds: withdrawal max age and inclusion threshold, then used-slot and unused-slot proposal
-- max age and activation threshold.
pub record NetworkPreset : Type 0 where
  pub network_id : String
  pub activation_height : ℕ
  pub thresholds : List ℕ

abbrev pub network_presets : List NetworkPreset
network_presets =
    (record {
      network_id = "mainnet";
      activation_height = 973728;
      thresholds = 12096 ∷ 6048 ∷ 12096 ∷ 6048 ∷ 2016 ∷ 1815 ∷ [];
    })
    ∷ (record {
      network_id = "betanet";
      activation_height = 967680;
      thresholds = 26300 ∷ 13150 ∷ 26300 ∷ 13150 ∷ 2016 ∷ 1008 ∷ [];
    })
    ∷ (record {
      network_id = "alphanet";
      activation_height = 963648;
      thresholds = 144 ∷ 72 ∷ 144 ∷ 72 ∷ 36 ∷ 30 ∷ [];
    })
    ∷ []

-- `reported_thresholds`.
unfoldable pub reported_thresholds : Bip300Constants → List ℕ
reported_thresholds constants =
    constants.withdrawal_bundle_max_age ∷ constants.withdrawal_bundle_inclusion_threshold
    ∷ constants.used_sidechain_slot_proposal_max_age
    ∷ constants.used_sidechain_slot_activation_threshold
    ∷ constants.unused_sidechain_slot_proposal_max_age
    ∷ constants.unused_sidechain_slot_activation_threshold ∷ []

-- The arguments that say which chain a run records.
pub record ChainArgs : Type 0 where
  pub network_id : String
  pub activation_height : ℕ
  pub expected_enforcer_network : Option String
  pub allow_unknown_network_preset : Bool

-- The first chain-info payload: the raw network and the constants.
abbrev pub find_chain_info : List EnforcerEvent → Option (ℕ × Option Bip300Constants)
find_chain_info [] = none
find_chain_info (payload ∷ rest) =
    let later = find_chain_info rest in
    elim payload.event [
      | some (chain_info raw_network constants) ↦ some (raw_network, constants)
      | _ ↦ later
    ]

unfoldable pub thresholds_discrete : Discrete (List ℕ)
unfolding ℕ_discrete
thresholds_discrete = hlevel ℕ_discrete

unfoldable pub find_preset : String → Option NetworkPreset
unfolding string_discrete
find_preset network_id =
    find (λ (preset : NetworkPreset). same string_discrete preset.network_id network_id)
      network_presets

-- `mainchain::Network::from_str_name` of the generated code, as the number of the network.
module _ (from_str_name : String → Option ℕ) where
  -- The comparison with the network that is expected.
  abbrev pub expect_network : Option String → ℕ → Result (Unit {0})
  expect_network none raw_network = ok tt
  expect_network (some name) raw_network = do
    expected ← or_bail (from_str_name name) "unknown expected enforcer network"
    ensure (raw_network == expected) "enforcer network is not the expected one"

  abbrev pub expect_preset : ChainArgs → Bip300Constants → Option NetworkPreset → Result (Unit {0})
  unfolding thresholds_discrete reported_thresholds
  expect_preset args constants (some preset) = do
    ensure (preset.activation_height == args.activation_height)
        "network activates at another height than this dataset is locked to"
    ensure (same thresholds_discrete (reported_thresholds constants) preset.thresholds)
        "enforcer BIP300 thresholds are not the preset's"
  expect_preset args constants none =
      ensure (not (is_some args.expected_enforcer_network && not args.allow_unknown_network_preset))
        "network has no known enforcer preset to verify"

  -- `validate_chain_identity`.
  unfoldable pub validate_chain_identity : ChainArgs → List EnforcerEvent → Result (Unit {0})
  unfolding find_preset thresholds_discrete reported_thresholds
  validate_chain_identity args snapshot_constants = do
    info ← or_bail (find_chain_info snapshot_constants) "initial snapshot has no chain-info payload"
    constants ← or_bail info.1 "chain info has no BIP300 constants"
    ensure (constants.activation_height == args.activation_height)
        "enforcer BIP300 activation height is not the expected one"
    expect_network args.expected_enforcer_network info.0
    expect_preset args constants (find_preset args.network_id)
