-- ===== src/Runtime/Identity/Presets.antt =====
-- The preset of a network, against a table of the known networks.
use mathlib.Core.Path.{subst}
use bip300_monitor.Base.{
  ℕ, ◌≡◌, ◌≢◌, ◌⊎◌, ◌↔◌, [], ◌∷◌, string_discrete, Bool-cases, refl, sym, ap, ◌∙◌, inl, inr, Bool,
  true, false, not, ◌&&◌, String, Option, none, some, List, is_some, same, same-eq, arith,
}
use bip300_monitor.Proto.{Bip300Constants}
use bip300_monitor.Runtime.Identity.{NetworkPreset, reported_thresholds, ChainArgs, find_preset}

-- The height at which a network activates, and its thresholds.
abbrev pub Activates : ChainArgs → Bip300Constants → ℕ → List ℕ → Type 0
Activates args constants height thresholds =
    (args.activation_height ≡ height) × (reported_thresholds constants ≡ thresholds)

-- The three networks with known parameters have them, and another network is accepted where no network
-- is expected or where the arguments allow it.
abbrev pub HasParameters : ChainArgs → Bip300Constants → Type 0
HasParameters args constants =
    ((args.network_id ≡ "mainnet")
      × Activates args constants 973728 (12096 ∷ 6048 ∷ 12096 ∷ 6048 ∷ 2016 ∷ 1815 ∷ []))
    ⊎ ((args.network_id ≡ "betanet")
        × Activates args constants 967680 (26300 ∷ 13150 ∷ 26300 ∷ 13150 ∷ 2016 ∷ 1008 ∷ []))
    ⊎ ((args.network_id ≡ "alphanet")
        × Activates args constants 963648 (144 ∷ 72 ∷ 144 ∷ 72 ∷ 36 ∷ 30 ∷ []))
    ⊎ ((args.network_id ≢ "mainnet")
        × (args.network_id ≢ "betanet")
        × (args.network_id ≢ "alphanet")
        × ((args.expected_enforcer_network ≡ none) ⊎ (args.allow_unknown_network_preset ≡ true)))

-- A known network has its preset's height and thresholds, and an unknown one is either not a
-- production dataset's or accepted by the arguments.
abbrev pub IsPreset : ChainArgs → Bip300Constants → Option NetworkPreset → Type 0
IsPreset args constants (some preset) =
    (preset.activation_height ≡ args.activation_height)
    × (reported_thresholds constants ≡ preset.thresholds)
IsPreset args constants none =
    not (is_some args.expected_enforcer_network && not args.allow_unknown_network_preset) ≡ true

abbrev preset : String → ℕ → List ℕ → NetworkPreset
preset id height thresholds = record {
  network_id = id;
  activation_height = height;
  thresholds = thresholds;
}

abbrev mainnet : NetworkPreset
mainnet = preset "mainnet" 973728 (12096 ∷ 6048 ∷ 12096 ∷ 6048 ∷ 2016 ∷ 1815 ∷ [])

abbrev betanet : NetworkPreset
betanet = preset "betanet" 967680 (26300 ∷ 13150 ∷ 26300 ∷ 13150 ∷ 2016 ∷ 1008 ∷ [])

abbrev alphanet : NetworkPreset
alphanet = preset "alphanet" 963648 (144 ∷ 72 ∷ 144 ∷ 72 ∷ 36 ∷ 30 ∷ [])

found_mainnet : find_preset "mainnet" ≡ some mainnet
unfolding find_preset string_discrete
found_mainnet = refl

found_betanet : find_preset "betanet" ≡ some betanet
unfolding find_preset string_discrete
found_betanet = refl

found_alphanet : find_preset "alphanet" ≡ some alphanet
unfolding find_preset string_discrete
found_alphanet = refl

same-ne : (a b : String) → b ≢ a → same string_discrete a b ≡ false
same-ne a b ne = elim (Bool-cases (same string_discrete a b)) [
  | inl e ↦ absurd (ne (sym (same-eq string_discrete a b e)))
  | inr e ↦ e
]

found_none :
    (id : String) → id ≢ "mainnet" → id ≢ "betanet" → id ≢ "alphanet" → find_preset id ≡ none
unfolding find_preset
found_none id m b a =
    rw (same-ne "mainnet" id m, same-ne "betanet" id b, same-ne "alphanet" id a) refl

accepted :
    (expected : Option String) (allowed : Bool)
    → (not (is_some expected && not allowed) ≡ true) ↔ ((expected ≡ none) ⊎ (allowed ≡ true))
accepted none allowed = (λ e. inl refl, λ p. refl)
accepted (some name) true = (λ e. inr refl, λ p. refl)
accepted (some name) false = (
  λ e. absurd (ground arith),
  λ p. elim p [ inl q ↦ absurd (ground arith) | inr q ↦ absurd (ground arith) ],
)

module _ (args : ChainArgs) (constants : Bip300Constants) where
  pub IsPreset-HasParameters :
      IsPreset args constants (find_preset args.network_id) → HasParameters args constants
  IsPreset-HasParameters p = elim (string_discrete args.network_id "mainnet") [
    | yes m ↦
        let (h, t) = subst (IsPreset args constants) (ap find_preset m ∙ found_mainnet) p in
        inl (m, (sym h, t))
    | no m ↦ elim (string_discrete args.network_id "betanet") [
      | yes b ↦
          let (h, t) = subst (IsPreset args constants) (ap find_preset b ∙ found_betanet) p in
          inr (inl (b, (sym h, t)))
      | no b ↦ elim (string_discrete args.network_id "alphanet") [
        | yes a ↦
            let (h, t) = subst (IsPreset args constants) (ap find_preset a ∙ found_alphanet) p in
            inr (inr (inl (a, (sym h, t))))
        | no a ↦ inr (
            inr (
              inr (
                m,
                b,
                a,
                (accepted args.expected_enforcer_network args.allow_unknown_network_preset).0
                    (subst (IsPreset args constants) (found_none args.network_id m b a) p),
              )))
      ]
    ]
  ]

  pub IsPreset-of_HasParameters :
      HasParameters args constants → IsPreset args constants (find_preset args.network_id)
  IsPreset-of_HasParameters (inl (m, (h, t))) =
      subst (IsPreset args constants) (sym (ap find_preset m ∙ found_mainnet)) (sym h, t)
  IsPreset-of_HasParameters (inr (inl (b, (h, t)))) =
      subst (IsPreset args constants) (sym (ap find_preset b ∙ found_betanet)) (sym h, t)
  IsPreset-of_HasParameters (inr (inr (inl (a, (h, t))))) =
      subst (IsPreset args constants) (sym (ap find_preset a ∙ found_alphanet)) (sym h, t)
  IsPreset-of_HasParameters (inr (inr (inr (m, b, a, allowed)))) =
      subst (IsPreset args constants) (sym (found_none args.network_id m b a))
        ((accepted args.expected_enforcer_network args.allow_unknown_network_preset).1 allowed)
