-- ===== src/Runtime/Instances.antt =====
-- The sidechain instances that a run observes: `select_active_instances`, `active_instances_from_state`
-- and `active_instances_for_slots` of extractors/enforcer/src/runtime.rs.
pub mod Laws
use bip300_monitor.Base.{
  ℕ, Bool, true, false, ◌||◌, Option, none, some, List, [], ◌∷◌, ℕ_discrete, contains, is_some,
  filter, if◌then◌else◌,
}
use bip300_monitor.Failure.{Result, ok, err, bail, or_bail, ◌>>=◌}
use bip300_monitor.Proto.{EnforcerEvent}
use bip300_monitor.Store.Types.{Externals, SidechainInstanceRef}
use bip300_monitor.Slots.{Slots, get, contains_key, insert, values}
use bip300_monitor.State.{active_instances}

abbrev pub is_empty : List ℕ → Bool
is_empty [] = true
is_empty (_ ∷ _) = false

-- `configured.is_empty() || configured.contains(&instance.sidechain)`.
unfoldable pub is_wanted : List ℕ → SidechainInstanceRef → Bool
unfolding ℕ_discrete
is_wanted configured instance =
    is_empty configured || contains ℕ_discrete configured instance.sidechain

-- The loop over the wanted instances: a slot that is there already ends it.
unfoldable pub insert_instances :
    List SidechainInstanceRef → Slots SidechainInstanceRef → Result (Slots SidechainInstanceRef)
insert_instances [] selected = ok selected
insert_instances (instance ∷ rest) selected =
    let later = insert_instances rest (insert instance.sidechain instance selected) in
    if contains_key instance.sidechain selected
    then bail "active-sidechains snapshot contains a duplicate slot"
    else later

-- `select_active_instances`.
unfoldable pub select_active_instances :
    List SidechainInstanceRef → List ℕ → Result (List SidechainInstanceRef)
unfolding is_wanted insert_instances
select_active_instances active configured = do
  selected ← insert_instances (filter (is_wanted configured) active) []
  ok (values selected)

-- `iter().find_map(…)`.
abbrev find_map {ℓ κ} : {A : Type ℓ} {B : Type κ} → (A → Option B) → List A → Option B
find_map f [] = none
find_map f (x ∷ xs) = elim (f x) [ some y ↦ some y | none ↦ find_map f xs ]

module _ (ext : Externals) where
  -- `active_instances_from_state`.
  unfoldable pub active_instances_from_state :
      List EnforcerEvent → Result (List SidechainInstanceRef)
  unfolding active_instances
  active_instances_from_state state = do
    instances ←
        or_bail (find_map (active_instances ext) state)
          "initial snapshot has no active-sidechains payload"
    instances

  -- `active_instances_for_slots`.
  unfoldable pub active_instances_for_slots :
      List EnforcerEvent → List ℕ → Result (List SidechainInstanceRef)
  unfolding active_instances_from_state select_active_instances
  active_instances_for_slots state sidechains = do
    active ← active_instances_from_state state
    select_active_instances active sidechains
