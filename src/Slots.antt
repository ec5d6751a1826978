-- ===== src/Slots.antt =====
-- `std::collections::BTreeMap<u8, V>`: the entries in ascending order of their slots.
pub mod Laws
use bip300_monitor.Base.{
  ℕ, Bool, Option, none, some, List, [], ◌∷◌, ltb, ◌==◌, is_some, map, if◌then◌else◌,
}

abbrev pub Slots {ℓ} : Type ℓ → Type ℓ
Slots V = List (ℕ × V)

module _ {ℓ} {V : Type ℓ} where
  -- `BTreeMap::get` and `contains_key`.
  abbrev pub get : ℕ → Slots V → Option V
  get k [] = none
  get k ((j, v) ∷ rest) = if k == j then some v else get k rest

  abbrev pub contains_key : ℕ → Slots V → Bool
  contains_key k slots = is_some (get k slots)

  -- `BTreeMap::insert`: the entry of the slot is replaced.
  abbrev pub insert : ℕ → V → Slots V → Slots V
  insert k v [] = (k, v) ∷ []
  insert k v ((j, w) ∷ rest) =
      let later = insert k v rest in
      if ltb k j then (k, v) ∷ (j, w) ∷ rest else if k == j then (k, v) ∷ rest else (j, w) ∷ later

  -- `BTreeMap::remove`.
  abbrev pub remove : ℕ → Slots V → Slots V
  remove k [] = []
  remove k ((j, w) ∷ rest) = let later = remove k rest in if k == j then rest else (j, w) ∷ later

  -- `BTreeMap::into_values`.
  abbrev pub values : Slots V → List V
  values slots = map (λ e. e.1) slots
