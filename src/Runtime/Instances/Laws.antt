-- ===== src/Runtime/Instances/Laws.antt =====
-- What the selection of instances establishes.
use mathlib.Core.Path.{subst}
use bip300_monitor.Base.{
  ℕ, suc, ◌≡◌, refl, sym, ap, ◌∙◌, inl, inr, Bool, true, false, ◌&&◌, ◌||◌, List, [], ◌∷◌, contains,
  filter, Bool-cases, arith, All, any, same, same-eq, ◌<◌, ◌==◌, not,
}
use bip300_monitor.Failure.{ok, is_ok, Result-cases}
use bip300_monitor.Store.Types.{SidechainInstanceRef, instance_discrete}
use bip300_monitor.Slots.{Slots, contains_key, insert, values}
use bip300_monitor.Slots.Laws.{
  IsAscending, IsAbove, insert-IsAscending, above-IsAscending, IsKeyedBy, insert-IsKeyedBy,
}
use bip300_monitor.Runtime.Instances.{is_wanted, insert_instances, select_active_instances}

-- The instances stand in the strict order of their slots.
abbrev pub InSlotOrder : List SidechainInstanceRef → Type 0
InSlotOrder [] = Unit
InSlotOrder (i ∷ is) =
    All (λ (j : SidechainInstanceRef). i.sidechain < j.sidechain) is × InSlotOrder is

-- Whether two entries have one slot.
abbrev pub has_duplicate : List SidechainInstanceRef → Bool
has_duplicate [] = false
has_duplicate (i ∷ is) =
    any (λ (j : SidechainInstanceRef). j.sidechain == i.sidechain) is || has_duplicate is

-- Each instance stands under its slot.
abbrev slot_of : SidechainInstanceRef → ℕ
slot_of i = i.sidechain

abbrev IsKeyed : Slots SidechainInstanceRef → Type 0
IsKeyed slots = IsKeyedBy slot_of slots

contains-insert :
    (k : ℕ) (v i : SidechainInstanceRef) (slots : Slots SidechainInstanceRef)
    → contains_key k slots ≡ false
    → contains instance_discrete (values (insert k v slots)) i
      ≡ (same instance_discrete v i || contains instance_discrete (values slots) i)
contains-insert k v i [] absent = refl
contains-insert k v i ((j, w) ∷ rest) absent = ground (arith, contains-insert k v i rest)

or_false : (a : Bool) → (a || false) ≡ a
or_false a = ground arith

swap : (a b c : Bool) → (b || (a || c)) ≡ ((a || b) || c)
swap a b c = ground arith

insert_instances-InOrder :
    (xs : List SidechainInstanceRef) (selected result : Slots SidechainInstanceRef)
    → insert_instances xs selected ≡ ok result
    → IsAscending selected
    → IsKeyed selected
    → IsAscending result × IsKeyed result
unfolding insert_instances
insert_instances-InOrder [] selected result e a k =
    let same_slots : selected ≡ result = cc in
    subst (λ s. IsAscending s × IsKeyed s) same_slots (a, k)
insert_instances-InOrder (x ∷ xs) selected result e a k =
    elim (Bool-cases (contains_key x.sidechain selected)) [
      | inl there ↦ absurd (ground arith)
      | inr absent ↦
          let later : insert_instances xs (insert x.sidechain x selected) ≡ ok result =
            ground arith in
          insert_instances-InOrder xs (insert x.sidechain x selected) result later
            (insert-IsAscending x.sidechain x selected a) (insert-IsKeyedBy slot_of x selected k)
    ]

values_above :
    (n m : ℕ) (slots : Slots SidechainInstanceRef)
    → IsAbove n slots
    → IsKeyed slots
    → m < suc n
    → All (λ (j : SidechainInstanceRef). m < j.sidechain) (values slots)
values_above n m [] a k h = tt
values_above n m ((j, i) ∷ rest) (b, a) (e, k) h =
    (omega (arith, b, e, h), values_above j m rest a k (omega (arith, b, h)))

values-InSlotOrder :
    (slots : Slots SidechainInstanceRef)
    → IsAscending slots
    → IsKeyed slots
    → InSlotOrder (values slots)
values-InSlotOrder [] a k = tt
values-InSlotOrder ((n, i) ∷ rest) a (e, k) = (
  values_above n i.sidechain rest a k (omega (arith, e)),
  values-InSlotOrder rest (above-IsAscending n rest a) k,
)

contains-insert_instances :
    (i : SidechainInstanceRef) (xs : List SidechainInstanceRef)
    (selected result : Slots SidechainInstanceRef)
    → insert_instances xs selected ≡ ok result
    → contains instance_discrete (values result) i
      ≡ (contains instance_discrete xs i || contains instance_discrete (values selected) i)
unfolding insert_instances
contains-insert_instances i [] selected result e =
    let same_slots : selected ≡ result = cc in rw same_slots refl
contains-insert_instances i (x ∷ xs) selected result e =
    elim (Bool-cases (contains_key x.sidechain selected)) [
      | inl there ↦ absurd (ground arith)
      | inr absent ↦
          let later : insert_instances xs (insert x.sidechain x selected) ≡ ok result =
            ground arith in
          let ih = contains-insert_instances i xs (insert x.sidechain x selected) result later in
          rw (ih, contains-insert x.sidechain x i selected absent)
            (swap (same instance_discrete x i) (contains instance_discrete xs i)
              (contains instance_discrete (values selected) i))
    ]

contains-filter :
    (p : SidechainInstanceRef → Bool) (i : SidechainInstanceRef) (xs : List SidechainInstanceRef)
    → contains instance_discrete (filter p xs) i ≡ (contains instance_discrete xs i && p i)
contains-filter p i [] = refl
contains-filter p i (x ∷ xs) = elim (Bool-cases (same instance_discrete x i)) [
  | inr d ↦ ground (arith, contains-filter p i xs)
  | inl e ↦
      let alike : p x ≡ p i = ap p (same-eq instance_discrete x i e) in
      ground (arith, contains-filter p i xs)
]

-- A selection that succeeds holds exactly the active instances that are wanted, in the strict order of
-- their slots.
pub select_active_instances-ok :
    (active : List SidechainInstanceRef) (configured : List ℕ)
    (selected : List SidechainInstanceRef)
    → select_active_instances active configured ≡ ok selected
    → InSlotOrder selected
      × ((i : SidechainInstanceRef)
          → contains instance_discrete selected i
            ≡ (contains instance_discrete active i && is_wanted configured i))
unfolding select_active_instances
select_active_instances-ok active configured selected e =
    let wanted = filter (is_wanted configured) active in
    elim (Result-cases (insert_instances wanted [])) [
      | inr (x, q) ↦ absurd (ground arith)
      | inl (slots, q) ↦
          let listed : values slots ≡ selected = ground arith in
          let order = insert_instances-InOrder wanted [] slots q tt tt in
          (
            subst InSlotOrder listed (values-InSlotOrder slots order.0 order.1),
            λ i.
                ap (λ l. contains instance_discrete l i) (sym listed)
                ∙ contains-insert_instances i wanted [] slots q
                ∙ or_false (contains instance_discrete wanted i)
                ∙ contains-filter (is_wanted configured) i active,
          )
    ]

contains_key-insert :
    (k j : ℕ) (v : SidechainInstanceRef) (slots : Slots SidechainInstanceRef)
    → contains_key k (insert j v slots) ≡ ((k == j) || contains_key k slots)
contains_key-insert k j v [] = ground arith
contains_key-insert k j v ((i, w) ∷ rest) = ground (arith, contains_key-insert k j v rest)

any_contained-insert :
    (x : SidechainInstanceRef) (slots : Slots SidechainInstanceRef) (xs : List SidechainInstanceRef)
    → any (λ (j : SidechainInstanceRef). contains_key j.sidechain (insert x.sidechain x slots)) xs
      ≡ (any (λ (j : SidechainInstanceRef). j.sidechain == x.sidechain) xs
          || any (λ (j : SidechainInstanceRef). contains_key j.sidechain slots) xs)
any_contained-insert x slots [] = refl
any_contained-insert x slots (y ∷ ys) =
    rw (contains_key-insert y.sidechain x.sidechain x slots, any_contained-insert x slots ys)
      (ground arith)

absorbed : (a : Bool) → false ≡ not (a || true)
absorbed a = ground arith

gather : (a b c : Bool) → (a || (b || c)) ≡ ((b || a) || c)
gather a b c = ground arith

abbrev nothing : Slots SidechainInstanceRef
nothing = []

none_contained :
    (xs : List SidechainInstanceRef)
    → any (λ (j : SidechainInstanceRef). contains_key j.sidechain nothing) xs ≡ false
none_contained [] = refl
none_contained (x ∷ xs) = none_contained xs

insert_instances-is_ok :
    (xs : List SidechainInstanceRef) (slots : Slots SidechainInstanceRef)
    → is_ok (insert_instances xs slots)
      ≡ not (
          has_duplicate xs || any (λ (j : SidechainInstanceRef). contains_key j.sidechain slots) xs)
unfolding insert_instances is_ok
insert_instances-is_ok [] slots = refl
insert_instances-is_ok (x ∷ xs) slots =
    let ih = insert_instances-is_ok xs (insert x.sidechain x slots) in
    elim (Bool-cases (contains_key x.sidechain slots)) [
      | inl there ↦ rw (there) (
          absorbed
            (any (λ (j : SidechainInstanceRef). j.sidechain == x.sidechain) xs || has_duplicate xs))
      | inr absent ↦
          rw (absent, ih, any_contained-insert x slots xs)
            (ap not (
              gather (has_duplicate xs)
                (any (λ (j : SidechainInstanceRef). j.sidechain == x.sidechain) xs)
                (any (λ (j : SidechainInstanceRef). contains_key j.sidechain slots) xs)))
    ]

-- The selection succeeds exactly where no two of the wanted instances have one slot.
pub select_active_instances-is_ok :
    (active : List SidechainInstanceRef) (configured : List ℕ)
    → is_ok (select_active_instances active configured)
      ≡ not (has_duplicate (filter (is_wanted configured) active))
unfolding select_active_instances is_ok
select_active_instances-is_ok active configured =
    let wanted = filter (is_wanted configured) active in
    let total =
      insert_instances-is_ok wanted []
      ∙ ap (λ b. not (has_duplicate wanted || b)) (none_contained wanted)
      ∙ ap not (or_false (has_duplicate wanted)) in
    elim (Result-cases (insert_instances wanted [])) [
      | inl (slots, q) ↦ rw (q) (sym (ap is_ok q) ∙ total)
      | inr (x, q) ↦ rw (q) (sym (ap is_ok q) ∙ total)
    ]
