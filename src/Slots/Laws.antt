-- ===== src/Slots/Laws.antt =====
-- What the operations on a map of slots promise.
use bip300_monitor.Base.{ℕ, suc, ◌<◌, ◌≡◌, ◌≢◌, refl, none, some, [], ◌∷◌, arith}
use bip300_monitor.Slots.{Slots, get, insert, remove}

module _ {ℓ} {V : Type ℓ} where
  -- The slots are above a bound, and ascend.
  abbrev pub IsAbove : ℕ → Slots V → Type 0
  IsAbove n [] = Unit
  IsAbove n ((j, v) ∷ rest) = (n < j) × IsAbove j rest

  abbrev pub IsAscending : Slots V → Type 0
  IsAscending [] = Unit
  IsAscending ((j, v) ∷ rest) = IsAbove j rest

  pub get-insert : (k : ℕ) (v : V) (slots : Slots V) → get k (insert k v slots) ≡ some v
  get-insert k v [] = ground arith
  get-insert k v ((j, w) ∷ rest) = ground (arith, get-insert k v rest)

  pub get-insert_other :
      (k i : ℕ) (v : V) (slots : Slots V) → k ≢ i → get k (insert i v slots) ≡ get k slots
  get-insert_other k i v [] d = ground arith
  get-insert_other k i v ((j, w) ∷ rest) d = ground (arith, get-insert_other k i v rest d)

  insert-IsAbove :
      (n k : ℕ) (v : V) (slots : Slots V) → n < k → IsAbove n slots → IsAbove n (insert k v slots)
  insert-IsAbove n k v [] h a = (h, tt)
  insert-IsAbove n k v ((j, w) ∷ rest) h (b, a) = ground (arith, insert-IsAbove j k v rest)

  pub insert-IsAscending :
      (k : ℕ) (v : V) (slots : Slots V) → IsAscending slots → IsAscending (insert k v slots)
  insert-IsAscending k v [] a = tt
  insert-IsAscending k v ((j, w) ∷ rest) a = ground (arith, insert-IsAbove j k v rest)

  pub get_below : (k n : ℕ) (slots : Slots V) → k < suc n → IsAbove n slots → get k slots ≡ none
  get_below k n [] h a = refl
  get_below k n ((j, w) ∷ rest) h (b, a) = ground (arith, get_below k j rest)

  IsAbove-lower : (n j : ℕ) (slots : Slots V) → n < j → IsAbove j slots → IsAbove n slots
  IsAbove-lower n j [] h a = tt
  IsAbove-lower n j ((i, w) ∷ rest) h (b, a) = ground arith

  remove-IsAbove : (n k : ℕ) (slots : Slots V) → IsAbove n slots → IsAbove n (remove k slots)
  remove-IsAbove n k [] a = tt
  remove-IsAbove n k ((j, w) ∷ rest) (b, a) =
      ground (arith, IsAbove-lower n j rest b a, remove-IsAbove j k rest a)

  pub remove-IsAscending :
      (k : ℕ) (slots : Slots V) → IsAscending slots → IsAscending (remove k slots)
  remove-IsAscending k [] a = tt
  remove-IsAscending k ((j, w) ∷ []) a = ground arith
  remove-IsAscending k ((j, w) ∷ (i, v) ∷ rest) a =
      ground (arith, remove-IsAbove j k ((i, v) ∷ rest) a)

  pub get-remove : (k : ℕ) (slots : Slots V) → IsAscending slots → get k (remove k slots) ≡ none
  get-remove k [] a = refl
  get-remove k ((j, w) ∷ rest) a = ground (arith, get-remove k rest, get_below k j rest)

  pub get-remove_other : (k i : ℕ) (slots : Slots V) → k ≢ i → get k (remove i slots) ≡ get k slots
  get-remove_other k i [] d = refl
  get-remove_other k i ((j, w) ∷ rest) d = ground (arith, get-remove_other k i rest d)

  pub above-IsAscending : (n : ℕ) (slots : Slots V) → IsAbove n slots → IsAscending slots
  above-IsAscending n [] a = tt
  above-IsAscending n ((j, w) ∷ rest) (b, a) = a

  -- Each value stands under the slot that it names.
  abbrev pub IsKeyedBy : (V → ℕ) → Slots V → Type 0
  IsKeyedBy slot [] = Unit
  IsKeyedBy slot ((k, v) ∷ rest) = (slot v ≡ k) × IsKeyedBy slot rest

  pub insert-IsKeyedBy :
      (slot : V → ℕ) (v : V) (slots : Slots V)
      → IsKeyedBy slot slots
      → IsKeyedBy slot (insert (slot v) v slots)
  insert-IsKeyedBy slot v [] keyed = (refl, tt)
  insert-IsKeyedBy slot v ((k, w) ∷ rest) (e, keyed) =
      ground (arith, insert-IsKeyedBy slot v rest keyed)

  pub remove-IsKeyedBy :
      (slot : V → ℕ) (k : ℕ) (slots : Slots V)
      → IsKeyedBy slot slots
      → IsKeyedBy slot (remove k slots)
  remove-IsKeyedBy slot k [] keyed = tt
  remove-IsKeyedBy slot k ((j, w) ∷ rest) (e, keyed) =
      ground (arith, remove-IsKeyedBy slot k rest keyed)
