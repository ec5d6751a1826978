-- ===== src/Store/Certify/Distinct.antt =====
-- How the trigger `certify_history` counts the hashes of its path.
use bip300_monitor.Base.{
  ◌≤◌, ◌≡◌, refl, ap, true, Bool-cases, some, List, [], ◌∷◌, Bytes, bytes_discrete, contains,
  length, inl, inr, arith,
}
use bip300_monitor.Store.Certify.{PathBlock, distinct_hashes}

-- No two entries have one hash, as the trigger counts them.
abbrev pub IsDistinct : List PathBlock → Type 0
IsDistinct ps = length ps ≡ length (distinct_hashes ps)

length-distinct_hashes : (ps : List PathBlock) → length (distinct_hashes ps) ≤ length ps
unfolding distinct_hashes
length-distinct_hashes [] = omega arith
length-distinct_hashes (p ∷ ps) = ground (arith, length-distinct_hashes ps)

pub tail-IsDistinct : (p : PathBlock) (ps : List PathBlock) → IsDistinct (p ∷ ps) → IsDistinct ps
unfolding distinct_hashes
tail-IsDistinct p ps d = ground (arith, length-distinct_hashes ps)

contains-distinct_hashes :
    (p : PathBlock) (ps : List PathBlock) (h : Bytes)
    → p.block_hash ≡ some h
    → contains bytes_discrete (distinct_hashes (p ∷ ps)) h ≡ true
unfolding distinct_hashes
contains-distinct_hashes p ps h e =
    elim (Bool-cases (contains bytes_discrete (distinct_hashes ps) h)) [
      | inl c ↦ rw (e, c) c
      | inr c ↦ rw (e, c) (ground arith)
    ]

known-distinct_hashes :
    (p : PathBlock) (ps : List PathBlock) (h : Bytes)
    → p.block_hash ≡ some h
    → contains bytes_discrete (distinct_hashes ps) h ≡ true
    → distinct_hashes (p ∷ ps) ≡ distinct_hashes ps
unfolding distinct_hashes
known-distinct_hashes p ps h e c = rw (e, c) refl

-- Two neighbours with one hash are counted once.
pub repeated-IsDistinct :
    (p q : PathBlock) (ps : List PathBlock) (h : Bytes)
    → p.block_hash ≡ some h
    → q.block_hash ≡ some h
    → ¬ IsDistinct (p ∷ q ∷ ps)
repeated-IsDistinct p q ps h e e' d =
    let same = known-distinct_hashes p (q ∷ ps) h e (contains-distinct_hashes q ps h e') in
    omega (arith, d, ap length same, length-distinct_hashes (q ∷ ps))
