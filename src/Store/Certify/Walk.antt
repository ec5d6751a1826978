-- ===== src/Store/Certify/Walk.antt =====
-- The levels of the recursive query of the trigger `certify_history`.
use bip300_monitor.Base.{
  ℕ, zero, suc, ◌≤◌, ◌≡◌, refl, ap, true, false, ◌&&◌, not, Bool-cases, Option, none, some, List,
  [], ◌∷◌, ◌++◌, Bytes, All, map, filter, inl, inr, arith, same,
}
use bip300_monitor.Store.Types.{CoverageKey, FactKey, fact_key_discrete}
use bip300_monitor.Store.Rows.{Fact, CertifiedBlock}
use bip300_monitor.Store.Certify.{
  PathBlock, same_hash, facts_with_hash, path_block, one_below, above, parents, parents_of, walk,
}
use bip300_monitor.Store.Certify.Distinct.{IsDistinct, tail-IsDistinct, repeated-IsDistinct}

-- `q` is the parent of `p`, one height down, and `p` was not certified yet nor at the start.
abbrev pub Link : ℕ → PathBlock → PathBlock → Type 0
Link start p q =
    (p.is_certified ≡ false)
    × ((height : ℕ) × (p.height ≡ some (suc height)) × (q.height ≡ some height) × (start ≤ height))
    × ((parent : Bytes) × (p.previous_hash ≡ some parent) × (q.block_hash ≡ some parent))

abbrev pub Linked : ℕ → PathBlock → List PathBlock → Type 0
Linked start p [] = Unit
Linked start p (q ∷ qs) = Link start p q × Linked start q qs

-- The entries that the query reads for one hash.
abbrev pub HasHash : Bytes → PathBlock → Type 0
HasHash h p = p.block_hash ≡ some h

pub same_hash-some : (a : Option Bytes) (h : Bytes) → same_hash a (some h) ≡ true → a ≡ some h
same_hash-some none h e = absurd (ground arith)
same_hash-some (some b) h e = ground arith

link_heights :
    (start : ℕ) (child parent : Option ℕ)
    → above child start ≡ true
    → one_below parent child ≡ true
    → (height : ℕ) × (child ≡ some (suc height)) × (parent ≡ some height) × (start ≤ height)
link_heights start none parent a o = absurd (ground arith)
link_heights start (some c) none a o = absurd (ground arith)
link_heights start (some c) (some h) a o = (h, ap some (ground arith), refl, ground arith)

link_hashes :
    (child parent : Option Bytes)
    → same_hash parent child ≡ true
    → (hash : Bytes) × (child ≡ some hash) × (parent ≡ some hash)
link_hashes none none e = absurd (ground arith)
link_hashes none (some p) e = absurd (ground arith)
link_hashes (some c) parent e = (c, refl, same_hash-some parent c e)

module _ (key : CoverageKey) (facts_key : FactKey) (start : ℕ)
    (certified : List CertifiedBlock) where
  pub found-HasHash :
      (h : Bytes) (facts : List Fact)
      → All (HasHash h) (map (path_block key certified) (facts_with_hash facts_key (some h) facts))
  unfolding facts_with_hash
  found-HasHash h [] = tt
  found-HasHash h (f ∷ fs) =
      elim (Bool-cases
        (same fact_key_discrete f.key facts_key && same_hash f.block_hash (some h))) [
          | inl e ↦ rw e (same_hash-some f.block_hash h (ground arith), found-HasHash h fs)
          | inr e ↦ rw e (found-HasHash h fs)
        ]

  below-Link :
      (p : PathBlock) (facts : List Fact)
      → (not p.is_certified && above p.height start) ≡ true
      → All (Link start p) (
          map (path_block key certified) (
            filter
              (λ f. one_below f.height p.height)
              (facts_with_hash facts_key p.previous_hash facts)))
  unfolding facts_with_hash
  below-Link p [] a = tt
  below-Link p (f ∷ fs) a =
      elim (Bool-cases
        (same fact_key_discrete f.key facts_key && same_hash f.block_hash p.previous_hash)) [
          | inr e ↦ rw e (below-Link p fs a)
          | inl e ↦ elim (Bool-cases (one_below f.height p.height)) [
            | inr o ↦ rw (e, o) (below-Link p fs a)
            | inl o ↦
                rw (e, o)
                  (
                    (
                      ground arith,
                      link_heights start p.height f.height (ground arith) o,
                      link_hashes p.previous_hash f.block_hash (ground arith),
                    ),
                    below-Link p fs a,
                  )
          ]
        ]

  parents-Link :
      (facts : List Fact) (p : PathBlock)
      → All (Link start p) (parents key facts_key start facts certified p)
  unfolding parents
  parents-Link facts p = elim (Bool-cases (not p.is_certified && above p.height start)) [
    | inl e ↦ rw e (below-Link p facts e)
    | inr e ↦ rw e tt
  ]

  -- A level of the query whose entries have one hash is a single entry, where the whole path is
  -- distinct.
  pub single_level :
      (facts : List Fact) (n : ℕ) (p : PathBlock) (ps : List PathBlock) (h : Bytes)
      → All (HasHash h) (p ∷ ps)
      → IsDistinct (walk key facts_key start facts certified (suc n) (p ∷ ps))
      → ps ≡ []
  unfolding walk
  single_level facts n p [] h a d = refl
  single_level facts n p (q ∷ qs) h a d = absurd (repeated-IsDistinct p q _ h a.0 a.1.0 d)

  parents-HasHash :
      (p : PathBlock) (h : Bytes) (qs : List PathBlock)
      → p.previous_hash ≡ some h
      → All (Link start p) qs
      → All (HasHash h) qs
  parents-HasHash p h [] e a = tt
  parents-HasHash p h (q ∷ qs) e a =
      let (parent, e1, e2) = a.0.2 in (cc (e, e1, e2), parents-HasHash p h qs e a.1)

  All-nil : (Q : PathBlock → Type 0) (ps : List PathBlock) → All Q ps → All Q (ps ++ [])
  All-nil Q [] a = tt
  All-nil Q (p ∷ ps) a = (a.0, All-nil Q ps a.1)

  next_level :
      (facts : List Fact) (n : ℕ) (p : PathBlock) (qs : List PathBlock)
      → All (Link start p) qs
      → IsDistinct (p ∷ walk key facts_key start facts certified (suc n) qs)
      → ((q : PathBlock)
          → IsDistinct (walk key facts_key start facts certified (suc n) (q ∷ []))
          → (rest : List PathBlock) × (walk key facts_key start facts certified (suc n) (q ∷ [])
              ≡ q ∷ rest)
            × Linked start q rest)
      → (rest : List PathBlock) × (p ∷ walk key facts_key start facts certified (suc n) qs
          ≡ p ∷ rest)
        × Linked start p rest
  unfolding walk
  next_level facts n p [] a d rec = ([], refl, tt)
  next_level facts n p (q ∷ qs) a d rec =
      let d' = tail-IsDistinct p (walk key facts_key start facts certified (suc n) (q ∷ qs)) d in
      let single =
        single_level facts n q qs a.0.2.0 (parents-HasHash p a.0.2.0 (q ∷ qs) a.0.2.1 a) d' in
      let (rest, w, l) = rec q (rw single at d') in
      (q ∷ rest, rw single (ap (λ x. p ∷ x) w), (a.0, l))

  pub walk-Linked :
      (facts : List Fact) (n : ℕ) (p : PathBlock)
      → IsDistinct (walk key facts_key start facts certified (suc n) (p ∷ []))
      → (rest : List PathBlock) × (walk key facts_key start facts certified (suc n) (p ∷ [])
          ≡ p ∷ rest)
        × Linked start p rest
  unfolding walk parents_of
  walk-Linked facts zero p d = ([], refl, tt)
  walk-Linked facts (suc n) p d =
      next_level facts n p (parents key facts_key start facts certified p ++ [])
        (All-nil (Link start p) _ (parents-Link facts p)) d (λ q d'. walk-Linked facts n q d')
