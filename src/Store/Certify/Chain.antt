-- ===== src/Store/Certify/Chain.antt =====
-- The chain of facts that the trigger `certify_history` looks for, from the target of a completed row
-- down to a certified block or to the start of the coverage.
use bip300_monitor.Base.{
  ℕ, suc, ◌≤◌, ◌≡◌, ◌⊎◌, refl, true, Bool-cases, Option-cases, String, none, some, List, [], ◌∷◌,
  All, any, last_or, min, max, inl, inr, arith,
}
use bip300_monitor.Failure.{ok, Result-cases}
use bip300_monitor.Store.Types.{CoverageKey, FactKey, fact_key, history_kind, complete}
use bip300_monitor.Store.Rows.{Row, Fact, CertifiedBlock, Db}
use bip300_monitor.Store.Certify.{
  PathBlock, walk, history_path, height_range, path_is_proof, certify_history,
}
use bip300_monitor.Store.Certify.Distinct.{IsDistinct}
use bip300_monitor.Store.Certify.Walk.{Linked, HasHash, found-HasHash, single_level, walk-Linked}

last_certified :
    (start : ℕ) (p : PathBlock) (rest : List PathBlock)
    → Linked start p rest
    → any (λ q. q.is_certified) (p ∷ rest) ≡ true
    → (last_or p rest).is_certified ≡ true
last_certified start p [] l e = ground arith
last_certified start p (q ∷ qs) l e = last_certified start q qs l.1 (ground (arith, l.0.0))

height_range_one : (p : PathBlock) (x : ℕ) → p.height ≡ some x → height_range (p ∷ []) ≡ some (x, x)
unfolding height_range
height_range_one p x e = rw e refl

height_range-cons :
    (p : PathBlock) (ps : List PathBlock) (x low high : ℕ)
    → p.height ≡ some x
    → height_range ps ≡ some (low, high)
    → height_range (p ∷ ps) ≡ some (min x low, max x high)
unfolding height_range
height_range-cons p ps x low high e r = rw (e, r) refl

-- The heights go down to the last entry.
height_range-Linked :
    (start : ℕ) (p : PathBlock) (rest : List PathBlock) (high : ℕ)
    → Linked start p rest
    → p.height ≡ some high
    → (low : ℕ) × (height_range (p ∷ rest) ≡ some (low, high))
      × ((last_or p rest).height ≡ some low)
      × (low ≤ high)
height_range-Linked start p [] high l e = (high, height_range_one p high e, e, omega arith)
height_range-Linked start p (q ∷ qs) high l e =
    let (h, e1, e2, b) = l.0.1 in
    let (low, r, z, c) = height_range-Linked start q qs h l.1 e2 in
    (low, ground (arith, height_range-cons p (q ∷ qs) (suc h) low h e1 r), z, ground arith)

height_range-none :
    (start : ℕ) (p : PathBlock) (rest : List PathBlock)
    → Linked start p rest
    → p.height ≡ none
    → height_range (p ∷ rest) ≡ none
unfolding height_range
height_range-none start p [] l e = rw e refl
height_range-none start p (q ∷ qs) l e = let (h, e1, e2, b) = l.0.1 in absurd (ground arith)

-- What the check on the path has compared.
path_is_proof-ok :
    (r : Row) (ps : List PathBlock)
    → path_is_proof r ps ≡ true
    → (low high : ℕ) × (height_range ps ≡ some (low, high))
      × IsDistinct ps
      × (high ≡ r.target_tip_height)
      × ((any (λ p. p.is_certified) ps ≡ true) ⊎ (low ≡ r.coverage_start_height))
unfolding path_is_proof
path_is_proof-ok r ps e = elim (Option-cases (height_range ps)) [
  | inl n ↦ absurd (ground arith)
  | inr ((low, high), h) ↦ (
    low,
    high,
    h,
    ground arith,
    ground arith,
    elim (Bool-cases (any (λ p. p.is_certified) ps)) [ inl c ↦ inl c | inr c ↦ inr (ground arith) ],
  )
]

certify_parts :
    (db : Db) (r : Row) (certified : List CertifiedBlock)
    → r.status ≡ complete
    → certify_history db r ≡ ok certified
    → (kind : String) × (history_kind r.key.scope.stream ≡ ok kind)
      × (path_is_proof r (history_path db r (fact_key r.key kind)) ≡ true)
unfolding certify_history
certify_parts db r certified s e = elim (Result-cases (history_kind r.key.scope.stream)) [
  | inr (x, q) ↦ absurd (ground arith)
  | inl (kind, q) ↦ (kind, q, ground arith)
]

-- The path from the target, and where it ends.
abbrev pub IsProof : Row → List PathBlock → Type 0
IsProof r [] = ⊥
IsProof r (p ∷ ps) =
    (p.block_hash ≡ some r.target_tip_hash)
    × (p.height ≡ some r.target_tip_height)
    × Linked r.coverage_start_height p ps
    × (((last_or p ps).is_certified ≡ true)
        ⊎ ((last_or p ps).height ≡ some r.coverage_start_height))

IsProof-ends :
    (r : Row) (p : PathBlock) (ps : List PathBlock) (low high : ℕ)
    → p.block_hash ≡ some r.target_tip_hash
    → Linked r.coverage_start_height p ps
    → height_range (p ∷ ps) ≡ some (low, high)
    → high ≡ r.target_tip_height
    → (any (λ q. q.is_certified) (p ∷ ps) ≡ true) ⊎ (low ≡ r.coverage_start_height)
    → IsProof r (p ∷ ps)
IsProof-ends r p ps low high e l h t end = elim (Option-cases p.height) [
  | inl n ↦ absurd (ground (arith, height_range-none r.coverage_start_height p ps l n))
  | inr (x, q) ↦
      let (low', h', z, b) = height_range-Linked r.coverage_start_height p ps x l q in
      (
        e,
        ground arith,
        l,
        elim end [
          | inl c ↦ inl (last_certified r.coverage_start_height p ps l c)
          | inr c ↦ inr (ground arith)
        ],
      )
]

empty_is_no_proof : (r : Row) → ¬ (path_is_proof r [] ≡ true)
unfolding path_is_proof height_range
empty_is_no_proof r e = absurd (ground arith)

walk_nil :
    (key : CoverageKey) (facts_key : FactKey) (start : ℕ) (facts : List Fact)
    (certified : List CertifiedBlock) (n : ℕ)
    → walk key facts_key start facts certified (suc n) [] ≡ []
unfolding walk
walk_nil key facts_key start facts certified n = refl

walk-IsProof :
    (r : Row) (facts_key : FactKey) (facts : List Fact) (certified : List CertifiedBlock) (n : ℕ)
    (level : List PathBlock)
    → All (HasHash r.target_tip_hash) level
    → path_is_proof r (walk r.key facts_key r.coverage_start_height facts certified (suc n) level)
      ≡ true
    → IsProof r (walk r.key facts_key r.coverage_start_height facts certified (suc n) level)
walk-IsProof r facts_key facts certified n [] a e = absurd (
    empty_is_no_proof r
      (rw (walk_nil r.key facts_key r.coverage_start_height facts certified n) at e))
walk-IsProof r facts_key facts certified n (p ∷ q ∷ qs) a e =
    let start = r.coverage_start_height in
    let (low, high, h, d, t, end) =
      path_is_proof-ok r (walk r.key facts_key start facts certified (suc n) (p ∷ q ∷ qs)) e in
    let single =
      single_level r.key facts_key start certified facts n p (q ∷ qs) r.target_tip_hash a d in
    absurd (ground arith)
walk-IsProof r facts_key facts certified n (p ∷ []) a e =
    let start = r.coverage_start_height in
    let (low, high, h, d, t, end) =
      path_is_proof-ok r (walk r.key facts_key start facts certified (suc n) (p ∷ [])) e in
    let (rest, w, l) = walk-Linked r.key facts_key start certified facts n p d in
    rw w (IsProof-ends r p rest low high a.0 l (rw w at h) t (rw w at end))

-- The facts of the tables hold such a path, for the event kind of the row's stream.
abbrev pub IsProved : Db → Row → Type 0
IsProved db r =
    (kind : String) × (history_kind r.key.scope.stream ≡ ok kind)
    × IsProof r (history_path db r (fact_key r.key kind))

-- Where the trigger lets a completed row through, the facts of its stream hold one chain: it starts at
-- the target's hash and height, each next entry is the parent of the one before it at one height less,
-- no entry but the last was certified before, and the last was certified before or stands at the start
-- of the coverage.
pub certify_history-IsProved :
    (db : Db) (r : Row) (certified : List CertifiedBlock)
    → r.status ≡ complete
    → certify_history db r ≡ ok certified
    → IsProved db r
unfolding history_path
certify_history-IsProved db r certified s e =
    let (kind, q, c) = certify_parts db r certified s e in
    (
      kind,
      q,
      walk-IsProof r (fact_key r.key kind) db.facts db.certified _ _
          (found-HasHash r.key (fact_key r.key kind) r.coverage_start_height db.certified
            r.target_tip_hash db.facts)
          c,
    )

-- The path depends on the facts and the certified blocks alone.
pub IsProved-cong :
    (a b : Db) (r : Row)
    → a.facts ≡ b.facts
    → a.certified ≡ b.certified
    → IsProved a r
    → IsProved b r
unfolding history_path
IsProved-cong a b r e e' (kind, q, c) = (kind, q, rw (← e, ← e') c)
