-- ===== src/Store/Certify.antt =====
-- The trigger `certify_history` of shared/schema/0010_official_contract_9.sql, which runs before a
-- coverage row is written.
pub mod Distinct
pub mod Walk
pub mod Chain
use bip300_monitor.Base.{
  ℕ, zero, suc, ◌+◌, ◌-◌, min, max, Bool, false, ◌&&◌, ◌||◌, Option, none, some, List, [], ◌∷◌,
  ◌++◌, Bytes, bytes_discrete, length, any, filter, contains, map, same, not, ltb, ◌==◌,
  if◌then◌else◌,
}
use bip300_monitor.Failure.{Result, ok, bail, or_bail, traverse, ◌>>=◌}
use bip300_monitor.Store.Types.{
  CoverageKey, coverage_key_discrete, FactKey, fact_key_discrete, fact_key, history_kind, complete,
  status_discrete,
}
use bip300_monitor.Store.Rows.{Row, Fact, CertifiedBlock, Db}

-- An entry of the recursive query's `path`.
pub record PathBlock : Type 0 where
  pub block_hash : Option Bytes
  pub previous_hash : Option Bytes
  pub height : Option ℕ
  pub is_certified : Bool

abbrev pub same_hash : Option Bytes → Option Bytes → Bool
same_hash (some a) (some b) = same bytes_discrete a b
same_hash _ _ = false

-- SQL's `<>`, which is not true of a null.
abbrev hash_differs : Option Bytes → Bytes → Bool
hash_differs (some a) b = not (same bytes_discrete a b)
hash_differs none b = false

abbrev height_differs : Option ℕ → ℕ → Bool
height_differs (some a) b = not (a == b)
height_differs none b = false

abbrev proves : CoverageKey → Option Bytes → CertifiedBlock → Bool
proves key hash c = same coverage_key_discrete c.key key && same_hash (some c.block_hash) hash

-- `EXISTS(SELECT 1 FROM history_certified_block c WHERE …)`.
unfoldable pub is_proved : CoverageKey → List CertifiedBlock → Option Bytes → Bool
is_proved key certified hash = any (proves key hash) certified

abbrev pub path_block : CoverageKey → List CertifiedBlock → Fact → PathBlock
path_block key certified f = record {
  block_hash = f.block_hash;
  previous_hash = f.previous_hash;
  height = f.height;
  is_certified = is_proved key certified f.block_hash;
}

unfoldable pub facts_with_hash : FactKey → Option Bytes → List Fact → List Fact
facts_with_hash key hash facts =
    filter (λ f. same fact_key_discrete f.key key && same_hash f.block_hash hash) facts

abbrev pub one_below : Option ℕ → Option ℕ → Bool
one_below (some parent) (some child) = suc parent == child
one_below _ _ = false

abbrev pub above : Option ℕ → ℕ → Bool
above (some height) start = ltb start height
above none start = false

module _ (key : CoverageKey) (facts_key : FactKey) (start : ℕ) (facts : List Fact)
    (certified : List CertifiedBlock) where
  -- The parents of one path entry: none beyond a certified block or the start of the coverage.
  pub parents : PathBlock → List PathBlock
  unfolding facts_with_hash is_proved
  parents p =
      if not p.is_certified && above p.height start
      then map (path_block key certified) (
          filter (λ f. one_below f.height p.height)
            (facts_with_hash facts_key p.previous_hash facts))
      else []

  pub parents_of : List PathBlock → List PathBlock
  parents_of [] = []
  parents_of (p ∷ ps) = parents p ++ parents_of ps

  -- The recursive query, one level of it in each round.
  pub walk : ℕ → List PathBlock → List PathBlock
  walk zero level = []
  walk (suc n) level = elim level [ [] ↦ [] | p ∷ ps ↦ (p ∷ ps) ++ walk n (parents_of (p ∷ ps)) ]

pub highest_fact : List Fact → ℕ
highest_fact [] = 0
highest_fact (f ∷ fs) = elim f.height [ none ↦ highest_fact fs | some h ↦ max h (highest_fact fs) ]

-- `path`. Each round goes one height down, so the greatest height in the table bounds the rounds.
unfoldable pub history_path : Db → Row → FactKey → List PathBlock
unfolding facts_with_hash is_proved parents parents_of walk highest_fact
history_path db r facts_key =
    walk r.key facts_key r.coverage_start_height db.facts db.certified (suc (highest_fact db.facts))
      (map (path_block r.key db.certified)
        (facts_with_hash facts_key (some r.target_tip_hash) db.facts))

pub distinct_hashes : List PathBlock → List Bytes
distinct_hashes [] = []
distinct_hashes (p ∷ ps) =
    let rest = distinct_hashes ps in
    elim p.block_hash [
      | none ↦ rest
      | some h ↦ if contains bytes_discrete rest h then rest else h ∷ rest
    ]

-- `min(height)` and `max(height)`.
pub height_range : List PathBlock → Option (ℕ × ℕ)
height_range [] = none
height_range (p ∷ ps) = elim p.height [
  | none ↦ height_range ps
  | some h ↦ elim (height_range ps) [
    | none ↦ some (h, h)
    | some (low, high) ↦ some (min h low, max h high)
  ]
]

-- Whether the walk found one chain from the target to a certified block or to the start.
unfoldable pub path_is_proof : Row → List PathBlock → Bool
unfolding distinct_hashes height_range
path_is_proof r path = elim (height_range path) [
  | none ↦ false
  | some (low, high) ↦
      length path == length (distinct_hashes path)
      && high == r.target_tip_height
      && (any (λ p. p.is_certified) path || low == r.coverage_start_height)
      && length path == high - low + 1
]

certified_block : CoverageKey → PathBlock → Result CertifiedBlock
certified_block key p = do
  hash ← or_bail p.block_hash "block_hash is null"
  previous ← or_bail p.previous_hash "previous_hash is null"
  height ← or_bail p.height "height is null"
  ok (record { key = key; block_hash = hash; previous_hash = previous; height = height })

-- The certified blocks after the trigger has run for the new row.
unfoldable pub certify_history : Db → Row → Result (List CertifiedBlock)
unfolding status_discrete history_kind history_path path_is_proof certified_block
certify_history db r = if not (same status_discrete r.status complete) then ok db.certified else do
  kind ← history_kind r.key.scope.stream
  let path = history_path db r (fact_key r.key kind)
  if hash_differs r.covered_tip_hash r.target_tip_hash
        || height_differs r.covered_tip_height r.target_tip_height
      then bail "coverage target differs from proven tip"
      else if not (path_is_proof r path)
      then bail "history is missing, discontinuous or ambiguous"
      else do
        proved ← traverse (certified_block r.key) (filter (λ p. not p.is_certified) path)
        ok (db.certified ++ proved)
