-- ===== src/Store/Rows/Frame.antt =====
-- What an `UPDATE` that is held to one key does to the rows of the table.
use bip300_monitor.Base.{
  ◌+◌, ◌≤◌, ◌≡◌, ◌≢◌, refl, Bool, true, none, some, List, [], ◌∷◌, ◌++◌, All, Bool-cases, inl, inr,
  arith,
}
use bip300_monitor.Store.Types.{CoverageKey}
use bip300_monitor.Store.Rows.{Row, has_key, find_row, update_rows, count_rows}

-- The update writes only rows of the key, and leaves them at the key.
abbrev pub Touches : CoverageKey → (Row → Bool) → (Row → Row) → Type 0
Touches key p f = (r : Row) → p r ≡ true → (r.key ≡ key) × ((f r).key ≡ key)

module _ (key : CoverageKey) (p : Row → Bool) (f : Row → Row) (t : Touches key p f) where
  pub find_row-update_ne :
      (k : CoverageKey) (rows : List Row)
      → k ≢ key
      → find_row k (update_rows p f rows) ≡ find_row k rows
  unfolding find_row update_rows
  find_row-update_ne k [] ne = refl
  find_row-update_ne k (r ∷ rs) ne = ground (arith, t r, find_row-update_ne k rs ne)

  pub count_rows-update :
      (k : CoverageKey) (rows : List Row)
      → count_rows (has_key k) (update_rows p f rows) ≡ count_rows (has_key k) rows
  unfolding count_rows update_rows
  count_rows-update k [] = refl
  count_rows-update k (r ∷ rs) = ground (arith, t r, count_rows-update k rs)

  -- Where the update's test passes on the row of the key, that row is replaced.
  pub find_row-update_self :
      (r : Row) (rows : List Row)
      → find_row key rows ≡ some r
      → p r ≡ true
      → find_row key (update_rows p f rows) ≡ some (f r)
  unfolding find_row update_rows
  find_row-update_self r [] e h = absurd (ground arith)
  find_row-update_self r (x ∷ xs) e h = ground (arith, t x, t r, find_row-update_self r xs)

pub count_rows-append :
    (k : CoverageKey) (rows : List Row) (r : Row)
    → count_rows (has_key k) (rows ++ r ∷ [])
      ≡ count_rows (has_key k) rows + count_rows (has_key k) (r ∷ [])
unfolding count_rows
count_rows-append k [] r = ground arith
count_rows-append k (x ∷ xs) r = ground (arith, count_rows-append k xs r)

pub count_rows-find_none :
    (k : CoverageKey) (rows : List Row) → find_row k rows ≡ none → count_rows (has_key k) rows ≡ 0
unfolding count_rows find_row
count_rows-find_none k [] e = refl
count_rows-find_none k (x ∷ xs) e = ground (arith, count_rows-find_none k xs)

pub find_row-append_ne :
    (k : CoverageKey) (rows : List Row) (r : Row)
    → k ≢ r.key
    → find_row k (rows ++ r ∷ []) ≡ find_row k rows
unfolding find_row
find_row-append_ne k [] r ne = ground arith
find_row-append_ne k (x ∷ xs) r ne = ground (arith, find_row-append_ne k xs r ne)

pub find_row-append_self :
    (rows : List Row) (r : Row)
    → find_row r.key rows ≡ none
    → find_row r.key (rows ++ r ∷ []) ≡ some r
unfolding find_row
find_row-append_self [] r e = ground arith
find_row-append_self (x ∷ xs) r e = ground (arith, find_row-append_self xs r)

pub find_row-key :
    (k : CoverageKey) (rows : List Row) (r : Row) → find_row k rows ≡ some r → r.key ≡ k
unfolding find_row
find_row-key k [] r e = absurd (ground arith)
find_row-key k (x ∷ xs) r e = ground (arith, find_row-key k xs r)

-- A predicate of every row is kept where the update keeps it on the rows that it writes.
pub All-update_rows :
    (Q : Row → Type 0) (p : Row → Bool) (f : Row → Row) (rows : List Row)
    → ((r : Row) → p r ≡ true → Q r → Q (f r))
    → All Q rows
    → All Q (update_rows p f rows)
unfolding update_rows
All-update_rows Q p f [] keep a = tt
All-update_rows Q p f (r ∷ rs) keep a = elim (Bool-cases (p r)) [
  | inl e ↦ rw e (keep r e a.0, All-update_rows Q p f rs keep a.1)
  | inr e ↦ rw e (a.0, All-update_rows Q p f rs keep a.1)
]

pub All-append :
    (Q : Row → Type 0) (rows : List Row) (r : Row) → All Q rows → Q r → All Q (rows ++ r ∷ [])
All-append Q [] r a q = (q, tt)
All-append Q (x ∷ xs) r a q = (a.0, All-append Q xs r a.1 q)

pub All-find_row :
    (Q : Row → Type 0) (k : CoverageKey) (rows : List Row) (r : Row)
    → All Q rows
    → find_row k rows ≡ some r
    → Q r
unfolding find_row
All-find_row Q k [] r a e = absurd (ground arith)
All-find_row Q k (x ∷ xs) r a e = elim (Bool-cases (has_key k x)) [
  | inl h ↦ let p : x ≡ r = ground arith in rw p at a.0
  | inr h ↦ All-find_row Q k xs r a.1 (ground arith)
]

pub count_rows_mono :
    (p q : Row → Bool) (rows : List Row)
    → ((r : Row) → p r ≡ true → q r ≡ true)
    → count_rows p rows ≤ count_rows q rows
unfolding count_rows
count_rows_mono p q [] h = omega arith
count_rows_mono p q (r ∷ rs) h = ground (arith, h r, count_rows_mono p q rs)

-- Where a key stands once, an update that wrote one row wrote the row that is found there.
pub find_row-of_count :
    (key : CoverageKey) (p : Row → Bool) (rows : List Row)
    → ((r : Row) → p r ≡ true → has_key key r ≡ true)
    → count_rows (has_key key) rows ≤ 1
    → count_rows p rows ≡ 1
    → (r : Row) × (find_row key rows ≡ some r) × (p r ≡ true)
unfolding find_row count_rows
find_row-of_count key p [] h u n = absurd (omega arith)
find_row-of_count key p (r ∷ rs) h u n = elim (Bool-cases (p r)) [
  | inl e ↦ (r, ground (arith, h r), e)
  | inr e ↦
      let (x, w, z) =
        find_row-of_count key p rs h (ground (arith, count_rows_mono p (has_key key) rs h))
          (ground arith) in
      (x, ground (arith, count_rows_mono p (has_key key) rs h), z)
]
