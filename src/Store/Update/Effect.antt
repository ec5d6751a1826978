-- ===== src/Store/Update/Effect.antt =====
-- What a statement that the database accepted has done to the tables.
use bip300_monitor.Base.{
  ℕ, ◌≡◌, Bool, true, List, [], ◌∷◌, All, filter, map, Bool-cases, inl, inr, arith,
}
use bip300_monitor.Failure.{ok, Result-cases}
use bip300_monitor.Store.Rows.{Row, CertifiedBlock, Db, row_is_allowed, update_rows, count_rows}
use bip300_monitor.Store.Certify.{certify_history}
use bip300_monitor.Store.Update.{admit_row, admit_rows, update_coverage}

-- The tables with other coverage rows and other certified blocks.
abbrev pub recorded : Db → List Row → List CertifiedBlock → Db
recorded db rows certified = record db { coverage = rows; certified = certified }

admit_row-ok :
    (r : Row) (db db' : Db)
    → admit_row r db ≡ ok db'
    → (db' ≡ recorded db db.coverage db'.certified) × (row_is_allowed r ≡ true)
unfolding admit_row
admit_row-ok r db db' e = elim (Result-cases (certify_history db r)) [
  | inl (c, q) ↦ (ground arith, ground arith)
  | inr (x, q) ↦ absurd (ground arith)
]

pub admit_rows-ok :
    (rs : List Row) (db db' : Db)
    → admit_rows rs db ≡ ok db'
    → (db' ≡ recorded db db.coverage db'.certified) × All (λ r. row_is_allowed r ≡ true) rs
unfolding admit_rows
admit_rows-ok [] db db' e = (ground arith, tt)
admit_rows-ok (r ∷ rs) db db' e = elim (Result-cases (admit_row r db)) [
  | inl (d, q) ↦
      let (p, a) = admit_row-ok r db d q in
      let (p', as_) = admit_rows-ok rs d db' (ground arith) in (cc, (a, as_))
  | inr (x, q) ↦ absurd (ground arith)
]

pub update_coverage-ok :
    (p : Row → Bool) (f : Row → Row) (db db' : Db) (n : ℕ)
    → update_coverage p f db ≡ ok (db', n)
    → (db' ≡ recorded db (update_rows p f db.coverage) db'.certified)
      × (n ≡ count_rows p db.coverage)
      × All (λ r. row_is_allowed r ≡ true) (map f (filter p db.coverage))
unfolding update_coverage
update_coverage-ok p f db db' n e =
    elim (Result-cases (admit_rows (map f (filter p db.coverage)) db)) [
      | inl (d, q) ↦ let (w, a) = admit_rows-ok _ db d q in (ground arith, ground arith, a)
      | inr (x, q) ↦ absurd (ground arith)
    ]

-- The constraints hold of the rows that were written, and still hold of the others.
pub All-allowed_update :
    (Q : Row → Type 0) (p : Row → Bool) (f : Row → Row) (rows : List Row)
    → All (λ r. row_is_allowed r ≡ true) (map f (filter p rows))
    → ((r : Row) → p r ≡ true → Q r → row_is_allowed (f r) ≡ true → Q (f r))
    → All Q rows
    → All Q (update_rows p f rows)
unfolding update_rows
All-allowed_update Q p f [] m keep a = tt
All-allowed_update Q p f (r ∷ rs) m keep a = elim (Bool-cases (p r)) [
  | inl e ↦
      let m' : All (λ x. row_is_allowed x ≡ true) (map f (r ∷ filter p rs)) = rw e at m in
      rw e (keep r e a.0 m'.0, All-allowed_update Q p f rs m'.1 keep a.1)
  | inr e ↦
      let m' : All (λ x. row_is_allowed x ≡ true) (map f (filter p rs)) = rw e at m in
      rw e (a.0, All-allowed_update Q p f rs m' keep a.1)
]
