-- ===== src/Store/Invariant.antt =====
-- The invariant of the coverage table of shared/src/store.rs: one row for each scope, the constraints
-- of the schema, and a completed row that covers its target.
pub mod Cursor
pub mod Single
pub mod Floor
pub mod Begun
pub mod Page
pub mod Settle
use bip300_monitor.Base.{
  ℕ, zero, suc, ◌+◌, ◌≤◌, ◌≡◌, refl, String, ◌==◌, Bool, true, false, Option, none, some, List, [],
  ◌∷◌, ◌++◌, All, map, filter, Bool-cases, inl, inr, arith, if◌then◌else◌,
}
use bip300_monitor.Failure.{Error, Result, ok, err, Result-cases, ◌>>=◌, ◌>>◌}
use bip300_monitor.Store.Types.{CoverageKey, HistoryStatus, complete}
use bip300_monitor.Store.Rows.{Row, Db, row_is_allowed, has_key, find_row, update_rows, count_rows}
use bip300_monitor.Store.Rows.Frame.{
  Touches, count_rows-update, count_rows-append, count_rows-find_none, All-append, All-find_row,
}
use bip300_monitor.Store.Update.{commit, update_coverage, admit_rows, required_one}
use bip300_monitor.Store.Update.Effect.{
  recorded, admit_rows-ok, update_coverage-ok, All-allowed_update,
}

abbrev pub Covers : Row → Type 0
Covers r =
    r.status ≡ complete
    → (r.covered_tip_hash ≡ some r.target_tip_hash)
      × (r.covered_tip_height ≡ some r.target_tip_height)

pub record IsSound (r : Row) : Type 0 where
  pub allowed : row_is_allowed r ≡ true
  pub covers : Covers r

pub record IsConsistent (db : Db) : Type 0 where
  pub rows : All IsSound db.coverage
  pub unique : (k : CoverageKey) → count_rows (has_key k) db.coverage ≤ 1

-- What holds of the tables that a step hands on, if it succeeds.
abbrev pub OkDb : {A : Type 0} → (Db → Type 0) → Result (A × Db) → Type 0
OkDb Q (ok (a, db)) = Q db
OkDb Q (err e) = Unit

pub OkDb-bind :
    {A B : Type 0} (Q : Db → Type 0) (r : Result A) (f : A → Result (B × Db))
    → ((a : A) → r ≡ ok a → OkDb Q (f a))
    → OkDb Q (r >>= f)
OkDb-bind Q (ok a) f h = h a refl
OkDb-bind Q (err e) f h = tt

pub OkDb-commit :
    {A : Type 0} (Q : Db → Type 0) (db : Db) (r : Result (A × Db))
    → Q db
    → OkDb Q r
    → Q (commit db r).1
OkDb-commit Q db (ok (a, d)) q h = h
OkDb-commit Q db (err e) q h = q

pub OkDb-required_one :
    {A : Type 0} (Q : Db → Type 0) (a : A) (text : String) (u : Db × ℕ)
    → Q u.0
    → OkDb Q (required_one a text u)
OkDb-required_one Q a text (d, n) q = elim (Bool-cases (n == 1)) [
  | inl e ↦ rw e q
  | inr e ↦ rw e tt
]

module _ (key : CoverageKey) (p : Row → Bool) (f : Row → Row) where
  -- An update that is held to one key and keeps `Covers` keeps the invariant.
  pub update_coverage-IsConsistent :
      (db db' : Db) (n : ℕ)
      → Touches key p f
      → ((r : Row) → p r ≡ true → IsSound r → Covers (f r))
      → IsConsistent db
      → update_coverage p f db ≡ ok (db', n)
      → IsConsistent db'
  update_coverage-IsConsistent db db' n t keep c e =
      let (w, m, a) = update_coverage-ok p f db db' n e in
      rw w (record {
        rows =
            All-allowed_update IsSound p f db.coverage a
              (λ r h s x. record { allowed = x; covers = keep r h s }) c.rows;
        unique = λ k. rw (count_rows-update key p f t k db.coverage) (c.unique k);
      })

insert_unique :
    (rows : List Row) (r : Row) (k : CoverageKey)
    → find_row r.key rows ≡ none
    → count_rows (has_key k) rows ≤ 1
    → count_rows (has_key k) (rows ++ r ∷ []) ≤ 1
unfolding count_rows
insert_unique rows r k e c = ground (arith, count_rows-append k rows r, count_rows-find_none k rows)

-- The rest of a transaction after such an update.
pub OkDb-update :
    {A : Type 0} (key : CoverageKey) (p : Row → Bool) (f : Row → Row) (db : Db)
    (g : Db × ℕ → Result (A × Db))
    → Touches key p f
    → ((r : Row) → p r ≡ true → IsSound r → Covers (f r))
    → IsConsistent db
    → ((u : Db × ℕ) → IsConsistent u.0 → OkDb IsConsistent (g u))
    → OkDb IsConsistent (update_coverage p f db >>= g)
OkDb-update key p f db g t keep c h =
    OkDb-bind IsConsistent (update_coverage p f db) g
      λ u e. h u (update_coverage-IsConsistent key p f db u.0 u.1 t keep c e)

-- A row at a key that the table does not hold may be added.
pub insert-IsConsistent :
    (db : Db) (r : Row)
    → find_row r.key db.coverage ≡ none
    → IsSound r
    → IsConsistent db
    → IsConsistent (record db { coverage = db.coverage ++ r ∷ [] })
insert-IsConsistent db r e s c = record {
  rows = All-append IsSound db.coverage r c.rows s;
  unique = λ k. insert_unique db.coverage r k e (c.unique k);
}
