-- ===== src/Store/Update/Proved.antt =====
-- The trigger `certify_history` on the rows that an accepted `UPDATE` of `history_coverage` wrote.
use bip300_monitor.Base.{
  ℕ, ◌≡◌, Bool, true, some, List, [], ◌∷◌, filter, map, Bool-cases, inl, inr, arith,
}
use bip300_monitor.Failure.{ok, Result-cases}
use bip300_monitor.Store.Types.{CoverageKey, complete}
use bip300_monitor.Store.Rows.{Row, CertifiedBlock, Db, has_key, find_row}
use bip300_monitor.Store.Certify.{certify_history}
use bip300_monitor.Store.Certify.Chain.{IsProved, certify_history-IsProved}
use bip300_monitor.Store.Update.{admit_row, admit_rows, update_coverage}

admitted_first :
    (r : Row) (rs : List Row) (db after : Db)
    → admit_rows (r ∷ rs) db ≡ ok after
    → (c : List CertifiedBlock) × (certify_history db r ≡ ok c)
unfolding admit_rows admit_row
admitted_first r rs db after e = elim (Result-cases (certify_history db r)) [
  | inl (c, q) ↦ (c, q)
  | inr (x, q) ↦ absurd (ground arith)
]

module _ (key : CoverageKey) (p : Row → Bool) (f : Row → Row) where
  certified_first :
      (r : Row) (rows : List Row) (db after : Db)
      → ((x : Row) → p x ≡ true → has_key key x ≡ true)
      → find_row key rows ≡ some r
      → p r ≡ true
      → admit_rows (map f (filter p rows)) db ≡ ok after
      → (c : List CertifiedBlock) × (certify_history db (f r) ≡ ok c)
  unfolding find_row
  certified_first r [] db after k q h e = absurd (ground arith)
  certified_first r (x ∷ xs) db after k q h e = elim (Bool-cases (p x)) [
    | inl t ↦
        let same : x ≡ r = ground (arith, k x t) in
        rw same at (admitted_first (f x) (map f (filter p xs)) db after (rw t at e))
    | inr t ↦ certified_first r xs db after k (ground (arith, k x)) h (rw t at e)
  ]

  -- The row that an update completed is proved by the facts that the update found.
  pub update_coverage-IsProved :
      (r : Row) (db : Db) (after : Db × ℕ)
      → ((x : Row) → p x ≡ true → has_key key x ≡ true)
      → find_row key db.coverage ≡ some r
      → p r ≡ true
      → update_coverage p f db ≡ ok after
      → (f r).status ≡ complete
      → IsProved db (f r)
  unfolding update_coverage
  update_coverage-IsProved r db after k q h e s =
      elim (Result-cases (admit_rows (map f (filter p db.coverage)) db)) [
        | inr (x, z) ↦ absurd (ground arith)
        | inl (d, z) ↦
            let (c, w) = certified_first r db.coverage db d k q h z in
            certify_history-IsProved db (f r) c s w
      ]
