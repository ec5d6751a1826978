-- ===== src/Store/Invariant/Cursor.antt =====
-- The invariant of the coverage table through the operations on a cursor of shared/src/store.rs.
use bip300_monitor.Base.{
  ℕ, ◌≡◌, refl, Option, none, some, [], ◌∷◌, ◌++◌, String, Bytes, inl, inr, arith,
}
use bip300_monitor.Failure.{ok, Result-cases, or_bail}
use bip300_monitor.Proto.{ObservedBlock}
use bip300_monitor.Store.Types.{
  Store, ScopeKey, CoverageKey, coverage_key, running, validate_history_scope, height_to_i32,
  optional_height_to_i32, optional_block_parts, required_height,
}
use bip300_monitor.Store.Rows.{Row, Db, has_key, find_row, history_coverage_from_row}
use bip300_monitor.Store.Update.{update_coverage, admit_rows}
use bip300_monitor.Store.Update.Effect.{recorded, admit_rows-ok}
use bip300_monitor.Store.History.{
  running_at, cursor_at, resumable_at, unfinished_at, with_floor, with_page_size, resumed, settled,
  retired, replaced_by, started_row, set_history_floor, upsert_coverage, merge_row,
  begin_history_cycle, resize_history_page, resume_history, settle_history_failure,
  supersede_history, scope_is_listed,
}
use bip300_monitor.Store.Invariant.{
  IsSound, IsConsistent, OkDb-bind, OkDb-commit, OkDb-required_one, OkDb-update,
  update_coverage-IsConsistent, insert-IsConsistent,
}

-- A row that is running may be added, or may replace the row of its key.
upsert_coverage-IsConsistent :
    (fresh : Row) (old : Option Row) (db : Db) (after : Row × Db)
    → fresh.status ≡ running
    → find_row fresh.key db.coverage ≡ old
    → IsConsistent db
    → upsert_coverage fresh old db ≡ ok after
    → IsConsistent after.1
unfolding upsert_coverage
upsert_coverage-IsConsistent fresh none db after r q c e =
    elim (Result-cases (admit_rows (fresh ∷ []) db)) [
      | inr (x, z) ↦ absurd (ground arith)
      | inl (d, z) ↦
          let (w, a) = admit_rows-ok (fresh ∷ []) db d z in
          let sound : IsSound fresh = record {
            allowed = a.0;
            covers = λ x. absurd (ground arith);
          } in
          let p : after.1 ≡ recorded db (db.coverage ++ fresh ∷ []) d.certified = ground arith in
          let kept = insert-IsConsistent db fresh q sound c in
          rw p (record { rows = kept.rows; unique = kept.unique })
    ]
upsert_coverage-IsConsistent fresh (some old) db after r q c e =
    elim (Result-cases
      (update_coverage (has_key fresh.key) (replaced_by (merge_row fresh old)) db)) [
        | inr (x, z) ↦ absurd (ground arith)
        | inl (u, z) ↦
            let p : after.1 ≡ u.0 = ground arith in
            rw p (
              update_coverage-IsConsistent fresh.key (has_key fresh.key)
                (replaced_by (merge_row fresh old)) db u.0 u.1 (λ x h. (ground arith, refl))
                (λ x h s. λ z'. absurd (ground arith)) c z)
      ]

module _ (store : Store) (scope : ScopeKey) (db : Db) (c : IsConsistent db) where
  abbrev key : CoverageKey
  key = coverage_key store scope

  pub resize_history_page-IsConsistent :
      (page_blocks : ℕ) (text : String)
      → IsConsistent (resize_history_page store scope page_blocks text db).1
  unfolding resize_history_page
  resize_history_page-IsConsistent page_blocks text = OkDb-commit IsConsistent db _ c (
      OkDb-bind IsConsistent (validate_history_scope scope) _ λ _ _.
        OkDb-bind IsConsistent (height_to_i32 page_blocks) _ λ n _.
          OkDb-update key (running_at key) (with_page_size n text) db _
            (λ r h. (ground arith, ground arith)) (λ r h s. ground arith) c
            (λ u d. OkDb-required_one IsConsistent tt _ u d))

  -- A consistent coverage table is consistent after the floor was set, and after a failure to set it.
  pub set_history_floor-IsConsistent :
      (cursor : ObservedBlock) (hash : Option Bytes) (height : Option ℕ)
      → IsConsistent (set_history_floor store scope cursor hash height db).1
  unfolding set_history_floor
  set_history_floor-IsConsistent cursor hash height = OkDb-commit IsConsistent db _ c (
      OkDb-bind IsConsistent (optional_height_to_i32 height) _ λ h' _.
        OkDb-update key (cursor_at key cursor.hash) (with_floor hash h') db _
          (λ r h. (ground arith, ground arith)) (λ r h s. s.covers) c
          (λ u d. OkDb-required_one IsConsistent tt _ u d))

  pub resume_history-IsConsistent : IsConsistent (resume_history store scope db).1
  unfolding resume_history
  resume_history-IsConsistent = OkDb-commit IsConsistent db _ c (
      OkDb-bind IsConsistent (validate_history_scope scope) _ λ _ _.
        OkDb-update key (resumable_at key) resumed db _ (λ r h. (ground arith, ground arith))
          (λ r h s. ground arith) c (λ u d. OkDb-required_one IsConsistent tt _ u d))

  -- A consistent coverage table is consistent after a failure was settled, and after a failed attempt.
  pub settle_history_failure-IsConsistent :
      (text : String) → IsConsistent (settle_history_failure store scope text db).1
  unfolding settle_history_failure
  settle_history_failure-IsConsistent text = OkDb-commit IsConsistent db _ c (
      OkDb-bind IsConsistent (validate_history_scope scope) _ λ _ _.
        OkDb-update key (running_at key) (settled (scope_is_listed store scope db) text) db _
          (λ r h. (ground arith, ground arith)) (λ r h s. ground arith) c
          (λ u d. OkDb-bind IsConsistent (or_bail (find_row key u.0.coverage) _) _ λ r _. d))

  -- A consistent coverage table is consistent after a cycle began, whether the scope had a row or not,
  -- and after a failed attempt.
  pub begin_history_cycle-IsConsistent :
      (start : ℕ) (covered : Option ObservedBlock) (target : ObservedBlock) (hash : Option Bytes)
      (height : Option ℕ) (page_blocks : ℕ)
      → IsConsistent
          (begin_history_cycle store scope start covered target hash height page_blocks db).1
  unfolding begin_history_cycle
  begin_history_cycle-IsConsistent start covered target hash height page_blocks =
      OkDb-commit IsConsistent db _ c (
        OkDb-bind IsConsistent (validate_history_scope scope) _ λ _ _.
          OkDb-bind IsConsistent (height_to_i32 start) _ λ s _.
            OkDb-bind IsConsistent (optional_block_parts covered) _ λ v _.
              OkDb-bind IsConsistent (required_height target _) _ λ t _.
                OkDb-bind IsConsistent (height_to_i32 t) _ λ t' _.
                  OkDb-bind IsConsistent (optional_height_to_i32 height) _ λ h _.
                    OkDb-bind IsConsistent (height_to_i32 page_blocks) _ λ n _.
                      let fresh = started_row key s v target t' hash h n in
                      OkDb-bind {A = Row × Db} IsConsistent
                        (upsert_coverage fresh (find_row key db.coverage) db) _
                        λ after e.
                          OkDb-bind IsConsistent (history_coverage_from_row after.0) _
                            λ _ _. upsert_coverage-IsConsistent fresh _ db after refl refl c e)

pub supersede_history-IsConsistent :
    (store : Store) (stream : String) (slot : ℕ) (id reason : String) (db : Db)
    → IsConsistent db
    → IsConsistent (supersede_history store stream slot id reason db).1
unfolding supersede_history
supersede_history-IsConsistent store stream slot id reason db c =
    let key =
      coverage_key store
        (record { stream = stream; sidechain = some slot; sidechain_instance_id = some id }) in
    OkDb-commit IsConsistent db _ c (
      OkDb-update key (unfinished_at key) (retired reason) db _
        (λ r h. (ground arith, ground arith)) (λ r h s. ground arith) c (λ u d. d))
