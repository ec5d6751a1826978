-- ===== src/Store/Invariant/Begun.antt =====
-- `begin_history_cycle` of shared/src/store.rs, on each of its outcomes.
use bip300_monitor.Base.{
  same_self, ap, ℕ, ◌≡◌, refl, sym, ◌∙◌, true, false, String, Option, none, some, List, [], ◌∷◌,
  ◌++◌, Bytes, Option-cases, inl, inr, arith,
}
use bip300_monitor.Failure.{Result, ok, err, Ensures, Ensures-bind, Result-cases}
use bip300_monitor.Proto.{ObservedBlock}
use bip300_monitor.Store.Types.{
  Store, ScopeKey, CoverageKey, coverage_key_discrete, coverage_key, running, HistoryCoverage,
  validate_history_scope, height_to_i32, required_height, optional_height_to_i32,
  optional_block_parts,
}
use bip300_monitor.Store.Rows.{Row, Db, has_key, find_row, history_coverage_from_row}
use bip300_monitor.Store.Rows.Frame.{
  Touches, find_row-append_self, find_row-append_ne, find_row-update_self, find_row-update_ne,
  find_row-key,
}
use bip300_monitor.Store.Update.{commit, update_coverage, admit_rows}
use bip300_monitor.Store.Update.Effect.{update_coverage-ok}
use bip300_monitor.Store.History.{
  merge_row, replaced_by, started_row, upsert_coverage, begin_history_cycle,
}
use bip300_monitor.Store.Invariant.{IsConsistent}
use bip300_monitor.Store.Invariant.Single.{SameElsewhere}
use bip300_monitor.Store.Invariant.Floor.{optional_height_to_i32-ok}
use bip300_monitor.Store.Invariant.Cursor.{begin_history_cycle-IsConsistent}

-- The covered tip: the new one, or else the one of the row before.
abbrev pub kept_hash : Option ObservedBlock → Option Row → Option Bytes
kept_hash (some tip) old = some tip.hash
kept_hash none none = none
kept_hash none (some r) = r.covered_tip_hash

abbrev pub kept_height : Option ObservedBlock → Option Row → Option ℕ
kept_height (some tip) old = tip.height
kept_height none none = none
kept_height none (some r) = r.covered_tip_height

abbrev pub kept_count : Option Row → ℕ
kept_count none = 0
kept_count (some r) = r.rows_recorded

-- What an accepted row leaves: the merged row under its key, and the other rows.
abbrev merged : Row → Option Row → Row
merged fresh none = fresh
merged fresh (some old) = merge_row fresh old

abbrev Upserted : Row → Option Row → Db → Row × Db → Type 0
Upserted fresh old db after =
    (after.0 ≡ merged fresh old)
    × (find_row fresh.key after.1.coverage ≡ some (merged fresh old))
    × SameElsewhere fresh.key after.1 db

has_key-found :
    (k : CoverageKey) (rows : List Row) (r : Row) → find_row k rows ≡ some r → has_key k r ≡ true
unfolding coverage_key_discrete
has_key-found k rows r e = rw (find_row-key k rows r e) (same_self coverage_key_discrete k)

upsert_coverage-Upserted :
    (fresh : Row) (old : Option Row) (db : Db) (after : Row × Db)
    → find_row fresh.key db.coverage ≡ old
    → upsert_coverage fresh old db ≡ ok after
    → Upserted fresh old db after
unfolding upsert_coverage
upsert_coverage-Upserted fresh none db after q e =
    elim (Result-cases (admit_rows (fresh ∷ []) db)) [
      | inr (x, z) ↦ absurd (ground arith)
      | inl (d, z) ↦
          let p : after.1.coverage ≡ db.coverage ++ fresh ∷ [] = ground arith in
          (
            ground arith,
            rw p (find_row-append_self db.coverage fresh q),
            λ k ne. rw p (find_row-append_ne k db.coverage fresh ne),
          )
    ]
upsert_coverage-Upserted fresh (some old) db after q e =
    let f = replaced_by (merge_row fresh old) in
    elim (Result-cases (update_coverage (has_key fresh.key) f db)) [
      | inr (x, z) ↦ absurd (ground arith)
      | inl ((d, n), z) ↦
          let (w, m, a) = update_coverage-ok (has_key fresh.key) f db d n z in
          let t : Touches fresh.key (has_key fresh.key) f = λ r h. (ground arith, refl) in
          let p : after.1 ≡ d = ground arith in
          (
            ground arith,
            rw (p, w)
                (find_row-update_self fresh.key (has_key fresh.key) f t old db.coverage q
                  (has_key-found fresh.key db.coverage old q)),
            λ k ne.
                rw (p, w) (find_row-update_ne fresh.key (has_key fresh.key) f t k db.coverage ne),
          )
    ]

height_to_i32-ok : (n m : ℕ) → height_to_i32 n ≡ ok m → m ≡ n
unfolding height_to_i32
height_to_i32-ok n m e = ground arith

required_height-ok :
    (b : ObservedBlock) (text : String) (h : ℕ) → required_height b text ≡ ok h → b.height ≡ some h
unfolding required_height
required_height-ok b text h e = elim (Option-cases b.height) [
  | inl q ↦ absurd (ground arith)
  | inr (g, q) ↦ let g_eq : g ≡ h = ground arith in q ∙ ap some g_eq
]

no_parts : (v : Option Bytes × Option ℕ) → optional_block_parts none ≡ ok v → v ≡ (none, none)
unfolding optional_block_parts
no_parts v e = ground arith

block_parts :
    (b : ObservedBlock) (v : Option Bytes × Option ℕ)
    → optional_block_parts (some b) ≡ ok v
    → v ≡ (some b.hash, b.height)
unfolding optional_block_parts required_height height_to_i32
block_parts b v e = ground arith

block_height :
    (b : ObservedBlock) (v : Option Bytes × Option ℕ)
    → optional_block_parts (some b) ≡ ok v
    → (h : ℕ) × (b.height ≡ some h)
unfolding optional_block_parts required_height
block_height b v e = elim (Option-cases b.height) [
  | inl q ↦ absurd (ground arith)
  | inr found ↦ found
]

module _ (store : Store) (scope : ScopeKey) (start : ℕ) (covered : Option ObservedBlock)
    (target : ObservedBlock) (hash : Option Bytes) (height : Option ℕ) (page_blocks : ℕ) where
  abbrev key : CoverageKey
  key = coverage_key store scope

  -- The row of a walk that begins: its cursor is the target, and what an earlier row had covered and
  -- counted is kept.
  abbrev pub begun_row : ℕ → Option Row → Row
  begun_row target_height old = record {
    key = key;
    coverage_start_height = start;
    covered_tip_hash = kept_hash covered old;
    covered_tip_height = kept_height covered old;
    target_tip_hash = target.hash;
    target_tip_height = target_height;
    floor_hash = hash;
    floor_height = height;
    next_hash = some target.hash;
    next_height = some target_height;
    status = running;
    rows_recorded = kept_count old;
    effective_page_blocks = page_blocks;
    last_error = none;
    is_completed = false;
  }

  abbrev started : Option Bytes × Option ℕ → ℕ → Row
  started v t = started_row key start v target t hash height page_blocks

  merged-begun_row :
      (tip : Option ObservedBlock) (old : Option Row) (v : Option Bytes × Option ℕ) (t : ℕ)
      → tip ≡ covered
      → optional_block_parts tip ≡ ok v
      → merged (started v t) old ≡ begun_row t old
  merged-begun_row none none v t c e = rw (← c, no_parts v e) refl
  merged-begun_row none (some old) v t c e = rw (← c, no_parts v e) refl
  merged-begun_row (some b) none v t c e = rw (← c, block_parts b v e) refl
  merged-begun_row (some b) (some old) v t c e =
      rw (← c, block_parts b v e, (block_height b v e).1) refl

  module _ (db : Db) (c : IsConsistent db) where
    abbrev pub HasBegun : HistoryCoverage × Db → Type 0
    HasBegun (coverage, after) =
        (target_height : ℕ) × (target.height ≡ some target_height)
        × (find_row key after.coverage ≡ some (begun_row target_height (find_row key db.coverage)))
        × (history_coverage_from_row (begun_row target_height (find_row key db.coverage))
            ≡ ok coverage)
        × SameElsewhere key after db

    abbrev pub BeginOutcome : Result HistoryCoverage × Db → Type 0
    BeginOutcome (ok coverage, after) = HasBegun (coverage, after) × IsConsistent after
    BeginOutcome (err e, after) = after ≡ db

    begin_step :
        (v : Option Bytes × Option ℕ) (t : ℕ) (after : Row × Db) (coverage : HistoryCoverage)
        → optional_block_parts covered ≡ ok v
        → target.height ≡ some t
        → upsert_coverage (started v t) (find_row key db.coverage) db ≡ ok after
        → history_coverage_from_row after.0 ≡ ok coverage
        → HasBegun (coverage, after.1)
    begin_step v t after coverage ev et eu ec =
        let old = find_row key db.coverage in
        let (row, found, others) = upsert_coverage-Upserted (started v t) old db after refl eu in
        let same_row = merged-begun_row covered old v t refl ev in
        (
          t,
          et,
          found ∙ ap some same_row,
          ap history_coverage_from_row (sym (row ∙ same_row)) ∙ ec,
          others,
        )

    begun :
        (x : Result (HistoryCoverage × Db))
        → Ensures HasBegun x
        → IsConsistent (commit db x).1
        → BeginOutcome (commit db x)
    begun (ok (coverage, after)) h i = (h, i)
    begun (err e) h i = refl

    -- From a consistent coverage table, `begin_history_cycle` either leaves every table as it was and
    -- returns an error, or returns the row that the scope then has. That row is running at the target's
    -- hash and height with the given floor, start and page size, and without an error. It covers the
    -- given tip, or where none is given what the row before covered, and it keeps that row's count. The
    -- rows of the other scopes are as before, and the table is consistent.
    pub begin_history_cycle-outcome :
        BeginOutcome
          (begin_history_cycle store scope start covered target hash height page_blocks db)
    unfolding begin_history_cycle
    begin_history_cycle-outcome =
        begun _
          (Ensures-bind HasBegun (validate_history_scope scope) _ λ _ _.
            Ensures-bind HasBegun (height_to_i32 start) _ λ s es.
              Ensures-bind {A = Option Bytes × Option ℕ} HasBegun (optional_block_parts covered) _
                λ v ev. Ensures-bind HasBegun (required_height target _) _ λ t et.
                  Ensures-bind HasBegun (height_to_i32 t) _ λ t' et'.
                    Ensures-bind {A = Option ℕ} HasBegun (optional_height_to_i32 height) _ λ h eh.
                      Ensures-bind HasBegun (height_to_i32 page_blocks) _ λ n en.
                        Ensures-bind {A = Row × Db} HasBegun
                          (upsert_coverage (started_row key s v target t' hash h n)
                            (find_row key db.coverage) db)
                          _
                          λ after eu.
                            Ensures-bind {A = HistoryCoverage} HasBegun
                              (history_coverage_from_row after.0) _
                              λ coverage ec.
                                begin_step v t' after coverage ev
                                  (required_height-ok target _ t et
                                    ∙ ap some (sym (height_to_i32-ok t t' et')))
                                  (rw
                                    (
                                      height_to_i32-ok start s es,
                                      optional_height_to_i32-ok height h eh,
                                      height_to_i32-ok page_blocks n en,
                                    )
                                    at eu)
                                  ec)
          (begin_history_cycle-IsConsistent store scope db c start covered target hash height
            page_blocks)
