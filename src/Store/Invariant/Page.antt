-- ===== src/Store/Invariant/Page.antt =====
-- What `record_history_page` does to the coverage row of its scope, on each of its outcomes.
use bip300_monitor.Base.{
  ℕ, suc, ◌+◌, Option-cases, ◌≡◌, ◌⊎◌, refl, sym, ◌∙◌, Bool, true, false, ◌||◌, ◌&&◌, not, Option,
  none, some, List, [], ◌∷◌, String, Bytes, Bool-cases, inl, inr, arith, length, ◌==◌, is_none, map,
  if◌then◌else◌,
}
use bip300_monitor.Failure.{Result, ok, err, history_conflict, Ensures, Ensures-bind, Ensures-ok}
use bip300_monitor.Proto.{ObservedBlock, Event}
use bip300_monitor.Store.Types.{
  Externals, Store, CoverageKey, coverage_key, HistoryStatus, running, complete, error, superseded,
  backfill, validate_history_scope, required_height, height_to_i32, optional_block_parts,
  history_kind, fact_key,
}
use bip300_monitor.Store.Rows.{Row, Db, find_row}
use bip300_monitor.Store.Instances.{Cache}
use bip300_monitor.Store.Insert.{insert, reserve_capture_sequences}
use bip300_monitor.Store.Insert.Frame.{SameCursors, insert-Kept}
use bip300_monitor.Store.Update.{commit, history_conflict_text, update_coverage, required_one}
use bip300_monitor.Store.Certify.Chain.{IsProved, IsProved-cong}
use bip300_monitor.Store.Invariant.Single.{SameElsewhere, one_row-update}
use bip300_monitor.Store.Page.{
  HistoryPage, insert_page, page_has_conflict, scope_has_conflict, advance_row, at_cursor, anchored,
  filter_some, validate_scope_instance, page_transaction, report_conflict, record_history_page,
}
use bip300_monitor.Store.Invariant.{Covers, IsSound, IsConsistent}

module _ (ext : Externals) (store : Store) (slot : Option ℕ) (id : Option String) where
  abbrev KeptPage : Db → ℕ × Db → Type 0
  KeptPage db after = SameCursors after.1 db

  insert_page-Ensures :
      (seq : ℕ) (events : List Event) (db : Db) (cache : Cache)
      → Ensures (KeptPage db) (insert_page ext store slot id seq events (db, cache))
  unfolding insert_page
  insert_page-Ensures seq [] db cache = (refl, refl)
  insert_page-Ensures seq (event ∷ rest) db cache =
      Ensures-bind {A = ℕ × Db × Cache} (KeptPage db)
        (insert ext store backfill none slot id seq event (db, cache)) _
        λ stored e.
          Ensures-bind {A = ℕ × Db} (KeptPage db)
            (insert_page ext store slot id (suc seq) rest (stored.1, stored.2)) _
            λ later e'.
              let one =
                Ensures-ok (λ a. SameCursors a.1 db) _ stored
                  (insert-Kept ext store backfill none slot id seq event db cache) e in
              let more =
                Ensures-ok (KeptPage stored.1) _ later
                  (insert_page-Ensures (suc seq) rest stored.1 stored.2) e' in
              (more.0 ∙ one.0, more.1 ∙ one.1)

insert_page-Kept :
    (ext : Externals) (store : Store) (slot : Option ℕ) (id : Option String) (seq : ℕ)
    (events : List Event) (db : Db) (cache : Cache) (after : ℕ × Db)
    → insert_page ext store slot id seq events (db, cache) ≡ ok after
    → SameCursors after.1 db
insert_page-Kept ext store slot id seq events db cache after e =
    Ensures-ok (λ a. SameCursors a.1 db) _ after
      (insert_page-Ensures ext store slot id seq events db cache) e

abbrev pub hash_of : Option ObservedBlock → Option Bytes
hash_of none = none
hash_of (some b) = some b.hash

abbrev pub height_of : Option ObservedBlock → Option ℕ
height_of none = none
height_of (some b) = b.height

optional_block_parts-ok :
    (b : Option ObservedBlock) (x : Option Bytes × Option ℕ)
    → optional_block_parts b ≡ ok x
    → x ≡ (hash_of b, height_of b)
unfolding optional_block_parts required_height height_to_i32
optional_block_parts-ok none x e = ground arith
optional_block_parts-ok (some b) x e = ground arith

-- The row of a page's scope after the page, by whether its facts conflict and by the next cursor: a
-- conflict keeps the cursor under the error status, a page without a next cursor completes the row and
-- covers its target, and any other page moves the cursor of the running row. The new facts are counted.
abbrev moved_row : Bool → Option ObservedBlock → ObservedBlock → ℕ → Row → Row
moved_row true next cursor n r = record r {
  next_hash = some cursor.hash;
  next_height = cursor.height;
  status = error;
  rows_recorded = r.rows_recorded + n;
  last_error = some history_conflict_text;
  is_completed = false;
}
moved_row false none cursor n r = record r {
  next_hash = none;
  next_height = none;
  status = complete;
  covered_tip_hash = some r.target_tip_hash;
  covered_tip_height = some r.target_tip_height;
  rows_recorded = r.rows_recorded + n;
  last_error = none;
  is_completed = true;
}
moved_row false (some next) cursor n r = record r {
  next_hash = some next.hash;
  next_height = next.height;
  status = running;
  rows_recorded = r.rows_recorded + n;
  last_error = none;
  is_completed = false;
}

abbrev pub page_row : HistoryPage → Bool → ℕ → Row → Row
page_row page conflict n r = moved_row conflict page.next page.expected_next n r

-- What is required of a completed row alone.
abbrev pub WhenComplete : HistoryStatus → Type 0 → Type 0
WhenComplete complete P = P
WhenComplete _ P = Unit

WhenComplete-of : (s : HistoryStatus) (P : Type 0) → (s ≡ complete → P) → WhenComplete s P
WhenComplete-of running P h = tt
WhenComplete-of complete P h = h refl
WhenComplete-of error P h = tt
WhenComplete-of superseded P h = tt

-- The cursor was there and running; the row has moved, and the invariant holds.
abbrev pub Moved : Store → HistoryPage → Db → Bool → ℕ → Db → Type 0
Moved store page db conflict n after =
    (height : ℕ) × (r : Row) × (page.expected_next.height ≡ some height)
    × (find_row (coverage_key store page.scope) db.coverage ≡ some r)
    × (at_cursor (coverage_key store page.scope) page.expected_next height r ≡ true)
    × (find_row (coverage_key store page.scope) after.coverage ≡ some (page_row page conflict n r))
    × IsConsistent after
    × WhenComplete (page_row page conflict n r).status
        (IsProved (record after { certified = db.certified }) (page_row page conflict n r))
    × SameElsewhere (coverage_key store page.scope) after db

IsConsistent-of_coverage : (a b : Db) → a.coverage ≡ b.coverage → IsConsistent b → IsConsistent a
IsConsistent-of_coverage a b e c = record { rows = rw e c.rows; unique = λ k. rw e (c.unique k) }

reserve_capture_sequences-SameCursors :
    (count : ℕ) (db : Db) (x : ℕ × Db)
    → reserve_capture_sequences count db ≡ ok x
    → SameCursors x.1 db
unfolding reserve_capture_sequences
reserve_capture_sequences-SameCursors count db x e = ground arith

Covers-advance :
    (conflict last : Bool) (hash : Option Bytes) (height : Option ℕ) (n : ℕ) (r : Row)
    → IsSound r
    → Covers (advance_row conflict (last && not conflict) hash height n r)
unfolding advance_row
Covers-advance conflict last hash height n r s = ground arith

module _ (ext : Externals) (store : Store) (page : HistoryPage) (db : Db)
    (c : IsConsistent db) where
  abbrev key : CoverageKey
  key = coverage_key store page.scope

  abbrev MovedBy : (ℕ × Bool) × Db → Type 0
  MovedBy x = Moved store page db x.0.1 x.0.0 x.1

  advance_row-page_row :
      (conflict : Bool) (n : ℕ) (cursor : Option Bytes × Option ℕ) (r : Row)
      → (if conflict
          then optional_block_parts (some page.expected_next)
          else ok (hash_of page.next, height_of page.next))
        ≡ ok cursor
      → advance_row conflict (is_none page.next && not conflict) cursor.0 cursor.1 n r
        ≡ page_row page conflict n r
  unfolding advance_row
  advance_row-page_row true n cursor r e =
      let p = optional_block_parts-ok (some page.expected_next) cursor e in rw p (ground arith)
  advance_row-page_row false n cursor r e = elim (Option-cases page.next) [
    | inl q ↦ ground (arith, q)
    | inr (next, q) ↦ ground (arith, q)
  ]

  -- The last statement of the transaction, where it wrote one row.
  moved_step :
      (conflict : Bool) (n height : ℕ) (cursor : Option Bytes × Option ℕ) (start : Db)
      (updated : Db × ℕ) (text : String)
      → SameCursors start db
      → page.expected_next.height ≡ some height
      → (if conflict
          then optional_block_parts (some page.expected_next)
          else ok (hash_of page.next, height_of page.next))
        ≡ ok cursor
      → update_coverage
          (at_cursor key page.expected_next height)
          (advance_row conflict (is_none page.next && not conflict) cursor.0 cursor.1 n)
          start
        ≡ ok updated
      → Ensures MovedBy (required_one (n, conflict) text updated)
  moved_step conflict n height cursor start (after, count) text same eh ec eu =
      elim (Bool-cases (count == 1)) [
        | inr e ↦ rw e tt
        | inl e ↦
            let (r, q, h, m, d, proved, facts, others) =
              one_row-update key (at_cursor key page.expected_next height)
                (advance_row conflict (is_none page.next && not conflict) cursor.0 cursor.1 n) start
                after count (λ r h. ground arith) (unfold advance_row in λ x. refl)
                (Covers-advance conflict _ _ _ n) (IsConsistent-of_coverage start db same.0 c) eu
                (ground arith) in
            rw e (
              height,
              r,
              eh,
              rw (← same.0) q,
              h,
              rw (← advance_row-page_row conflict n cursor r ec) m,
              d,
              rw (← advance_row-page_row conflict n cursor r ec) (
                  WhenComplete-of _ _ (λ s.
                    IsProved-cong start (record after { certified = db.certified }) _ (sym facts)
                      same.1 (proved s))),
              λ k ne. rw (← same.0) (others k ne),
            )
      ]

  same_start :
      (events : List Event) (from : Db) (reserved inserted : ℕ × Db)
      → reserve_capture_sequences (length events) from ≡ ok reserved
      → insert_page ext store page.scope.sidechain page.scope.sidechain_instance_id reserved.0
          events
          (reserved.1, [])
        ≡ ok inserted
      → SameCursors inserted.1 from
  same_start events from reserved inserted er ei =
      let kept =
        insert_page-Kept ext store page.scope.sidechain page.scope.sidechain_instance_id reserved.0
          events reserved.1 [] inserted ei in
      let same = reserve_capture_sequences-SameCursors (length events) from reserved er in
      (kept.0 ∙ same.0, kept.1 ∙ same.1)

  page_transaction-MovedBy :
      (events : List Event) → Ensures MovedBy (page_transaction ext store events page db)
  unfolding page_transaction required_height height_to_i32
  page_transaction-MovedBy [] = tt
  page_transaction-MovedBy (first ∷ rest) =
      let events = first ∷ rest in
      Ensures-bind MovedBy (validate_history_scope page.scope) _ λ _ _.
        Ensures-bind MovedBy (required_height page.expected_next _) _ λ h eh.
          Ensures-bind MovedBy (height_to_i32 h) _ λ h' eh'.
            Ensures-bind {A = Option Bytes × Option ℕ} MovedBy (optional_block_parts page.next) _
              λ next en.
                Ensures-bind MovedBy
                  (validate_scope_instance page.scope.sidechain page.scope.sidechain_instance_id db)
                  _
                  λ _ _.
                    Ensures-bind {A = ℕ × Db} MovedBy (reserve_capture_sequences (length events) db)
                      _
                      λ reserved er.
                        Ensures-bind {A = ℕ × Db} MovedBy
                          (insert_page ext store page.scope.sidechain
                            page.scope.sidechain_instance_id reserved.0 events (reserved.1, []))
                          _
                          λ inserted ei.
                            Ensures-bind MovedBy (history_kind page.scope.stream) _ λ kind _.
                              let conflict : Bool =
                                page_has_conflict (fact_key key kind)
                                  (filter_some (map anchored events)) inserted.1
                                || (is_none page.next
                                    && scope_has_conflict (fact_key key kind) inserted.1) in
                              Ensures-bind {A = Option Bytes × Option ℕ} MovedBy
                                (if conflict
                                  then optional_block_parts (some page.expected_next)
                                  else ok next)
                                _
                                λ cursor ec.
                                  Ensures-bind {A = Db × ℕ} MovedBy
                                    (update_coverage (at_cursor key page.expected_next h')
                                      (advance_row conflict (is_none page.next && not conflict)
                                        cursor.0 cursor.1 inserted.0)
                                      inserted.1)
                                    _
                                    λ updated eu.
                                      moved_step conflict inserted.0 h' cursor inserted.1 updated _
                                        (same_start events db reserved inserted er ei)
                                        (ground arith)
                                        (rw (← optional_block_parts-ok page.next next en) ec) eu

  -- What the three outcomes of the operation leave behind.
  abbrev pub PageOutcome : Result ℕ × Db → Type 0
  PageOutcome (ok n, after) = Moved store page db false n after
  PageOutcome (err e, after) =
      ((e ≡ history_conflict ∷ []) × ((n : ℕ) × Moved store page db true n after)) ⊎ (after ≡ db)

  reported :
      (r : Result ((ℕ × Bool) × Db))
      → Ensures MovedBy r
      → PageOutcome (report_conflict (commit db r))
  reported (ok ((n, true), after)) m = inl (refl, (n, m))
  reported (ok ((n, false), after)) m = m
  reported (err e) m = inr refl

  pub record_history_page-outcome :
      (events : List Event) → PageOutcome (record_history_page ext store events page db)
  unfolding record_history_page
  record_history_page-outcome events =
      reported (page_transaction ext store events page db) (page_transaction-MovedBy events)

  outcome-IsConsistent : (x : Result ℕ × Db) → PageOutcome x → IsConsistent x.1
  outcome-IsConsistent (ok n, after) m = m.6
  outcome-IsConsistent (err e, after) (inl m) = m.1.1.6
  outcome-IsConsistent (err e, after) (inr m) = rw m c

  pub record_history_page-IsConsistent :
      (events : List Event) → IsConsistent (record_history_page ext store events page db).1
  record_history_page-IsConsistent events =
      outcome-IsConsistent (record_history_page ext store events page db)
        (record_history_page-outcome events)
