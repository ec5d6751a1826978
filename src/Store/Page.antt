-- ===== src/Store/Page.antt =====
-- `record_history_page` of shared/src/store.rs: the facts of one page and the new cursor, in one
-- transaction. A conflict is an error after the commit.
pub mod Conflict
use bip300_monitor.Base.{
  ℕ, suc, ◌+◌, Bool, true, false, ◌&&◌, ◌||◌, not, String, Option, none, some, List, [], ◌∷◌, map,
  Bytes, bytes_discrete, any, contains, length, same, ◌==◌, is_none, if◌then◌else◌,
}
use bip300_monitor.Failure.{Result, ok, err, bail, history_conflict, ◌>>=◌, ◌>>◌}
use bip300_monitor.Proto.{ObservedBlock, Event}
use bip300_monitor.Store.Types.{
  Externals, Store, ScopeKey, CoverageKey, coverage_key, FactKey, fact_key_discrete, fact_key,
  running, complete, error, status_discrete, backfill, validate_history_scope, required_height,
  height_to_i32, optional_block_parts, history_kind,
}
use bip300_monitor.Store.Rows.{Row, Fact, Db, has_key}
use bip300_monitor.Store.Certify.{same_hash}
use bip300_monitor.Store.Instances.{Cache}
use bip300_monitor.Store.Insert.{insert, reserve_capture_sequences, validate_sidechain_instance}
use bip300_monitor.Store.Update.{
  Tx, commit, history_conflict_text, update_coverage, has_status, required_one,
}

-- The new cursor values of a page.
pub record HistoryPage : Type 0 where
  pub scope : ScopeKey
  pub expected_next : ObservedBlock
  pub next : Option ObservedBlock

-- The loop of `record_history_page` over the events, with numbers from the reserved range.
unfoldable pub insert_page :
    Externals → Store → Option ℕ → Option String → ℕ → List Event → Db × Cache → Result (ℕ × Db)
unfolding insert
insert_page ext store slot id seq [] (db, cache) = ok (0, db)
insert_page ext store slot id seq (event ∷ rest) (db, cache) = do
  stored ← insert ext store backfill none slot id seq event (db, cache)
  later ← insert_page ext store slot id (suc seq) rest (stored.1, stored.2)
  ok (stored.0 + later.0, later.1)

abbrev pub anchored : Event → Option Bytes
anchored event = elim event.observed_at_block [ none ↦ none | some b ↦ some b.hash ]

abbrev pub filter_some {ℓ} : {A : Type ℓ} → List (Option A) → List A
filter_some [] = []
filter_some (none ∷ xs) = filter_some xs
filter_some (some x ∷ xs) = x ∷ filter_some xs

-- The two `EXISTS` queries on `event_conflict`: of the page's blocks, and of the whole scope.
abbrev pub in_scope : FactKey → Fact → Bool
in_scope key f = same fact_key_discrete f.key key

abbrev pub hash_in : List Bytes → Option Bytes → Bool
hash_in hashes none = false
hash_in hashes (some h) = contains bytes_discrete hashes h

unfoldable pub page_has_conflict : FactKey → List Bytes → Db → Bool
unfolding fact_key_discrete bytes_discrete
page_has_conflict key hashes db =
    any (λ f. in_scope key f && hash_in hashes f.block_hash) db.conflicts

unfoldable pub scope_has_conflict : FactKey → Db → Bool
unfolding fact_key_discrete
scope_has_conflict key db = any (in_scope key) db.conflicts

-- The check of the slot's instance, made where the scope names one.
abbrev pub validate_scope_instance : Option ℕ → Option String → Db → Result (Unit {0})
validate_scope_instance (some slot) (some id) db = validate_sidechain_instance slot id db
validate_scope_instance _ _ db = ok tt

-- The row that a page leaves behind.
unfoldable pub advance_row : Bool → Bool → Option Bytes → Option ℕ → ℕ → Row → Row
advance_row conflict complete_ next_hash next_height inserted r = record r {
  next_hash = next_hash;
  next_height = next_height;
  status = if conflict then error else if complete_ then complete else running;
  covered_tip_hash = if complete_ then some r.target_tip_hash else r.covered_tip_hash;
  covered_tip_height = if complete_ then some r.target_tip_height else r.covered_tip_height;
  rows_recorded = r.rows_recorded + inserted;
  last_error = if conflict then some history_conflict_text else none;
  is_completed = complete_;
}

abbrev same_height : Option ℕ → ℕ → Bool
same_height none h = false
same_height (some g) h = g == h

abbrev pub is_empty {ℓ} : {A : Type ℓ} → List A → Bool
is_empty [] = true
is_empty (_ ∷ _) = false

abbrev pub at_cursor : CoverageKey → ObservedBlock → ℕ → Row → Bool
at_cursor key cursor height r =
    has_key key r
    && same_hash r.next_hash (some cursor.hash)
    && same_height r.next_height height
    && has_status running r

-- The transaction of `record_history_page`: the new facts, whether they conflict, and the tables.
unfoldable pub page_transaction :
    Externals → Store → List Event → HistoryPage → Db → Result ((ℕ × Bool) × Db)
unfolding validate_history_scope required_height height_to_i32 optional_block_parts history_kind
    validate_sidechain_instance reserve_capture_sequences insert_page page_has_conflict
    scope_has_conflict update_coverage advance_row status_discrete
page_transaction ext store events page db =
    if is_empty events then bail "a historical page cannot be empty" else do
      validate_history_scope page.scope
      expected ← required_height page.expected_next "history page cursor"
      expected_height ← height_to_i32 expected
      next ← optional_block_parts page.next
      validate_scope_instance page.scope.sidechain page.scope.sidechain_instance_id db
      reserved ← reserve_capture_sequences (length events) db
      inserted ←
          insert_page ext store page.scope.sidechain page.scope.sidechain_instance_id reserved.0
            events (reserved.1, [])
      kind ← history_kind page.scope.stream
      let key : CoverageKey = coverage_key store page.scope
      let hashes : List Bytes = filter_some (map anchored events)
      let conflict : Bool =
          page_has_conflict (fact_key key kind) hashes inserted.1
          || (is_none page.next && scope_has_conflict (fact_key key kind) inserted.1)
      cursor ← if conflict then optional_block_parts (some page.expected_next) else ok next
      updated ←
          update_coverage (at_cursor key page.expected_next expected_height)
            (advance_row conflict (is_none page.next && not conflict) cursor.0 cursor.1 inserted.0)
            inserted.1
      required_one (inserted.0, conflict)
          "history cursor changed before its page could be committed" updated

-- A conflict is reported after the commit.
abbrev pub report_conflict : Result (ℕ × Bool) × Db → Result ℕ × Db
report_conflict (ok (inserted, true), db) = (err (history_conflict ∷ []), db)
report_conflict (ok (inserted, false), db) = (ok inserted, db)
report_conflict (err e, db) = (err e, db)

-- `record_history_page`.
unfoldable pub record_history_page : Externals → Store → List Event → HistoryPage → Tx ℕ
unfolding page_transaction
record_history_page ext store events page db =
    report_conflict (commit db (page_transaction ext store events page db))
