-- ===== src/Store/Invariant/Floor.antt =====
-- `set_history_floor` of shared/src/store.rs, on each of its outcomes.
use bip300_monitor.Base.{
  ℕ, ◌≡◌, refl, Bool, true, ◌&&◌, same-eq, Option, none, some, String, Bytes, Bool-cases, inl, inr,
  arith, ◌==◌,
}
use bip300_monitor.Failure.{Result, ok, err, Ensures, Ensures-bind}
use bip300_monitor.Proto.{ObservedBlock}
use bip300_monitor.Store.Types.{
  Store, ScopeKey, CoverageKey, coverage_key, running, status_discrete, height_to_i32,
  optional_height_to_i32,
}
use bip300_monitor.Store.Rows.{Row, Db, find_row}
use bip300_monitor.Store.Certify.Walk.{same_hash-some}
use bip300_monitor.Store.Update.{commit, update_coverage, required_one}
use bip300_monitor.Store.History.{cursor_at, with_floor, set_history_floor}
use bip300_monitor.Store.Invariant.{IsConsistent}
use bip300_monitor.Store.Invariant.Single.{SameElsewhere, one_row-update}

pub optional_height_to_i32-ok :
    (height h : Option ℕ) → optional_height_to_i32 height ≡ ok h → h ≡ height
unfolding height_to_i32
optional_height_to_i32-ok none h e = ground arith
optional_height_to_i32-ok (some n) h e = ground arith

both_hold : (a b : Bool) → a && b ≡ true → (a ≡ true) × (b ≡ true)
both_hold a b e = ground arith

cursor_at-true :
    (key : CoverageKey) (hash : Bytes) (r : Row)
    → cursor_at key hash r ≡ true
    → (r.next_hash ≡ some hash) × (r.status ≡ running)
cursor_at-true key hash r h =
    let (most, is_running) = both_hold _ _ h in
    let (_, at) = both_hold _ _ most in
    (same_hash-some r.next_hash hash at, same-eq status_discrete r.status running is_running)

module _ (store : Store) (scope : ScopeKey) (db : Db) (c : IsConsistent db) (cursor : ObservedBlock)
    (hash : Option Bytes) (height : Option ℕ) where
  abbrev key : CoverageKey
  key = coverage_key store scope

  -- The running row at the cursor has the floor, and nothing else is different.
  abbrev pub HasFloor : Db → Type 0
  HasFloor after =
      (r : Row) × (find_row key db.coverage ≡ some r)
      × (r.next_hash ≡ some cursor.hash)
      × (r.status ≡ running)
      × (find_row key after.coverage ≡ some (record r { floor_hash = hash; floor_height = height }))
      × IsConsistent after
      × SameElsewhere key after db

  abbrev pub FloorOutcome : Result (Unit {0}) × Db → Type 0
  FloorOutcome (ok u, after) = HasFloor after
  FloorOutcome (err e, after) = after ≡ db

  abbrev Floored : Unit {0} × Db → Type 0
  Floored x = HasFloor x.1

  floor_step :
      (h : Option ℕ) (updated : Db × ℕ) (text : String)
      → h ≡ height
      → update_coverage (cursor_at key cursor.hash) (with_floor hash h) db ≡ ok updated
      → Ensures Floored (required_one tt text updated)
  floor_step h (after, count) text eh eu = elim (Bool-cases (count == 1)) [
    | inr e ↦ rw e tt
    | inl e ↦
        let (r, q, w, m, d, _, _, others) =
          one_row-update key (cursor_at key cursor.hash) (with_floor hash h) db after count
            (λ r h. ground arith) (λ r. refl) (λ r s. s.covers) c eu (ground arith) in
        let (at, is_running) = cursor_at-true key cursor.hash r w in
        rw e (r, q, at, is_running, rw (← eh) m, d, others)
  ]

  floored : (x : Result (Unit {0} × Db)) → Ensures Floored x → FloorOutcome (commit db x)
  floored (ok (u, after)) h = h
  floored (err e) h = refl

  -- From a consistent coverage table, `set_history_floor` either leaves every table as it was and
  -- returns an error, or sets the floor of the running row whose cursor has the hash, and keeps all else
  -- of that row, the rows of the other scopes, and the consistency of the table.
  pub set_history_floor-outcome : FloorOutcome (set_history_floor store scope cursor hash height db)
  unfolding set_history_floor
  set_history_floor-outcome = floored _ (
      Ensures-bind {A = Option ℕ} Floored (optional_height_to_i32 height) _ λ h eh.
        Ensures-bind {A = Db × ℕ} Floored
          (update_coverage (cursor_at key cursor.hash) (with_floor hash h) db) _
          λ updated eu. floor_step h updated _ (optional_height_to_i32-ok height h eh) eu)
