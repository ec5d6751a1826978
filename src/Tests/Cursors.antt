-- ===== src/Tests/Cursors.antt =====
-- Tests of the operations on the cursor of a scope.
use bip300_monitor.Base.{◌≡◌, refl, none, some, if◌then◌else◌}
use bip300_monitor.Failure.{ok}
use bip300_monitor.Store.Types.{
  coverage_key, coverage_key_discrete, running, error, superseded, validate_history_scope,
}
use bip300_monitor.Store.Rows.{find_row}
use bip300_monitor.Store.Invariant.Settle.{settle_history_failure-resumed}
use bip300_monitor.Store.Invariant.Floor.{FloorOutcome, set_history_floor-outcome}
use bip300_monitor.Store.Invariant.Begun.{BeginOutcome, begin_history_cycle-outcome}
use bip300_monitor.Store.History.{
  set_history_floor, begin_history_cycle, resume_history, settle_history_failure, settled,
  scope_is_listed,
}
use bip300_monitor.Tests.Fixtures.{tip, hash, store, scope, row, db, db-IsConsistent}

row_is_found : find_row (coverage_key store scope) db.coverage ≡ some row
unfolding find_row coverage_key_discrete
row_is_found = refl

scope_is_valid : validate_history_scope scope ≡ ok tt
unfolding validate_history_scope
scope_is_valid = refl

settle_history_failure-resumed_example :
    let failed = settle_history_failure store scope "gone" db in
    let again = resume_history store scope failed.1 in
    (failed.0 ≡ ok (if scope_is_listed store scope db then error else superseded))
    × (find_row (coverage_key store scope) failed.1.coverage
        ≡ some (settled (scope_is_listed store scope db) "gone" row))
    × (again.0 ≡ ok tt)
    × (find_row (coverage_key store scope) again.1.coverage
        ≡ some (record row { status = running; last_error = none }))
settle_history_failure-resumed_example =
    settle_history_failure-resumed store scope "gone" db db-IsConsistent row scope_is_valid
      row_is_found refl

set_history_floor-outcome_example :
    FloorOutcome store scope db db-IsConsistent tip
      (some (hash 1))
      (some 0)
      (set_history_floor store scope tip (some (hash 1)) (some 0) db)
set_history_floor-outcome_example =
    set_history_floor-outcome store scope db db-IsConsistent tip (some (hash 1)) (some 0)

begin_history_cycle-outcome_example :
    BeginOutcome store scope 1 none tip none
      (some 0)
      4
      db
      db-IsConsistent
      (begin_history_cycle store scope 1 none tip none (some 0) 4 db)
begin_history_cycle-outcome_example =
    begin_history_cycle-outcome store scope 1 none tip none (some 0) 4 db db-IsConsistent
