-- ===== src/Tests/Pages.antt =====
-- Tests of the checks on a page, of the write of a page, and of a whole walk.
use bip300_monitor.Base.{length, ◌<◌, ◌↔◌, ◌≡◌, refl, false, none, some, List, [], ◌∷◌, map, arith}
use bip300_monitor.Failure.{ok, traverse}
use bip300_monitor.Proto.{BlockHeader, enforcer, Event}
use bip300_monitor.Store.Types.{coverage_key_discrete}
use bip300_monitor.Store.Page.{HistoryPage, record_history_page}
use bip300_monitor.Store.Invariant.{IsConsistent}
use bip300_monitor.Backfill.Page.{blocks_through_floor, verify_page_with, connected_header}
use bip300_monitor.Backfill.Page.Chain.{
  IsPage, Reads, page_above_floor, verify_page_with-ok, verify_page_with-of_IsPage,
}
use bip300_monitor.Backfill.Page.Block.{block_history}
use bip300_monitor.Backfill.Cycle.{completed}
use bip300_monitor.Backfill.Turn.{run_history}
use bip300_monitor.Backfill.Consistency.Turn.{run_history-IsConsistent}
use bip300_monitor.Tests.Fixtures.{
  header, block, tip, page, stream, ext, store, scope, db, db-IsConsistent, walk, world,
}

page_verifies : verify_page_with stream page tip 2 ≡ ok tt
unfolding verify_page_with block_history
page_verifies = refl

verify_page_with-ok_example :
    (hs : List BlockHeader) × (traverse stream.header page ≡ ok hs) × IsPage tip 2 hs
verify_page_with-ok_example = verify_page_with-ok stream page tip 2 page_verifies

page-Reads : Reads stream page (header 2 ∷ header 1 ∷ [])
unfolding block_history connected_header
page-Reads = (refl, (refl, tt))

verify_page_with-of_IsPage_example : verify_page_with stream page tip 2 ≡ ok tt
verify_page_with-of_IsPage_example =
    verify_page_with-of_IsPage stream page (header 2 ∷ header 1 ∷ []) tip 2 page-Reads
      (omega arith, (omega arith, tt)) (refl, refl, (refl, refl, tt), omega arith)

page_headers : traverse stream.header page ≡ ok (header 2 ∷ header 1 ∷ [])
unfolding block_history connected_header
page_headers = refl

floor_blocks : blocks_through_floor 2 (some 0) ≡ ok 2
unfolding blocks_through_floor
floor_blocks = refl

page_above_floor_example : (0 < (header 1).height) × ((length page ≡ 2) ↔ ((header 1).height ≡ 1))
page_above_floor_example =
    page_above_floor stream page tip 2 0 2 5 (header 2) (header 1 ∷ []) refl floor_blocks
      page_verifies page_headers

abbrev last_page : HistoryPage
last_page = record { scope = scope; expected_next = tip; next = none }

abbrev events : List Event
events =
    map
      (λ n. record {
        timestamp = 7;
        observed_at_block = some (record { hash = (header n).hash; height = some n });
        monitor_event = some (enforcer (block n));
      })
      (1 ∷ 2 ∷ [])

-- The page's two facts are new, and they complete the scope.
page_is_recorded : (record_history_page ext store events last_page db).0 ≡ ok 2
unfolding record_history_page coverage_key_discrete
page_is_recorded = refl

run_history-IsConsistent_example : IsConsistent (run_history walk 3 false tip 2 world).1.db
run_history-IsConsistent_example = run_history-IsConsistent walk 3 false tip 2 world db-IsConsistent

-- The walk covers the slot in one page.
run_history_completes : (run_history walk 3 false tip 2 world).0 ≡ ok (completed tip 2 1)
unfolding run_history block_history connected_header coverage_key_discrete
run_history_completes = refl
