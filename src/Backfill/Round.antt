-- ===== src/Backfill/Round.antt =====
-- `run_history` of extractors/enforcer/src/backfill.rs: the loop's variables, and the arms that shrink
-- the page, that meet an unavailable cursor, and that cut a page at a certified block.
use bip300_monitor.Base.{
  ℕ, zero, suc, ◌/◌, max, Bool, true, false, Option, none, some, List, [], ◌∷◌, Bytes,
  bytes_discrete, take, same, map, if◌then◌else◌,
}
use bip300_monitor.Failure.{Error, Result, ok, err, message, or_bail, retryable_rpc_error}
use bip300_monitor.Proto.{ObservedBlock, BlockHeader}
use bip300_monitor.Store.Types.{HistoryCoverage}
use bip300_monitor.Store.History.{certified_history_floor, set_history_floor, resize_history_page}
use bip300_monitor.Backfill.Page.{replacement_target}
use bip300_monitor.Backfill.World.{M, pure, lift, attempt, rpc, store_call, ◌>>=◌, ◌>>◌}
use bip300_monitor.Backfill.Cycle.{
  Outcome, FailureMode, fatal, deferrable, Walk, begin_full_cycle, target_is_available,
  settle_failure,
}

-- The loop's variables: `progress`, `blocks`, `pages` and `restarted_from_activation`.
pub record Progress : Type 0 where
  pub coverage : HistoryCoverage
  pub blocks : ℕ
  pub pages : ℕ
  pub restarted : Bool

-- How a turn of the loop ends: by a return, or by another turn.
pub data Turn : Type 0 where
  done : Outcome → Turn
  again : Progress → Turn

-- `hashes.iter().position(|hash| *hash == certified.hash)`.
abbrev pub position : Bytes → List BlockHeader → Option ℕ
position hash [] = none
position hash (h ∷ hs) = elim (same bytes_discrete h.hash hash) [
  | true ↦ some 0
  | false ↦ elim (position hash hs) [ none ↦ none | some i ↦ some (suc i) ]
]

abbrev pub header_at : ℕ → List BlockHeader → Option BlockHeader
header_at n [] = none
header_at zero (h ∷ hs) = some h
header_at (suc n) (h ∷ hs) = header_at n hs

-- `header.height.checked_sub(1)`.
abbrev pub checked_pred : ℕ → Option ℕ
checked_pred zero = none
checked_pred (suc n) = some n

abbrev pub floor_below : BlockHeader → Option Bytes
floor_below h = elim h.height [ zero ↦ none | suc _ ↦ some h.previous_hash ]

abbrev returned : Result Outcome → Result Turn
returned (ok outcome) = ok (done outcome)
returned (err e) = err e

module _ {E P : Type 0} (walk : Walk E P) where
  abbrev pub settle : Progress → Error → FailureMode → M E Turn
  settle p e mode w =
      let (r, w') = settle_failure walk e p.coverage.target_tip p.blocks p.pages mode w in
      (returned r, w')

  abbrev pub restart : Progress → ObservedBlock → M E Turn
  restart p target = do
    coverage ← begin_full_cycle walk target p.coverage.effective_page_blocks
    pure (again (record p { coverage = coverage; restarted = true }))

  -- The page request was too large: the same cursor again with half the page.
  unfoldable pub shrink_page : Progress → Error → M E Turn
  unfolding ◌>>=◌ store_call resize_history_page settle_failure
  shrink_page p e = do
    let reduced = max (p.coverage.effective_page_blocks / 2) 1
    resized ← attempt (
        store_call walk.io
          (resize_history_page walk.store walk.stream.scope.key reduced (walk.ext.error_text e)))
    elim resized [
      | ok _ ↦
          pure
            (again (record p { coverage = record p.coverage { effective_page_blocks = reduced } }))
      | err resize_error ↦
          settle p (message "persisting the reduced history page size" ∷ resize_error) fatal
    ]

  abbrev pub availability : Progress → ObservedBlock → M E (Option Bool)
  availability p current =
      if same bytes_discrete current.hash p.coverage.target_tip.hash then pure (some true) else do
        probed ← attempt (target_is_available walk p.coverage.target_tip)
        pure (elim probed [ ok found ↦ found | err _ ↦ none ])

  -- The cursor is gone: a target that has left the chain is replaced by the tip, else the walk waits.
  unfoldable pub handle_unavailable : Progress → Error → M E Turn
  unfolding ◌>>=◌ store_call begin_full_cycle target_is_available settle_failure replacement_target
      retryable_rpc_error
  handle_unavailable p e = do
    tip ← attempt (rpc walk.io.current_tip)
    elim tip [
      | err tip_error ↦
          settle p
            (message "reading the current tip after an unavailable history cursor" ∷ tip_error)
            (if retryable_rpc_error tip_error then deferrable else fatal)
      | ok current ↦ do
        available ← availability p current
        elim (replacement_target current p.coverage.target_tip available) [
          | some replacement ↦ restart p replacement
          | none ↦ settle p e deferrable
        ]
    ]

  abbrev pub lower_floor : Progress → ObservedBlock → BlockHeader → Progress
  lower_floor p cursor h = record p {
    coverage = record p.coverage {
      floor_height = checked_pred h.height;
      floor_hash = floor_below h;
    };
  }

  -- A certified block in the page becomes the floor, and the payloads below it are dropped.
  unfoldable pub cut_at_certified :
      Progress → ObservedBlock → List P → List BlockHeader → M E (Progress × List P × Bool)
  unfolding ◌>>=◌ store_call certified_history_floor set_history_floor
  cut_at_certified p cursor payloads headers = do
    certified ←
        store_call walk.io
          (certified_history_floor walk.store walk.stream.scope.key (map (λ h. h.hash) headers))
    elim certified [
      | none ↦ pure (p, payloads, false)
      | some block ↦ do
        index ← lift (or_bail (position block.hash headers) "certified block was not in the page")
        header ← lift (or_bail (header_at index headers) "certified block was not in the page")
        let lowered = lower_floor p cursor header
        store_call walk.io (
            set_history_floor walk.store walk.stream.scope.key cursor lowered.coverage.floor_hash
              lowered.coverage.floor_height)
        pure (lowered, take (suc index) payloads, true)
    ]
