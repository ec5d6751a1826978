-- ===== src/Backfill/Turn.antt =====
-- `run_history` of extractors/enforcer/src/backfill.rs: one turn of its loop cut at its branches, and
-- the loop itself.
use bip300_monitor.Base.{
  ℕ, zero, suc, ◌+◌, min, Bool, true, false, ◌&&◌, ◌||◌, not, Option, none, some, List, [], ◌∷◌,
  bytes_discrete, length, last_or, same, ltb, ◌==◌, is_none, if◌then◌else◌,
}
use bip300_monitor.Failure.{
  Result, ok, err, message, or_bail, bail, traverse, page_too_large, retryable_rpc_error,
  is_history_conflict,
}
use bip300_monitor.Proto.{ObservedBlock, BlockHeader, at_height}
use bip300_monitor.Store.Types.{required_height}
use bip300_monitor.Store.Page.{record_history_page}
use bip300_monitor.Backfill.Page.{
  blocks_through_floor, validate_expected_start_hash, verify_page_with, historical_events,
}
use bip300_monitor.Backfill.World.{M, pure, fail, lift, attempt, ask, rpc, store_call, ◌>>=◌, ◌>>◌}
use bip300_monitor.Backfill.Cycle.{
  Outcome, up_to_date, completed, superseded_scope, interrupted, quarantined, fatal, deferrable,
  Walk, scope_is_current, mark_superseded, is_quarantined, begin_full_cycle, prepare_cycle,
  settle_failure,
}
use bip300_monitor.Backfill.Round.{
  Progress, Turn, done, again, checked_pred, settle, restart, shrink_page, handle_unavailable,
  cut_at_certified,
}

module _ {E P : Type 0} (walk : Walk E P) where
  abbrev pub unreached_floor : Progress → BlockHeader → Bool → Bool
  unreached_floor p oldest completes_cycle = elim p.coverage.floor_hash [
    | none ↦ false
    | some floor ↦ completes_cycle && not (same bytes_discrete oldest.previous_hash floor)
  ]

  -- `next`: the parent of the oldest block, or nothing at the end of the cycle.
  unfoldable pub next_cursor : BlockHeader → Bool → Result (Option ObservedBlock)
  unfolding at_height
  next_cursor oldest true = ok none
  next_cursor oldest false = elim (checked_pred oldest.height) [
    | none ↦ bail "a non-final history page cannot end at genesis"
    | some height ↦ ok (some (at_height oldest.previous_hash height))
  ]

  abbrev pub advanced : Progress → ℕ → ℕ → Option ObservedBlock → Progress
  advanced p count inserted next = record p {
    coverage = record p.coverage {
      rows_recorded = p.coverage.rows_recorded + inserted;
      next = next;
    };
    blocks = p.blocks + count;
    pages = p.pages + 1;
  }

  abbrev pub after_page : Bool → Progress → Option ObservedBlock → M E Turn
  after_page has_pause p none = pure (done (completed p.coverage.target_tip p.blocks p.pages))
  after_page true p (some _) = do
    stop ← ask walk.io.shutdown_while_paused
    pure (if stop then done (interrupted p.coverage.target_tip p.blocks p.pages) else again p)
  after_page false p (some _) = pure (again p)

  -- The page goes to the record, and the cursor with it.
  unfoldable pub record_page :
      Bool → Progress → ObservedBlock → List P → BlockHeader → Bool → M E Turn
  unfolding ◌>>=◌ store_call historical_events record_history_page settle_failure
      is_history_conflict next_cursor
  record_page has_pause p cursor payloads oldest completes_cycle = do
    next ← lift (next_cursor oldest completes_cycle)
    events ← lift (historical_events walk.stream payloads)
    recorded ← attempt (
        store_call walk.io (
          record_history_page walk.ext walk.store events
            (record { scope = walk.stream.scope.key; expected_next = cursor; next = next })))
    elim recorded [
      | ok inserted ↦ after_page has_pause (advanced p (length events) inserted next) next
      | err e ↦
          if is_history_conflict e
          then pure (done (quarantined p.coverage.target_tip))
          else settle walk p (message "recording a historical page" ∷ e) fatal
    ]

  abbrev pub last_payload : List P → Result P
  last_payload [] = bail "a verified historical page is not empty"
  last_payload (x ∷ xs) = ok (last_or x xs)

  -- The end of a cycle is checked against the expected start and the floor before the page is written.
  unfoldable pub finish_page : Bool → Progress → ObservedBlock → ℕ → List P → Bool → M E Turn
  unfolding ◌>>=◌ validate_expected_start_hash settle_failure begin_full_cycle record_page
      bytes_discrete
  finish_page has_pause p cursor remaining payloads certified = do
    oldest_payload ← lift (last_payload payloads)
    oldest ← lift (walk.stream.header oldest_payload)
    let completes_cycle = certified || length payloads == remaining
    elim (validate_expected_start_hash walk.stream.scope p.coverage.floor_hash completes_cycle
        oldest.hash) [
          | err e ↦ settle walk p e fatal
          | ok _ ↦
              if unreached_floor p oldest completes_cycle
              then (if p.restarted
                  then settle walk p (message "history branch still failed to reach its floor" ∷ [])
                      fatal
                  else restart walk p p.coverage.target_tip)
              else record_page has_pause p cursor payloads oldest completes_cycle
        ]

  -- A page was found: it is verified, cut, and written.
  unfoldable pub handle_found : Bool → Progress → ObservedBlock → ℕ → ℕ → List P → M E Turn
  unfolding ◌>>=◌ verify_page_with settle_failure cut_at_certified finish_page
  handle_found has_pause p cursor remaining requested payloads =
      elim (verify_page_with walk.stream payloads cursor requested) [
        | err e ↦ settle walk p (message "validating a historical page" ∷ e) fatal
        | ok _ ↦ do
          headers ← lift (traverse walk.stream.header payloads)
          cut ← cut_at_certified walk p cursor payloads headers
          finish_page has_pause cut.0 cursor remaining cut.1 cut.2
      ]

  -- The five arms on the answer to the page request.
  unfoldable pub handle_answer :
      Bool → Progress → ObservedBlock → ℕ → ℕ → Result (List P) → M E Turn
  unfolding handle_found handle_unavailable shrink_page settle_failure page_too_large
      retryable_rpc_error
  handle_answer has_pause p cursor remaining requested (ok []) =
      handle_unavailable walk p (message "history cursor was not found" ∷ [])
  handle_answer has_pause p cursor remaining requested (ok (x ∷ xs)) =
      handle_found has_pause p cursor remaining requested (x ∷ xs)
  handle_answer has_pause p cursor remaining requested (err e) =
      if walk.stream.unavailable_error e
      then handle_unavailable walk p e
      else if page_too_large e && ltb 1 p.coverage.effective_page_blocks
      then shrink_page walk p e
      else if retryable_rpc_error e
      then settle walk p (message "the history page request failed transiently" ∷ e) deferrable
      else settle walk p e fatal

  -- The request of one page at the cursor.
  unfoldable pub request_page : Bool → Progress → M E Turn
  unfolding ◌>>=◌ required_height blocks_through_floor handle_answer
  request_page has_pause p = do
    cursor ← lift (or_bail p.coverage.next "a running history cursor is missing its next block")
    cursor_height ← lift (required_height cursor "history cursor")
    remaining ← lift (blocks_through_floor cursor_height p.coverage.floor_height)
    let requested = min remaining p.coverage.effective_page_blocks
    answer ← attempt (rpc (walk.io.fetch cursor requested))
    handle_answer has_pause p cursor remaining requested answer

  -- One turn of the loop.
  unfoldable pub turn : Bool → Progress → M E Turn
  unfolding ◌>>=◌ scope_is_current mark_superseded request_page
  turn has_pause p = do
    stop ← ask walk.io.shutdown_requested
    if stop then pure (done (interrupted p.coverage.target_tip p.blocks p.pages)) else do
      current ← scope_is_current walk
      if current then request_page has_pause p else do
        mark_superseded walk
        pure (done (superseded_scope p.coverage.target_tip p.blocks p.pages))

  -- The loop. Running out of turns is an error of the model, with no cause.
  unfoldable pub turns : ℕ → Bool → Progress → M E Outcome
  unfolding ◌>>=◌ turn
  turns zero has_pause p = fail []
  turns (suc n) has_pause p = do
    t ← turn has_pause p
    elim t [ done outcome ↦ pure outcome | again p' ↦ turns n has_pause p' ]

  -- `run_history`.
  unfoldable pub run_history : ℕ → Bool → ObservedBlock → ℕ → M E Outcome
  unfolding ◌>>=◌ scope_is_current mark_superseded is_quarantined prepare_cycle turns
  run_history fuel has_pause tip configured = do
    current ← scope_is_current walk
    if not current then (do mark_superseded walk; pure (superseded_scope tip 0 0)) else do
      conflicting ← is_quarantined walk
      if conflicting then pure (quarantined tip) else do
        prepared ← prepare_cycle walk tip configured
        elim prepared [
          | none ↦ pure (up_to_date tip)
          | some coverage ↦ turns fuel has_pause (record {
            coverage = coverage;
            blocks = 0;
            pages = 0;
            restarted = is_none coverage.floor_hash;
          })
        ]
