-- ===== src/Backfill/Consistency/Turn.antt =====
-- The invariant of the coverage table through the turns of `run_history`, and the whole walk.
use bip300_monitor.Base.{
  ℕ, zero, suc, ◌&&◌, ◌||◌, not, min, Bool, true, false, Option, none, some, List, [], ◌∷◌, length,
  ltb, ◌==◌, is_none, if◌then◌else◌,
}
use bip300_monitor.Failure.{
  Result, ok, err, message, page_too_large, retryable_rpc_error, is_history_conflict, traverse,
  or_bail,
}
use bip300_monitor.Proto.{ObservedBlock, BlockHeader, Event}
use bip300_monitor.Store.Types.{ScopeKey, HistoryCoverage, required_height}
use bip300_monitor.Store.Page.{record_history_page}
use bip300_monitor.Store.Invariant.{IsConsistent}
use bip300_monitor.Store.Invariant.Page.{record_history_page-IsConsistent}
use bip300_monitor.Backfill.Page.{
  blocks_through_floor, validate_expected_start_hash, historical_events,
}
use bip300_monitor.Backfill.World.{World, M, pure, lift, attempt, rpc, store_call, ◌>>=◌}
use bip300_monitor.Backfill.Consistency.{
  Keeps, Keeps-pure, Keeps-fail, Keeps-lift, Keeps-ask, Keeps-rpc, Keeps-attempt, Keeps-if,
  Keeps-bind, Keeps-store_call,
}
use bip300_monitor.Backfill.Cycle.{
  quarantined, up_to_date, interrupted, superseded_scope, fatal, deferrable, Walk,
}
use bip300_monitor.Backfill.Round.{Progress, Turn, done, again, settle, restart, cut_at_certified}
use bip300_monitor.Backfill.Turn.{
  next_cursor, last_payload, after_page, advanced, unreached_floor, record_page, finish_page,
  handle_found, handle_answer, request_page, turn, turns, run_history,
}
use bip300_monitor.Backfill.Consistency.Arms.{
  Keeps-shrink_page, Keeps-handle_unavailable, Keeps-cut_at_certified,
}
use bip300_monitor.Backfill.Consistency.Cycle.{
  Keeps-scope_is_current, Keeps-mark_superseded, Keeps-is_quarantined, Keeps-prepare_cycle,
  Keeps-settle, Keeps-restart,
}

module _ {E P : Type 0} (walk : Walk E P) where
  abbrev scope_key : ScopeKey
  scope_key = walk.stream.scope.key

  Keeps-after_page :
      (pause : Bool) (p : Progress) (next : Option ObservedBlock)
      → Keeps (after_page walk pause p next)
  Keeps-after_page pause p none = Keeps-pure _
  Keeps-after_page true p (some b) =
      Keeps-bind _ _ (Keeps-ask walk.io.shutdown_while_paused) λ stop. Keeps-pure _
  Keeps-after_page false p (some b) = Keeps-pure _

  abbrev write : List Event → ObservedBlock → Option ObservedBlock → M E ℕ
  write events cursor next = store_call walk.io (
      record_history_page walk.ext walk.store events
        (record { scope = scope_key; expected_next = cursor; next = next }))

  Keeps-written :
      (pause : Bool) (p : Progress) (events : List Event) (next : Option ObservedBlock)
      (recorded : Result ℕ)
      → Keeps (elim recorded [
        | ok inserted ↦ after_page walk pause (advanced walk p (length events) inserted next) next
        | err e ↦
            if is_history_conflict e
            then pure (done (quarantined p.coverage.target_tip))
            else settle walk p (message "recording a historical page" ∷ e) fatal
      ])
  Keeps-written pause p events next (ok inserted) = Keeps-after_page pause _ next
  Keeps-written pause p events next (err e) =
      Keeps-if (is_history_conflict e) _ _ (Keeps-pure _) (Keeps-settle walk p _ fatal)

  Keeps-record_page :
      (pause : Bool) (p : Progress) (cursor : ObservedBlock) (payloads : List P)
      (oldest : BlockHeader) (completes : Bool)
      → Keeps (record_page walk pause p cursor payloads oldest completes)
  unfolding record_page
  Keeps-record_page pause p cursor payloads oldest completes =
      Keeps-bind _ _ (Keeps-lift (next_cursor walk oldest completes)) λ next.
        Keeps-bind _ _ (Keeps-lift (historical_events walk.stream payloads)) λ events.
          Keeps-bind (attempt (write events cursor next)) _
            (Keeps-attempt _ (
              Keeps-store_call walk.io _ λ db h.
                record_history_page-IsConsistent walk.ext walk.store
                  (record { scope = scope_key; expected_next = cursor; next = next }) db h events))
            λ recorded. Keeps-written pause p events next recorded

  Keeps-joined :
      (pause : Bool) (p : Progress) (cursor : ObservedBlock) (payloads : List P)
      (oldest : BlockHeader) (completes : Bool) (start : Result (Unit {0}))
      → Keeps (elim start [
        | err e ↦ settle walk p e fatal
        | ok _ ↦
            if unreached_floor walk p oldest completes
            then (if p.restarted
                then settle walk p
                    (message "history branch still failed to reach its floor" ∷ [])
                    fatal
                else restart walk p p.coverage.target_tip)
            else record_page walk pause p cursor payloads oldest completes
      ])
  Keeps-joined pause p cursor payloads oldest completes (err e) = Keeps-settle walk p e fatal
  Keeps-joined pause p cursor payloads oldest completes (ok _) =
      Keeps-if (unreached_floor walk p oldest completes) _ _
        (Keeps-if p.restarted _ _ (Keeps-settle walk p _ fatal)
          (Keeps-restart walk p p.coverage.target_tip))
        (Keeps-record_page pause p cursor payloads oldest completes)

  Keeps-finish_page :
      (pause : Bool) (p : Progress) (cursor : ObservedBlock) (remaining : ℕ) (payloads : List P)
      (certified : Bool)
      → Keeps (finish_page walk pause p cursor remaining payloads certified)
  unfolding finish_page
  Keeps-finish_page pause p cursor remaining payloads certified =
      Keeps-bind _ _ (Keeps-lift (last_payload walk payloads)) λ last.
        Keeps-bind _ _ (Keeps-lift (walk.stream.header last)) λ oldest.
          Keeps-joined pause p cursor payloads oldest (certified || length payloads == remaining) (
            validate_expected_start_hash walk.stream.scope p.coverage.floor_hash
              (certified || length payloads == remaining) oldest.hash)

  Keeps-verified :
      (pause : Bool) (p : Progress) (cursor : ObservedBlock) (remaining : ℕ) (payloads : List P)
      (verified : Result (Unit {0}))
      → Keeps (elim verified [
        | err e ↦ settle walk p (message "validating a historical page" ∷ e) fatal
        | ok _ ↦ lift (traverse walk.stream.header payloads) >>= λ headers.
            cut_at_certified walk p cursor payloads headers >>= λ cut.
            finish_page walk pause cut.0 cursor remaining cut.1 cut.2
      ])
  Keeps-verified pause p cursor remaining payloads (err e) = Keeps-settle walk p _ fatal
  Keeps-verified pause p cursor remaining payloads (ok _) = Keeps-bind _ _ (Keeps-lift _) λ headers.
      Keeps-bind _ _ (Keeps-cut_at_certified walk p cursor payloads headers)
        λ cut. Keeps-finish_page pause cut.0 cursor remaining cut.1 cut.2

  Keeps-handle_answer :
      (pause : Bool) (p : Progress) (cursor : ObservedBlock) (remaining requested : ℕ)
      (answer : Result (List P))
      → Keeps (handle_answer walk pause p cursor remaining requested answer)
  unfolding handle_answer handle_found
  Keeps-handle_answer pause p cursor remaining requested (ok []) = Keeps-handle_unavailable walk p _
  Keeps-handle_answer pause p cursor remaining requested (ok (x ∷ xs)) =
      Keeps-verified pause p cursor remaining (x ∷ xs) _
  Keeps-handle_answer pause p cursor remaining requested (err e) =
      Keeps-if (walk.stream.unavailable_error e) _ _ (Keeps-handle_unavailable walk p e) (
        Keeps-if (page_too_large e && ltb 1 p.coverage.effective_page_blocks) _ _
          (Keeps-shrink_page walk p e)
          (Keeps-if (retryable_rpc_error e) _ _ (Keeps-settle walk p _ deferrable)
            (Keeps-settle walk p e fatal)))

  Keeps-request_page : (pause : Bool) (p : Progress) → Keeps (request_page walk pause p)
  unfolding request_page
  Keeps-request_page pause p =
      Keeps-bind _ _
        (Keeps-lift (or_bail p.coverage.next "a running history cursor is missing its next block"))
        λ cursor. Keeps-bind _ _ (Keeps-lift (required_height cursor "history cursor")) λ height.
          Keeps-bind _ _ (Keeps-lift (blocks_through_floor height p.coverage.floor_height))
            λ remaining.
              let requested = min remaining p.coverage.effective_page_blocks in
              Keeps-bind (attempt (rpc (walk.io.fetch cursor requested))) _
                (Keeps-attempt (rpc (walk.io.fetch cursor requested))
                  (Keeps-rpc (walk.io.fetch cursor requested)))
                λ answer. Keeps-handle_answer pause p cursor remaining requested answer

  Keeps-turn : (pause : Bool) (p : Progress) → Keeps (turn walk pause p)
  unfolding turn
  Keeps-turn pause p = Keeps-bind _ _ (Keeps-ask walk.io.shutdown_requested) λ stop.
      Keeps-if stop _ _ (Keeps-pure (done (interrupted p.coverage.target_tip p.blocks p.pages))) (
        Keeps-bind _ _ (Keeps-scope_is_current walk) λ current.
          Keeps-if current _ _ (Keeps-request_page pause p) (
            Keeps-bind _ _ (Keeps-mark_superseded walk)
              λ _. Keeps-pure (done (superseded_scope p.coverage.target_tip p.blocks p.pages))))

  Keeps-next :
      (n : ℕ) (pause : Bool) (t : Turn)
      → ((p : Progress) → Keeps (turns walk n pause p))
      → Keeps {E = E} (elim t [ done outcome ↦ pure outcome | again p ↦ turns walk n pause p ])
  Keeps-next n pause (done outcome) rec = Keeps-pure outcome
  Keeps-next n pause (again p) rec = rec p

  Keeps-turns : (fuel : ℕ) (pause : Bool) (p : Progress) → Keeps (turns walk fuel pause p)
  unfolding turns
  Keeps-turns zero pause p = Keeps-fail []
  Keeps-turns (suc n) pause p =
      Keeps-bind _ _ (Keeps-turn pause p) λ t. Keeps-next n pause t (λ p'. Keeps-turns n pause p')

  Keeps-prepared :
      (fuel : ℕ) (pause : Bool) (tip : ObservedBlock) (prepared : Option HistoryCoverage)
      → Keeps {E = E} (elim prepared [
        | none ↦ pure (up_to_date tip)
        | some coverage ↦ turns walk fuel pause (record {
          coverage = coverage;
          blocks = 0;
          pages = 0;
          restarted = is_none coverage.floor_hash;
        })
      ])
  Keeps-prepared fuel pause tip none = Keeps-pure _
  Keeps-prepared fuel pause tip (some c) = Keeps-turns fuel pause _

  Keeps-run_history :
      (fuel : ℕ) (pause : Bool) (tip : ObservedBlock) (configured : ℕ)
      → Keeps (run_history walk fuel pause tip configured)
  unfolding run_history
  Keeps-run_history fuel pause tip configured =
      Keeps-bind _ _ (Keeps-scope_is_current walk) λ current.
        Keeps-if (not current) _ _
          (Keeps-bind _ _ (Keeps-mark_superseded walk) λ _. Keeps-pure (superseded_scope tip 0 0))
          (Keeps-bind _ _ (Keeps-is_quarantined walk) λ conflicting.
            Keeps-if conflicting _ _ (Keeps-pure (quarantined tip)) (
              Keeps-bind _ _ (Keeps-prepare_cycle walk tip configured)
                λ prepared. Keeps-prepared fuel pause tip prepared))

  -- However a walk ends, by a return, by an error, or by running out of turns, the coverage table it
  -- leaves is consistent where the one it found was: whatever the client answers, whichever database
  -- calls fail, and whatever facts the other workers write between two calls.
  pub run_history-IsConsistent :
      (fuel : ℕ) (pause : Bool) (tip : ObservedBlock) (configured : ℕ) (w : World E)
      → IsConsistent w.db
      → IsConsistent (run_history walk fuel pause tip configured w).1.db
  run_history-IsConsistent fuel pause tip configured w h =
      (Keeps-run_history fuel pause tip configured).at w h
