-- ===== src/Backfill/Consistency/Arms.antt =====
-- The invariant of the coverage table through the arms of `run_history`: the smaller page, the
-- unavailable cursor, and the page cut at a certified block.
use bip300_monitor.Base.{
  ℕ, suc, ◌/◌, max, Bool, true, false, Option, none, some, List, ◌∷◌, bytes_discrete, same, take,
  if◌then◌else◌,
}
use bip300_monitor.Failure.{Error, Result, ok, err, message, retryable_rpc_error, or_bail}
use bip300_monitor.Proto.{ObservedBlock, BlockHeader}
use bip300_monitor.Store.Types.{ScopeKey}
use bip300_monitor.Store.History.{certified_history_floor, set_history_floor, resize_history_page}
use bip300_monitor.Store.Invariant.Cursor.{
  set_history_floor-IsConsistent, resize_history_page-IsConsistent,
}
use bip300_monitor.Backfill.Page.{replacement_target}
use bip300_monitor.Backfill.World.{M, pure, lift, attempt, rpc, store_call, ◌>>=◌, ◌>>◌}
use bip300_monitor.Backfill.Consistency.{
  Keeps, Keeps-pure, Keeps-lift, Keeps-rpc, Keeps-attempt, Keeps-if, Keeps-bind, Keeps-store_call,
}
use bip300_monitor.Backfill.Cycle.{fatal, deferrable, Walk, target_is_available}
use bip300_monitor.Backfill.Round.{
  Progress, again, settle, restart, shrink_page, availability, handle_unavailable, cut_at_certified,
  position, header_at, lower_floor,
}
use bip300_monitor.Backfill.Consistency.Cycle.{
  Keeps-target_is_available, Keeps-settle, Keeps-restart,
}

module _ {E P : Type 0} (walk : Walk E P) where
  abbrev scope_key : ScopeKey
  scope_key = walk.stream.scope.key

  abbrev resize : ℕ → Error → M E (Unit {0})
  resize n e =
      store_call walk.io (resize_history_page walk.store scope_key n (walk.ext.error_text e))

  Keeps-shrunk :
      (p : Progress) (n : ℕ) (resized : Result (Unit {0}))
      → Keeps {E = E} (elim resized [
        | ok _ ↦
            pure (again (record p { coverage = record p.coverage { effective_page_blocks = n } }))
        | err resize_error ↦
            settle walk p (message "persisting the reduced history page size" ∷ resize_error) fatal
      ])
  Keeps-shrunk p n (ok _) = Keeps-pure _
  Keeps-shrunk p n (err e) = Keeps-settle walk p _ fatal

  pub Keeps-shrink_page : (p : Progress) (e : Error) → Keeps (shrink_page walk p e)
  unfolding shrink_page
  Keeps-shrink_page p e =
      let n = max (p.coverage.effective_page_blocks / 2) 1 in
      Keeps-bind (attempt (resize n e)) _
        (Keeps-attempt (resize n e) (
          Keeps-store_call walk.io _ λ db h.
            resize_history_page-IsConsistent walk.store scope_key db h n (walk.ext.error_text e)))
        λ r. Keeps-shrunk p n r

  Keeps-availability :
      (p : Progress) (current : ObservedBlock) → Keeps (availability walk p current)
  Keeps-availability p current =
      Keeps-if (same bytes_discrete current.hash p.coverage.target_tip.hash) _ _ (Keeps-pure _) (
        Keeps-bind (attempt (target_is_available walk p.coverage.target_tip)) _
          (Keeps-attempt _ (Keeps-target_is_available walk p.coverage.target_tip))
          λ probed. Keeps-pure _)

  Keeps-replaced :
      (p : Progress) (e : Error) (replacement : Option ObservedBlock)
      → Keeps (elim replacement [
        | some target ↦ restart walk p target
        | none ↦ settle walk p e deferrable
      ])
  Keeps-replaced p e none = Keeps-settle walk p e deferrable
  Keeps-replaced p e (some target) = Keeps-restart walk p target

  Keeps-with_tip :
      (p : Progress) (e : Error) (tip : Result ObservedBlock)
      → Keeps (elim tip [
        | err tip_error ↦
            settle walk p
              (message "reading the current tip after an unavailable history cursor" ∷ tip_error)
              (if retryable_rpc_error tip_error then deferrable else fatal)
        | ok current ↦ availability walk p current >>= λ available.
            elim (replacement_target current p.coverage.target_tip available) [
              | some replacement ↦ restart walk p replacement
              | none ↦ settle walk p e deferrable
            ]
      ])
  Keeps-with_tip p e (err x) = Keeps-settle walk p _ _
  Keeps-with_tip p e (ok current) =
      Keeps-bind _ _ (Keeps-availability p current) λ available. Keeps-replaced p e _

  pub Keeps-handle_unavailable : (p : Progress) (e : Error) → Keeps (handle_unavailable walk p e)
  unfolding handle_unavailable
  Keeps-handle_unavailable p e =
      Keeps-bind (attempt (rpc walk.io.current_tip)) _
        (Keeps-attempt (rpc walk.io.current_tip) (Keeps-rpc walk.io.current_tip))
        λ tip. Keeps-with_tip p e tip

  abbrev cut_with :
      Progress
      → ObservedBlock
      → List P
      → List BlockHeader
      → Option ObservedBlock
      → M E (Progress × List P × Bool)
  cut_with p cursor payloads headers certified = elim certified [
    | none ↦ pure (p, payloads, false)
    | some block ↦ do
      index ← lift (or_bail (position block.hash headers) "certified block was not in the page")
      header ← lift (or_bail (header_at index headers) "certified block was not in the page")
      store_call walk.io (
          set_history_floor walk.store walk.stream.scope.key cursor
            (lower_floor walk p cursor header).coverage.floor_hash
            (lower_floor walk p cursor header).coverage.floor_height)
      pure (lower_floor walk p cursor header, take (suc index) payloads, true)
  ]

  Keeps-cut_with :
      (p : Progress) (cursor : ObservedBlock) (payloads : List P) (headers : List BlockHeader)
      (certified : Option ObservedBlock)
      → Keeps (cut_with p cursor payloads headers certified)
  Keeps-cut_with p cursor payloads headers none = Keeps-pure _
  Keeps-cut_with p cursor payloads headers (some block) = Keeps-bind _ _ (Keeps-lift _) λ index.
      Keeps-bind _ _ (Keeps-lift _) λ header.
        Keeps-bind _ _
          (Keeps-store_call walk.io _ λ db h.
            set_history_floor-IsConsistent walk.store scope_key db h cursor
              (lower_floor walk p cursor header).coverage.floor_hash
              (lower_floor walk p cursor header).coverage.floor_height)
          λ _. Keeps-pure _

  pub Keeps-cut_at_certified :
      (p : Progress) (cursor : ObservedBlock) (payloads : List P) (headers : List BlockHeader)
      → Keeps (cut_at_certified walk p cursor payloads headers)
  unfolding cut_at_certified
  Keeps-cut_at_certified p cursor payloads headers =
      Keeps-bind _ _ (Keeps-store_call walk.io _ (unfold certified_history_floor in λ db h. h))
        λ certified. Keeps-cut_with p cursor payloads headers certified
