-- ===== src/Backfill/Page.antt =====
-- The pure parts of extractors/enforcer/src/backfill.rs: the stream adapter, the checks on one page,
-- and the arithmetic of the cursor.
pub mod Chain
pub mod Block
use bip300_monitor.Base.{
  ℕ, suc, ◌+◌, ◌-◌, ◌^◌, min, Bool, true, false, ◌&&◌, Option, none, some, List, [], ◌∷◌, Bytes,
  bytes_discrete, length, last_or, reverse, same, ltb, ◌==◌, if◌then◌else◌,
}
use bip300_monitor.Failure.{Error, Result, ok, bail, or_bail, traverse, ensure, ◌>>=◌, ◌>>◌}
use bip300_monitor.Proto.{
  ObservedBlock, BlockHeader, Event, EnforcerEvent, block_connected, at_height,
}
use bip300_monitor.Store.Types.{ScopeKey, required_height}

pub record HistoryScope : Type 0 where
  pub key : ScopeKey
  pub activation_height : ℕ
  pub expected_start_hash : Option Bytes

-- The part of the trait `HistoryStream` that does not call the client.
pub record HistoryStream (P : Type 0) : Type 0 where
  pub scope : HistoryScope
  pub header : P → Result BlockHeader
  pub envelope : P → ObservedBlock → Result Event
  pub unavailable_error : Error → Bool
  pub inconclusive_probe_error : Error → Bool

-- `connected_header`.
unfoldable pub connected_header : EnforcerEvent → Result BlockHeader
connected_header event = elim event.event [
  | some (block_connected header _ _) ↦
      or_bail header "a historical connected block is missing its header"
  | _ ↦ bail "a historical block carried an unexpected payload"
]

-- `u32::saturating_add(1)`.
abbrev pub saturating_succ : ℕ → ℕ
saturating_succ h = min (h + 1) (2 ^ 32 - 1)

-- How many blocks lie from the cursor down to the exclusive floor.
unfoldable pub blocks_through_floor : ℕ → Option ℕ → Result ℕ
blocks_through_floor cursor_height (some floor_height) =
    if ltb floor_height cursor_height
    then ok (cursor_height - floor_height)
    else bail "history cursor is not above its exclusive floor"
blocks_through_floor cursor_height none = ok (cursor_height + 1)

unfoldable pub validate_expected_start_hash :
    HistoryScope → Option Bytes → Bool → Bytes → Result (Unit {0})
unfolding bytes_discrete
validate_expected_start_hash scope none true oldest = elim scope.expected_start_hash [
  | none ↦ ok tt
  | some expected ↦ ensure (same bytes_discrete oldest expected) "reached another activation block"
]
validate_expected_start_hash scope _ _ oldest = ok tt

-- A target is replaced only when a probe found it gone and the tip is another block.
unfoldable pub replacement_target :
    ObservedBlock → ObservedBlock → Option Bool → Option ObservedBlock
replacement_target current_tip persisted (some false) =
    if same bytes_discrete current_tip.hash persisted.hash then none else some current_tip
replacement_target current_tip persisted _ = none

module _ {P : Type 0} (stream : HistoryStream P) where
  -- The loop over `windows(2)`: each block is the parent of the one before it.
  unfoldable pub verify_windows : List P → Result (Unit {0})
  unfolding bytes_discrete
  verify_windows [] = ok tt
  verify_windows (newer ∷ []) = ok tt
  verify_windows (newer ∷ older ∷ rest) = do
    newer_header ← stream.header newer
    older_header ← stream.header older
    if same bytes_discrete newer_header.previous_hash older_header.hash
          && newer_header.height == saturating_succ older_header.height
        then verify_windows (older ∷ rest)
        else bail "historical page breaks between heights"

  abbrev verify_ends : P → List P → ObservedBlock → Result (Unit {0})
  verify_ends first rest cursor = do
    cursor_height ← required_height cursor "history page cursor"
    newest ← stream.header first
    ensure (same bytes_discrete newest.hash cursor.hash && newest.height == cursor_height)
        "historical page begins at another block"
    verify_windows (first ∷ rest)
    oldest ← stream.header (last_or first rest)
    expected_oldest ←
        (if ltb cursor_height (length rest)
          then bail "history page underflows genesis"
          else ok (cursor_height - length rest))
    ensure (oldest.height == expected_oldest) "historical page ends at another height"

  -- `verify_page_with`; `length rest` is `returned - 1`.
  unfoldable pub verify_page_with : List P → ObservedBlock → ℕ → Result (Unit {0})
  unfolding verify_windows required_height bytes_discrete
  verify_page_with [] cursor requested =
      bail "a historical page must request and return at least one block"
  verify_page_with (first ∷ rest) cursor requested =
      if requested == 0
      then bail "a historical page must request and return at least one block"
      else if ltb requested (suc (length rest))
      then bail "historical page returned more blocks than requested"
      else verify_ends first rest cursor

  historical_event : P → Result Event
  unfolding at_height
  historical_event payload = do
    header ← stream.header payload
    stream.envelope payload (at_height header.hash header.height)

  -- `historical_events`: oldest first, each anchored at its own block.
  unfoldable pub historical_events : List P → Result (List Event)
  unfolding historical_event
  historical_events payloads = traverse historical_event (reverse payloads)
