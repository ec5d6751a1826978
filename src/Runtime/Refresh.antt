-- ===== src/Runtime/Refresh.antt =====
-- The state worker: `refresh_on_new_blocks` of extractors/enforcer/src/runtime.rs. The source of
-- readings, the health report and the publication are calls on an environment.
pub mod Laws
use bip300_monitor.Base.{
  ℕ, zero, suc, Bool, true, false, not, ◌&&◌, ◌||◌, String, Option, none, some, List, ◌∷◌, Bytes,
  bytes_discrete, same, if◌then◌else◌,
}
use bip300_monitor.Failure.{Error, Result, ok, err, message}
use bip300_monitor.Effect.{Call, pure, lift, attempted, ◌>>=◌, ◌>>◌}
use bip300_monitor.Proto.{ObservedBlock, EnforcerEvent}
use bip300_monitor.State.{Tracked, Publication, needs_retry, take_observation}
use bip300_monitor.Store.Types.{SnapshotMetadata}
use bip300_monitor.Runtime.Sampling.{snapshot_max_attempts, within}

-- `state::Reading`.
pub record Reading : Type 0 where
  pub anchor : ObservedBlock
  pub payloads : List EnforcerEvent
  pub metadata : SnapshotMetadata

-- The worker's variables.
pub record Refresher : Type 0 where
  pub refreshed_at : Bytes
  pub read_failed : Bool
  pub tracker : Tracked

-- What the worker wakes up for: a shutdown, the timer, or the channel of blocks. A closed channel
-- gives nothing.
pub data RefreshWake : Type 0 where
  stopping retry_due : RefreshWake
  block_changed : Option Bytes → RefreshWake

-- The environment's answers. `latest` is the block that the channel holds.
pub record RefreshIo (E : Type 0) : Type 0 where
  pub select : E → RefreshWake × E
  pub latest : E → Bytes × E
  pub collect_state : Call E Reading
  pub health : Option Error → Call E (Unit {0})
  pub publish : ObservedBlock → Publication → SnapshotMetadata → Call E (Unit {0})

pub data RefreshEnd : Type 0 where
  stopped waiting : RefreshEnd

abbrev pub RefreshDesk : Type 0 → Type 0
RefreshDesk E = Refresher × E

-- The guard of the timer: something is left to read again.
unfoldable pub is_unsettled : Refresher → Bool
unfolding needs_retry
is_unsettled w = needs_retry w.tracker || w.read_failed

module _ {E : Type 0} (io : RefreshIo E) where
  abbrev pub ask : {A : Type 0} → Call E A → Call (RefreshDesk E) A
  ask call (w, env) = let (r, after) = call env in (r, (w, after))

  -- `tracker.take_observation`.
  unfoldable pub observe : Reading → Call (RefreshDesk E) Publication
  unfolding take_observation
  observe reading (w, env) =
      let (r, tracker) = take_observation reading.payloads reading.metadata.consistency w.tracker in
      (r, (record w { tracker = tracker }, env))

  abbrev pub note_read : Bool → Call (RefreshDesk E) (Unit {0})
  note_read failed (w, env) = (ok tt, (record w { read_failed = failed }, env))

  abbrev pub note_block : Bytes → Call (RefreshDesk E) (Unit {0})
  note_block block (w, env) = (ok tt, (record w { refreshed_at = block }, env))

  abbrev pub is_retried : Call (RefreshDesk E) Bool
  unfolding needs_retry
  is_retried (w, env) = (ok (needs_retry w.tracker), (w, env))

  -- What an attempt does with its reading: whether another attempt may follow.
  unfoldable pub handle_reading : Bytes → ℕ → Result Reading → Call (RefreshDesk E) Bool
  unfolding ◌>>=◌ observe needs_retry
  handle_reading block attempt (err e) = do
    note_read true
    ask (io.health (some (message "refreshing enforcer state" ∷ e)))
    pure false
  handle_reading block attempt (ok reading) = do
    note_read false
    ask (io.health none)
    note_block block
    publication ← observe reading
    ask (
        within
          (io.publish reading.anchor publication (record reading.metadata { attempts = attempt }))
          "publishing refreshed enforcer state")
    is_retried

  -- One attempt.
  unfoldable pub refresh_once : Bytes → ℕ → Call (RefreshDesk E) Bool
  unfolding ◌>>=◌ handle_reading
  refresh_once block attempt = do
    read ← attempted (ask io.collect_state)
    handle_reading block attempt read

  -- The attempts from a number on, of which so many are left.
  unfoldable pub refresh_attempts : ℕ → ℕ → Bytes → Call (RefreshDesk E) (Unit {0})
  unfolding ◌>>=◌ refresh_once
  refresh_attempts zero attempt block = pure tt
  refresh_attempts (suc left) attempt block = do
    again ← refresh_once block attempt
    elim again [ true ↦ refresh_attempts left (suc attempt) block | false ↦ pure tt ]

  -- A block that is refreshed already is skipped, unless something is left to read again.
  unfoldable pub refresh_block : Bytes → Call (RefreshDesk E) RefreshEnd
  unfolding ◌>>=◌ bytes_discrete needs_retry refresh_attempts
  refresh_block block (w, env) =
      if same bytes_discrete block w.refreshed_at
        && (not (needs_retry w.tracker) && not w.read_failed)
      then (ok waiting, (w, env))
      else (refresh_attempts snapshot_max_attempts 1 block >>= λ _. pure waiting) (w, env)

  abbrev pub refresh_latest : Call (RefreshDesk E) RefreshEnd
  unfolding refresh_block
  refresh_latest (w, env) = let (block, after) = io.latest env in refresh_block block (w, after)

  abbrev pub refresh_after : RefreshWake → Call (RefreshDesk E) RefreshEnd
  unfolding refresh_block is_unsettled
  refresh_after stopping desk = (ok stopped, desk)
  refresh_after (block_changed none) desk = (ok stopped, desk)
  refresh_after (block_changed (some _)) desk = refresh_latest desk
  refresh_after retry_due desk =
      if is_unsettled desk.0 then refresh_latest desk else (ok waiting, desk)

  -- One turn of `refresh_on_new_blocks`. A timer whose guard fails does not fire.
  unfoldable pub refresh_turn : Call (RefreshDesk E) RefreshEnd
  unfolding refresh_block is_unsettled
  refresh_turn (w, env) = let (wake, after) = io.select env in refresh_after wake (w, after)
