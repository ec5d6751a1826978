-- ===== src/Runtime/Stream.antt =====
-- One slot's live stream: `forward_stream` of extractors/enforcer/src/runtime.rs, with the instants as
-- numbers. What a delivered response goes through, `convert::subscription_event`, the anchor and the
-- publication, is one function that may fail.
pub mod Laws
use bip300_monitor.Base.{
  ℕ, suc, ◌+◌, ◌-◌, ◌^◌, min, Bool, true, false, Option, none, some, ◌==◌, leb, if◌then◌else◌, ◌∷◌,
}
use bip300_monitor.Failure.{Result, ok, err, message, bail, context, ◌>>=◌}
use bip300_monitor.Proto.{ObservedBlock}

-- The loop's variables.
pub record Forwarding : Type 0 where
  pub live_events : ℕ
  pub checked_live_events : ℕ
  pub stalled_tip : Option ObservedBlock
  pub stall_deadline : Option ℕ

abbrev pub started : Forwarding
started = record {
  live_events = 0;
  checked_live_events = 0;
  stalled_tip = none;
  stall_deadline = none;
}

-- What `select!` wakes up for: a shutdown, a tip at an instant, an instant at which the timer is
-- looked at, or the stream. A closed channel and an ended stream give nothing.
pub data Arrival (R : Type 0) : Type 0 where
  shut : Arrival R
  tip_seen : ℕ → Option ObservedBlock → Arrival R
  clock : ℕ → Arrival R
  delivered : Option (Result R) → Arrival R

-- How a turn ends: by a return, or with the variables of the next one.
pub data Forwarded : Type 0 where
  shut_down : Forwarded
  forwarding : Forwarding → Forwarded

module _ {R : Type 0} (stall_timeout : ℕ) (handle : R → Result (Unit {0})) where
  -- `get_or_insert_with`.
  abbrev pub armed_at : ℕ → Option ℕ → Option ℕ
  armed_at now (some deadline) = some deadline
  armed_at now none = some (now + stall_timeout)

  -- A tip: the timer is set where no event came since the last one.
  unfoldable pub check_tip : ℕ → ObservedBlock → Forwarding → Forwarding
  check_tip now tip s =
      if s.live_events == s.checked_live_events
      then record s {
        stalled_tip = some tip;
        stall_deadline = armed_at now s.stall_deadline;
        checked_live_events = s.live_events;
      }
      else record s {
        stalled_tip = none;
        stall_deadline = none;
        checked_live_events = s.live_events;
      }

  -- `wait_for_stream_stall`.
  abbrev pub check_stall : ℕ → Option ℕ → Forwarding → Result Forwarded
  check_stall now none s = ok (forwarding s)
  check_stall now (some deadline) s =
      if leb deadline now
      then bail "sidechain event stream delivered no event after the mainchain tip advanced"
      else ok (forwarding s)

  -- `live_events.saturating_add(1)`.
  abbrev pub count_event : Forwarding → Forwarding
  count_event s = record s {
    live_events = min (suc s.live_events) (2 ^ 64 - 1);
    stalled_tip = none;
    stall_deadline = none;
  }

  -- One turn of the loop.
  unfoldable pub forward_turn : Arrival R → Forwarding → Result Forwarded
  unfolding check_tip
  forward_turn shut s = ok shut_down
  forward_turn (tip_seen now none) s =
      bail "mainchain tip observer stopped while the sidechain was running"
  forward_turn (tip_seen now (some tip)) s = ok (forwarding (check_tip now tip s))
  forward_turn (clock now) s = check_stall now s.stall_deadline s
  forward_turn (delivered none) s = bail "sidechain event stream ended unexpectedly"
  forward_turn (delivered (some (err e))) s = err (message "receiving a live event" ∷ e)
  forward_turn (delivered (some (ok response))) s = do
    context (handle response) "forwarding a live event" >>= λ _. ok (forwarding (count_event s))
