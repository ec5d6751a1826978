-- ===== src/Runtime/Schedule.antt =====
-- The worker that walks the history of each slot: `backfill_sidechains`, `schedule_backfill_retry` and
-- `queue_tip_reconciliations` of extractors/enforcer/src/runtime.rs. The channels, the timers, the store,
-- the walk itself and the RPC client answer from an environment.
pub mod Turn
pub mod Keeps
pub mod Retries
pub mod Served
use bip300_monitor.Base.{
  ℕ, zero, suc, Bool, true, false, not, ◌&&◌, String, string_discrete, Option, none, some, List, [],
  ◌∷◌, ◌++◌, Bytes, bytes_discrete, contains, filter, same, if◌then◌else◌,
}
use bip300_monitor.Proto.{ObservedBlock}
use bip300_monitor.Store.Types.{SidechainInstanceRef, instance_discrete}
use bip300_monitor.Slots.{Slots, get, insert, remove}

pub record BackfillRequest : Type 0 where
  pub instance : SidechainInstanceRef
  pub target : ObservedBlock

-- The variables of the loop. A timer of `retries` is the request that it gives back. The set `deferred`
-- (a `BTreeSet`) and the timers (a `FuturesUnordered`) are lists in the order of insertion, which no
-- code reads: it asks for membership, and a wake-up names the timer that is due.
pub record Scheduler : Type 0 where
  pub requests_open : Bool
  pub tip_updates_open : Bool
  pub activations : Slots SidechainInstanceRef
  pub pending : Slots BackfillRequest
  pub deferred : List String
  pub retries : List BackfillRequest

abbrev pub id_of : BackfillRequest → String
id_of request = request.instance.sidechain_instance_id

-- `schedule_backfill_retry`: one timer for each instance.
unfoldable pub schedule_backfill_retry : BackfillRequest → Scheduler → Scheduler
unfolding string_discrete
schedule_backfill_retry request s =
    if contains string_discrete s.deferred (id_of request) then s else record s {
      deferred = s.deferred ++ (id_of request ∷ []);
      retries = s.retries ++ (request ∷ []);
    }

-- `queue_tip_reconciliations`.
unfoldable pub queue_tip_reconciliations :
    Slots SidechainInstanceRef → ObservedBlock → Slots BackfillRequest → Slots BackfillRequest
queue_tip_reconciliations [] target pending = pending
queue_tip_reconciliations ((sidechain, instance) ∷ rest) target pending =
    queue_tip_reconciliations rest target
      (insert sidechain (record { instance = instance; target = target }) pending)

-- What `select!` wakes up for: a shutdown, the channel of requests, the timer at a position, or the
-- channel of tips. A closed channel gives nothing.
pub data Wake : Type 0 where
  shutdown : Wake
  received : Option BackfillRequest → Wake
  due : ℕ → Wake
  tip_changed : Option ObservedBlock → Wake

-- What the loop does next: it returns, goes on, or serves a request, which a timer gave back or not.
pub data Next : Type 0 where
  return_now : Next
  go_on : Scheduler → Next
  serve : BackfillRequest → Bool → Scheduler → Next

-- The timer at a position fires.
abbrev pub take_at : ℕ → List BackfillRequest → Option (BackfillRequest × List BackfillRequest)
take_at n [] = none
take_at zero (r ∷ rs) = some (r, rs)
take_at (suc n) (r ∷ rs) = elim (take_at n rs) [
  | none ↦ none
  | some taken ↦ some (taken.0, r ∷ taken.1)
]

abbrev pub wake_for_request : Option BackfillRequest → Scheduler → Next
wake_for_request (some request) s = serve request false s
wake_for_request none s = go_on (record s { requests_open = false })

abbrev pub wake_for_timer : Option (BackfillRequest × List BackfillRequest) → Scheduler → Next
wake_for_timer (some (request, left)) s = serve request true (record s { retries = left })
wake_for_timer none s = go_on s

unfoldable pub wake_for_tip : Option ObservedBlock → Scheduler → Next
unfolding queue_tip_reconciliations
wake_for_tip (some target) s =
    go_on (record s { pending = queue_tip_reconciliations s.activations target s.pending })
wake_for_tip none s = go_on (record s { tip_updates_open = false })

-- `tokio::select!`: a branch whose guard fails is not taken.
unfoldable pub wake_up : Wake → Scheduler → Next
unfolding wake_for_tip
wake_up shutdown s = return_now
wake_up (received request) s = if s.requests_open then wake_for_request request s else go_on s
wake_up (due n) s = wake_for_timer (take_at n s.retries) s
wake_up (tip_changed target) s = if s.tip_updates_open then wake_for_tip target s else go_on s

abbrev pub is_idle : Scheduler → Bool
is_idle s = elim s.pending [ _ ∷ _ ↦ false | [] ↦ elim s.retries [ _ ∷ _ ↦ false | [] ↦ true ] ]

unfoldable pub next_after : Slots BackfillRequest → Wake → Scheduler → Next
unfolding wake_up
next_after ((_, request) ∷ rest) wake s = serve request false (record s { pending = rest })
next_after [] wake s = if not s.requests_open && is_idle s then return_now else wake_up wake s

-- The loop's head: a pending request goes first, in the order of the slots.
unfoldable pub next_work : Wake → Scheduler → Next
unfolding wake_up next_after
next_work wake s = next_after s.pending wake s

unfoldable pub drop_deferred : Bool → String → Scheduler → Scheduler
unfolding string_discrete
drop_deferred true id s = record s {
  deferred = filter (λ other. not (same string_discrete other id)) s.deferred;
}
drop_deferred false id s = s

abbrev pub is_instance : Option SidechainInstanceRef → SidechainInstanceRef → Bool
unfolding instance_discrete
is_instance none instance = false
is_instance (some other) instance = same instance_discrete other instance

-- A request of an instance that is not its slot's any more.
unfoldable pub discard : BackfillRequest → Scheduler → Scheduler
unfolding instance_discrete
discard request s =
    if is_instance (get request.instance.sidechain s.activations) request.instance
    then record s { activations = remove request.instance.sidechain s.activations }
    else s

abbrev pub is_queued : Option BackfillRequest → SidechainInstanceRef → Bool
unfolding instance_discrete
is_queued none instance = false
is_queued (some queued) instance = same instance_discrete queued.instance instance

-- A request of the current instance: it is noted, and subsumes another one that is queued for it.
unfoldable pub admit : BackfillRequest → Scheduler → Scheduler
unfolding instance_discrete
admit request s = record s {
  activations = insert request.instance.sidechain request.instance s.activations;
  pending =
      if is_queued (get request.instance.sidechain s.pending) request.instance
      then remove request.instance.sidechain s.pending
      else s.pending;
}

abbrev pub forget : SidechainInstanceRef → Scheduler → Scheduler
forget instance s = record s { activations = remove instance.sidechain s.activations }
