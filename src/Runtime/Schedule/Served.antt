-- ===== src/Runtime/Schedule/Served.antt =====
-- What serving a request does to the maps by slot.
use mathlib.Core.Path.{subst}
use bip300_monitor.Base.{
  ℕ, ◌≡◌, ◌≢◌, ◌⊎◌, refl, sym, ap, ◌∙◌, inl, inr, Bool, true, false, contains, same, same-eq,
  same_self, String, string_discrete, Option, none, some, Bool-cases,
}
use bip300_monitor.Failure.{Result, ok}
use bip300_monitor.Effect.{Call, ◌>>=◌, ◌>>◌}
use bip300_monitor.Slots.{get}
use bip300_monitor.Slots.Laws.{
  IsAscending, get-insert, get-insert_other, insert-IsAscending, get-remove, get-remove_other,
  remove-IsAscending,
}
use bip300_monitor.Runtime.Schedule.{
  BackfillRequest, Scheduler, schedule_backfill_retry, id_of, drop_deferred, discard, admit,
  is_instance, is_queued,
}
use bip300_monitor.Runtime.Schedule.Turn.{
  WorkIo, Verdict, looped, is_current, service, serve_request, change, Desk,
}
use bip300_monitor.Runtime.Schedule.Keeps.{IsServed, service-Keeps}

-- The maps are as before but for one slot.
abbrev pub SameOthers : ℕ → Scheduler → Scheduler → Type 0
SameOthers slot a b =
    (k : ℕ)
    → k ≢ slot
    → (get k a.activations ≡ get k b.activations) × (get k a.pending ≡ get k b.pending)

-- While a request is served: its slot observes its instance or none, no request of the instance is
-- queued, and the other slots are as before.
abbrev pub IsServing : BackfillRequest → Scheduler → Scheduler → Type 0
IsServing request before s =
    let slot = request.instance.sidechain in
    ((get slot s.activations ≡ some request.instance) ⊎ (get slot s.activations ≡ none))
    × (is_queued (get slot s.pending) request.instance ≡ false)
    × SameOthers slot s before

-- A stale request: its slot does not observe its instance, and all else is as before.
abbrev pub IsDiscarded : BackfillRequest → Scheduler → Scheduler → Type 0
IsDiscarded request before s =
    let slot = request.instance.sidechain in
    (is_instance (get slot s.activations) request.instance ≡ false)
    × (get slot s.pending ≡ get slot before.pending)
    × SameOthers slot s before

module _ (request : BackfillRequest) (before : Scheduler) where
  abbrev slot : ℕ
  slot = request.instance.sidechain

  abbrev Serving : Scheduler → Type 0
  Serving s = IsServing request before s × IsAscending s.activations

  admit-Serving :
      IsAscending before.activations → IsAscending before.pending → Serving (admit request before)
  unfolding admit
  admit-Serving a p = (
    (
      inl (get-insert slot request.instance before.activations),
      elim (Bool-cases (is_queued (get slot before.pending) request.instance)) [
        | inl q ↦ rw (q, get-remove slot before.pending p) refl
        | inr q ↦ rw (q, q) refl
      ],
      λ k ne. (
        get-insert_other k slot request.instance before.activations ne,
        elim (Bool-cases (is_queued (get slot before.pending) request.instance)) [
          | inl q ↦ rw q (get-remove_other k slot before.pending ne)
          | inr q ↦ rw q refl
        ],
      ),
    ),
    insert-IsAscending slot request.instance before.activations a,
  )

  Serving-IsServed : IsServed Serving request.instance
  unfolding schedule_backfill_retry string_discrete
  Serving-IsServed = record {
    retried = λ target s h.
        elim (Bool-cases (contains string_discrete s.deferred (id_of request))) [
          | inl c ↦ rw (schedule_backfill_retry, c) h
          | inr c ↦ rw (schedule_backfill_retry, c) h
        ];
    forgotten = λ s (h, a). (
      (
        inr (get-remove slot s.activations a),
        h.1,
        λ k ne. (get-remove_other k slot s.activations ne ∙ (h.2 k ne).0, (h.2 k ne).1),
      ),
      remove-IsAscending slot s.activations a,
    );
  }

  discard-IsDiscarded :
      IsAscending before.activations → IsDiscarded request before (discard request before)
  unfolding discard
  discard-IsDiscarded a =
      elim (Bool-cases (is_instance (get slot before.activations) request.instance)) [
        | inl q ↦
            rw (discard, q)
              (
                rw (get-remove slot before.activations a) refl,
                refl,
                λ k ne. (get-remove_other k slot before.activations ne, refl),
              )
        | inr q ↦ rw (discard, q) (q, refl, λ k ne. (refl, refl))
      ]

-- The instance of the slot is the request's.
is_current-some :
    (current : Option String) (id : String) → current ≡ some id → is_current current id ≡ true
unfolding is_current
is_current-some current id e = rw (e, same_self string_discrete id) refl

is_current-other :
    (current : Option String) (id : String) → current ≢ some id → is_current current id ≡ false
unfolding is_current
is_current-other none id ne = refl
is_current-other (some other) id ne = elim (Bool-cases (same string_discrete other id)) [
  | inl e ↦ absurd (ne (ap some (same-eq string_discrete other id e)))
  | inr e ↦ e
]

module _ {E : Type 0} (io : WorkIo E) (fuel : ℕ) (request : BackfillRequest) where
  -- What follows the answer for the slot's instance.
  abbrev answer : Bool → Call (Desk E) Verdict
  answer b = elim b [
    | false ↦ change (discard request) looped
    | true ↦ do change (admit request) tt; service io fuel request.instance request.target
  ]

  asks :
      (from_timer : Bool) (s : Scheduler) (env asked : E) (current : Option String) (b : Bool)
      → io.current_instance request.instance.sidechain env ≡ (ok current, asked)
      → is_current current (id_of request) ≡ b
      → serve_request io fuel request from_timer (s, env)
        ≡ answer b (drop_deferred from_timer (id_of request) s, asked)
  unfolding serve_request ◌>>=◌
  asks from_timer s env asked current b q e =
      rw q (ap (λ c. answer c (drop_deferred from_timer (id_of request) s, asked)) e)

  admitted :
      (s : Scheduler) (asked : E)
      → IsAscending s.activations
      → IsAscending s.pending
      → IsServing request s (answer true (s, asked)).1.0
  unfolding ◌>>=◌
  admitted s asked a p =
      (service-Keeps (λ t. IsServing request s t × IsAscending t.activations) io request.instance
        (Serving-IsServed request s) fuel request.target (admit request s, asked)
        (admit-Serving request s a p)).0

  dropped-IsServing :
      (from_timer : Bool) (s t : Scheduler)
      → IsServing request (drop_deferred from_timer (id_of request) s) t
      → IsServing request s t
  unfolding drop_deferred
  dropped-IsServing true s t h = h
  dropped-IsServing false s t h = h

  dropped-IsDiscarded :
      (from_timer : Bool) (s t : Scheduler)
      → IsDiscarded request (drop_deferred from_timer (id_of request) s) t
      → IsDiscarded request s t
  unfolding drop_deferred
  dropped-IsDiscarded true s t h = h
  dropped-IsDiscarded false s t h = h

  dropped-IsAscending :
      (from_timer : Bool) (s : Scheduler)
      → IsAscending s.activations × IsAscending s.pending
      → let t = drop_deferred from_timer (id_of request) s in
        IsAscending t.activations × IsAscending t.pending
  unfolding drop_deferred
  dropped-IsAscending true s h = h
  dropped-IsAscending false s h = h

  -- Serving a request touches only its own slot: the instances and the queued requests of the other
  -- slots are as before, whatever the walk and the client answer. Where the database names the request's
  -- instance as the current one, the slot observes that instance or none afterwards, and no request of it
  -- is queued there. Where it names another one or none, the slot does not observe that instance, and its
  -- queued request is kept.
  pub serve_request-IsServing :
      (from_timer : Bool) (s : Scheduler) (env asked : E) (current : Option String)
      → io.current_instance request.instance.sidechain env ≡ (ok current, asked)
      → IsAscending s.activations
      → IsAscending s.pending
      → (current ≡ some (id_of request)
          → IsServing request s (serve_request io fuel request from_timer (s, env)).1.0)
        × (current ≢ some (id_of request)
            → IsDiscarded request s (serve_request io fuel request from_timer (s, env)).1.0)
  serve_request-IsServing from_timer s env asked current q a p =
      let t = drop_deferred from_timer (id_of request) s in
      let (ascending, queued) = dropped-IsAscending from_timer s (a, p) in
      (
        λ e.
            let is_it = is_current-some current (id_of request) e in
            let step = asks from_timer s env asked current true q is_it in
            subst (λ (x : Result Verdict × Desk E). IsServing request s x.1.0) (sym step)
              (dropped-IsServing from_timer s (answer true (t, asked)).1.0
                (admitted t asked ascending queued)),
        λ ne.
            let is_other = is_current-other current (id_of request) ne in
            let step = asks from_timer s env asked current false q is_other in
            subst (λ (x : Result Verdict × Desk E). IsDiscarded request s x.1.0) (sym step)
              (dropped-IsDiscarded from_timer s (answer false (t, asked)).1.0
                (discard-IsDiscarded request t ascending)),
      )
