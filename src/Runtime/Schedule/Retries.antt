-- ===== src/Runtime/Schedule/Retries.antt =====
-- The deferred instances and their timers.
use bip300_monitor.Base.{
  ℕ, zero, suc, ◌≡◌, refl, sym, ap, ◌∙◌, inl, inr, Bool, true, false, not, ◌&&◌, ◌||◌, String,
  string_discrete, none, some, List, [], ◌∷◌, ◌++◌, map, contains, filter, same, same-eq, same_self,
  Bool-cases, Option-cases, arith,
}
use bip300_monitor.Slots.{Slots, get}
use bip300_monitor.Runtime.Schedule.{
  BackfillRequest, Scheduler, schedule_backfill_retry, Wake, shutdown, received, due, tip_changed,
  wake_for_tip, wake_up, next_after, next_work, id_of, is_idle, take_at, drop_deferred, discard,
  admit, is_instance,
}
use bip300_monitor.Runtime.Schedule.Turn.{WorkIo, schedule_turn}
use bip300_monitor.Runtime.Schedule.Keeps.{IsKept, After, schedule_turn-Keeps}

abbrev pub has_repeat : List String → Bool
has_repeat [] = false
has_repeat (x ∷ xs) = contains string_discrete xs x || has_repeat xs

-- Each deferred instance has one timer, which gives back a request of it.
abbrev pub IsTimed : Scheduler → Type 0
IsTimed s = (s.deferred ≡ map id_of s.retries) × (has_repeat s.deferred ≡ false)

map-append_one :
    (request : BackfillRequest) (rs : List BackfillRequest)
    → map id_of (rs ++ (request ∷ [])) ≡ map id_of rs ++ (id_of request ∷ [])
map-append_one request [] = refl
map-append_one request (r ∷ rs) = ap (λ l. id_of r ∷ l) (map-append_one request rs)

contains-append_one :
    (xs : List String) (y z : String)
    → contains string_discrete (xs ++ (y ∷ [])) z
      ≡ (contains string_discrete xs z || same string_discrete y z)
contains-append_one [] y z = ground arith
contains-append_one (x ∷ xs) y z = rw (contains-append_one xs y z) (ground arith)

same_swap : (x y : String) → same string_discrete x y ≡ same string_discrete y x
same_swap x y = ground arith

repeat-append_one :
    (xs : List String) (y : String)
    → has_repeat xs ≡ false
    → contains string_discrete xs y ≡ false
    → has_repeat (xs ++ (y ∷ [])) ≡ false
repeat-append_one [] y r c = refl
repeat-append_one (x ∷ xs) y r c =
    rw (contains-append_one xs y x, same_swap y x) (ground (arith, repeat-append_one xs y))

abbrev without : String → List String → List String
without id xs = filter (λ other. not (same string_discrete other id)) xs

without_absent :
    (id : String) (xs : List String) → contains string_discrete xs id ≡ false → without id xs ≡ xs
without_absent id [] c = refl
without_absent id (x ∷ xs) c = ground (arith, without_absent id xs)

or_true : (a : Bool) → (a || true) ≡ true
or_true a = ground arith

neither : (a b : Bool) → (a || b) ≡ false → (a ≡ false) × (b ≡ false)
neither false b e = (refl, e)
neither true b e = absurd (ground arith)

contains-without :
    (id z : String) (xs : List String)
    → contains string_discrete xs z ≡ false
    → contains string_discrete (without id xs) z ≡ false
contains-without id z [] c = refl
contains-without id z (x ∷ xs) c = ground (arith, contains-without id z xs)

take_at_step :
    (n : ℕ) (x : BackfillRequest) (xs left : List BackfillRequest) (r : BackfillRequest)
    → take_at (suc n) (x ∷ xs) ≡ some (r, left)
    → (rest : List BackfillRequest) × (take_at n xs ≡ some (r, rest)) × (x ∷ rest ≡ left)
take_at_step n x xs left r e = elim (Option-cases (take_at n xs)) [
  | inl q ↦ absurd (ground arith)
  | inr ((t, rest), q) ↦
      let here : t ≡ r = ground arith in
      (rest, q ∙ ap (λ (u : BackfillRequest). some (u, rest)) here, ground arith)
]

take_at-contains :
    (n : ℕ) (rs left : List BackfillRequest) (r : BackfillRequest)
    → take_at n rs ≡ some (r, left)
    → contains string_discrete (map id_of rs) (id_of r) ≡ true
take_at-contains n [] left r e = absurd (ground arith)
take_at-contains zero (x ∷ xs) left r e =
    let here : x ≡ r = ground arith in rw (here, same_self string_discrete (id_of r)) refl
take_at-contains (suc n) (x ∷ xs) left r e =
    let (rest, q, split) = take_at_step n x xs left r e in
    rw (take_at-contains n xs rest r q) (or_true (same string_discrete (id_of x) (id_of r)))

-- The timer that fires takes its instance, and no other, off the list.
take_at-without :
    (n : ℕ) (rs left : List BackfillRequest) (r : BackfillRequest)
    → has_repeat (map id_of rs) ≡ false
    → take_at n rs ≡ some (r, left)
    → (without (id_of r) (map id_of rs) ≡ map id_of left) × (has_repeat (map id_of left) ≡ false)
take_at-without n [] left r h e = absurd (ground arith)
take_at-without zero (x ∷ xs) left r h e =
    let here : x ≡ r = ground arith in
    let rest : xs ≡ left = ground arith in
    let (fresh, tail) =
      neither (contains string_discrete (map id_of xs) (id_of x)) (has_repeat (map id_of xs)) h in
    (
      rw (here, same_self string_discrete (id_of r), sym rest)
          (without_absent (id_of r) (map id_of xs) (
            ap (λ (u : BackfillRequest). contains string_discrete (map id_of xs) (id_of u))
              (sym here)
            ∙ fresh)),
      rw (sym rest) tail,
    )
take_at-without (suc n) (x ∷ xs) left r h e =
    let (rest, q, split) = take_at_step n x xs left r e in
    let (fresh, tail) =
      neither (contains string_discrete (map id_of xs) (id_of x)) (has_repeat (map id_of xs)) h in
    let (removed, distinct) = take_at-without n xs rest r tail q in
    let there = take_at-contains n xs rest r q in
    let apart : same string_discrete (id_of x) (id_of r) ≡ false =
      elim (Bool-cases (same string_discrete (id_of x) (id_of r))) [
        | inr d ↦ d
        | inl d ↦
            let both : true ≡ false =
              sym there
              ∙ ap (contains string_discrete (map id_of xs))
                  (sym (same-eq string_discrete (id_of x) (id_of r) d))
              ∙ fresh in
            absurd (ground arith)
      ] in
    let still : contains string_discrete (map id_of rest) (id_of x) ≡ false =
      ap (λ l. contains string_discrete l (id_of x)) (sym removed)
      ∙ contains-without (id_of r) (id_of x) (map id_of xs) fresh in
    (rw (sym split, apart, removed) refl, rw (sym split, still) distinct)

drop_fired :
    (n : ℕ) (s : Scheduler) (r : BackfillRequest) (left : List BackfillRequest)
    → IsTimed s
    → take_at n s.retries ≡ some (r, left)
    → IsTimed (drop_deferred true (id_of r) (record s { retries = left }))
unfolding drop_deferred
drop_fired n s r left (timers, once) e =
    let fired = take_at-without n s.retries left r (ap has_repeat (sym timers) ∙ once) e in
    (
      ap (without (id_of r)) timers ∙ fired.0,
      ap has_repeat (ap (without (id_of r)) timers ∙ fired.0) ∙ fired.1,
    )

IsTimed-IsKept : IsKept IsTimed
unfolding schedule_backfill_retry discard admit
IsTimed-IsKept = record {
  retried = λ request s (timers, once).
      elim (Bool-cases (contains string_discrete s.deferred (id_of request))) [
        | inl c ↦ rw (schedule_backfill_retry, c) (timers, once)
        | inr c ↦
            rw (schedule_backfill_retry, c)
              (
                ap (λ l. l ++ (id_of request ∷ [])) timers ∙ sym (map-append_one request s.retries),
                repeat-append_one s.deferred (id_of request) once c,
              )
      ];
  forgotten = λ instance s timed. timed;
  discarded = λ request s timed.
      elim (Bool-cases
        (is_instance (get request.instance.sidechain s.activations) request.instance)) [
          | inl e ↦ rw (discard, e) timed
          | inr e ↦ rw (discard, e) timed
        ];
  admitted = λ request s timed. timed;
}

wake_up-IsTimed : (wake : Wake) (s : Scheduler) → IsTimed s → After IsTimed (wake_up wake s)
unfolding wake_up wake_for_tip drop_deferred
wake_up-IsTimed shutdown s timed = tt
wake_up-IsTimed (received (some request)) s timed = elim (Bool-cases s.requests_open) [
  | inl e ↦ rw (wake_up, e) timed
  | inr e ↦ rw (wake_up, e) timed
]
wake_up-IsTimed (received none) s timed = elim (Bool-cases s.requests_open) [
  | inl e ↦ rw (wake_up, e) timed
  | inr e ↦ rw (wake_up, e) timed
]
wake_up-IsTimed (tip_changed (some target)) s timed = elim (Bool-cases s.tip_updates_open) [
  | inl e ↦ rw (wake_up, e) timed
  | inr e ↦ rw (wake_up, e) timed
]
wake_up-IsTimed (tip_changed none) s timed = elim (Bool-cases s.tip_updates_open) [
  | inl e ↦ rw (wake_up, e) timed
  | inr e ↦ rw (wake_up, e) timed
]
wake_up-IsTimed (due n) s timed = elim (Option-cases (take_at n s.retries)) [
  | inl e ↦ rw (wake_up, e) timed
  | inr ((r, left), e) ↦ rw (wake_up, e) (drop_fired n s r left timed e)
]

next_after-IsTimed :
    (pending : Slots BackfillRequest) (wake : Wake) (s : Scheduler)
    → IsTimed s
    → After IsTimed (next_after pending wake s)
unfolding next_after drop_deferred
next_after-IsTimed ((_, request) ∷ rest) wake s timed = timed
next_after-IsTimed [] wake s timed = elim (Bool-cases (not s.requests_open && is_idle s)) [
  | inl e ↦ rw (next_after, e) tt
  | inr e ↦ rw (next_after, e) (wake_up-IsTimed wake s timed)
]

-- Whatever the environment answers, a turn of the loop keeps the deferred instances and the timers in
-- step: each deferred instance is listed once and has one timer, with the two lists in one order, and
-- no other instance has a timer.
pub schedule_turn-IsTimed :
    {E : Type 0} (io : WorkIo E) (fuel : ℕ) (s : Scheduler) (env : E)
    → IsTimed s
    → IsTimed (schedule_turn io fuel (s, env)).1.0
unfolding next_work
schedule_turn-IsTimed io fuel s env timed =
    schedule_turn-Keeps IsTimed io IsTimed-IsKept fuel s env timed
      (λ wake. next_after-IsTimed s.pending wake s timed)
