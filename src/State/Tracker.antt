-- ===== src/State/Tracker.antt =====
-- The tracker over sequences of readings: what it reports, and which reading it compares with.
use mathlib.Core.Path.{subst}
use bip300_monitor.Base.{
  ◌≡◌, refl, ap, sym, ◌∙◌, Bool, true, false, Option, none, some, List, [], ◌∷◌, ◌++◌, find, filter,
  not, same, ◌&&◌, same-eq, same_self, Bool-cases, inl, inr, arith, if◌then◌else◌,
}
use bip300_monitor.Failure.{ok, err, is_ok, Result-cases}
use bip300_monitor.Proto.{EnforcerEvent, enforcer_event_discrete}
use bip300_monitor.Store.Types.{SnapshotConsistency, tip_matched, consistency_discrete}
use bip300_monitor.State.{
  PayloadKey, payload_key_discrete, payload_key, is_keyed, Tracked, Publication, differs,
  changed_payloads, publication, take_changed, take_observation,
}

-- No two payloads of a reading have one key.
abbrev pub IsKeyed : List EnforcerEvent → Type 0
IsKeyed [] = Unit
IsKeyed (p ∷ ps) =
    ((key : PayloadKey) × (payload_key p ≡ ok key) × (find (is_keyed key) ps ≡ none)) × IsKeyed ps

find-append_none :
    (key : PayloadKey) (xs ys : List EnforcerEvent)
    → find (is_keyed key) xs ≡ none
    → find (is_keyed key) (xs ++ ys) ≡ find (is_keyed key) ys
find-append_none key [] ys e = refl
find-append_none key (x ∷ xs) ys e = ground (arith, find-append_none key xs ys)

is_keyed_own :
    (key : PayloadKey) (p : EnforcerEvent) → payload_key p ≡ ok key → is_keyed key p ≡ true
unfolding is_keyed
is_keyed_own key p e = rw (is_keyed, e) (same_self payload_key_discrete key)

is_keyed_other :
    (key k : PayloadKey) (p : EnforcerEvent)
    → payload_key p ≡ ok key
    → is_keyed k p ≡ true
    → key ≡ k
unfolding is_keyed
is_keyed_other key k p e h = elim (Result-cases (payload_key p)) [
  | inl (candidate, q) ↦
      let candidate_eq : candidate ≡ key = cc in
      let keyed : same payload_key_discrete candidate k ≡ true = ground arith in
      sym candidate_eq ∙ same-eq payload_key_discrete candidate k keyed
  | inr (x, q) ↦ absurd (ground arith)
]

differs_not : (o : Option EnforcerEvent) (p : EnforcerEvent) → differs o p ≡ false → o ≡ some p
unfolding differs
differs_not none p h = absurd (ground arith)
differs_not (some q) p h = elim (Bool-cases (same enforcer_event_discrete q p)) [
  | inl e ↦ ap some (same-eq enforcer_event_discrete q p e)
  | inr e ↦ absurd (ground arith)
]

-- What the changes are, entry by entry.
changed_cons :
    (last rest : List EnforcerEvent) (p : EnforcerEvent) (key : PayloadKey)
    (changes : List EnforcerEvent)
    → payload_key p ≡ ok key
    → changed_payloads last (p ∷ rest) ≡ ok changes
    → (later : List EnforcerEvent) × (changed_payloads last rest ≡ ok later)
      × (changes ≡ (if differs (find (is_keyed key) last) p then p ∷ later else later))
unfolding changed_payloads
changed_cons last rest p key changes k e = elim (Result-cases (changed_payloads last rest)) [
  | inr (x, q) ↦ absurd (ground arith)
  | inl (later, q) ↦ (later, q, ground arith)
]

changed-append_find :
    (last current changes : List EnforcerEvent) (k : PayloadKey)
    → IsKeyed current
    → changed_payloads last current ≡ ok changes
    → find (is_keyed k) (changes ++ last) ≡ find (is_keyed k) (current ++ last)
unfolding changed_payloads
changed-append_find last [] changes k keyed e =
    let none_changed : [] ≡ changes = cc in rw (sym none_changed) refl
changed-append_find last (p ∷ rest) changes k ((key, own, distinct), keyed) e =
    let (later, laters, split) = changed_cons last rest p key changes own e in
    let ih = changed-append_find last rest later k keyed laters in
    elim (Bool-cases (differs (find (is_keyed key) last) p)) [
      | inl d ↦ rw (split, d, ih) refl
      | inr d ↦ elim (Bool-cases (is_keyed k p)) [
        | inr h ↦ rw (split, d, h, ih) refl
        | inl h ↦
            let key_eq = is_keyed_other key k p own h in
            let before : find (is_keyed k) last ≡ some p =
              subst (λ x. find (is_keyed x) last ≡ some p) key_eq
                (differs_not (find (is_keyed key) last) p d) in
            let unkeyed : find (is_keyed k) rest ≡ none =
              subst (λ x. find (is_keyed x) rest ≡ none) key_eq distinct in
            rw (split, d, h, ih, find-append_none k rest last unkeyed, before) refl
      ]
    ]

take_observation-publication :
    (current : List EnforcerEvent) (consistency : SnapshotConsistency) (tracker : Tracked)
    → (take_observation current consistency tracker).0
      ≡ publication current (changed_payloads tracker.last current)
unfolding take_observation take_changed
take_observation-publication current consistency tracker =
    elim (Bool-cases (same consistency_discrete consistency tip_matched)) [
      | inl c ↦ elim (Result-cases (changed_payloads tracker.last current)) [
        | inl (later, l) ↦ rw (take_observation, take_changed, c, l) refl
        | inr (x, l) ↦ rw (take_observation, take_changed, c, l) refl
      ]
      | inr c ↦ elim (Result-cases (changed_payloads tracker.last current)) [
        | inl (later, l) ↦ rw (take_observation, take_changed, c, l) refl
        | inr (x, l) ↦ rw (take_observation, take_changed, c, l) refl
      ]
    ]

-- A reading is reported whole, and its changes suffice: whoever applies the changes on top of the
-- baseline sees, for each kind of state, what applying the whole reading would show.
pub take_observation-changed :
    (current : List EnforcerEvent) (consistency : SnapshotConsistency) (tracker : Tracked)
    (report : Publication)
    → IsKeyed current
    → (take_observation current consistency tracker).0 ≡ ok report
    → (report.payloads ≡ current)
      × ((key : PayloadKey)
          → find (is_keyed key) (report.changed ++ tracker.last)
            ≡ find (is_keyed key) (current ++ tracker.last))
take_observation-changed current consistency tracker report keyed e =
    let published = sym (take_observation-publication current consistency tracker) ∙ e in
    elim (Result-cases (changed_payloads tracker.last current)) [
      | inl (changes, l) ↦
          let reported : record { payloads = current; changed = changes } ≡ report = cc in
          (
            sym (ap (λ (r : Publication). r.payloads) reported),
            λ key.
                subst
                  (λ (r : Publication).
                    find (is_keyed key) (r.changed ++ tracker.last)
                    ≡ find (is_keyed key) (current ++ tracker.last))
                  reported (changed-append_find tracker.last current changes key keyed l),
          )
      | inr (x, l) ↦ absurd (ground arith)
    ]

-- The payloads of a reading that the tracker can identify.
abbrev pub is_trackable : List EnforcerEvent → Bool
is_trackable [] = true
is_trackable (p ∷ ps) = is_ok (payload_key p) && is_trackable ps

-- The baseline after a sequence of readings, as a rule of its own: the last one that was taken
-- while the tip stood still and that holds mutable state only.
abbrev pub baseline :
    List (List EnforcerEvent × SnapshotConsistency) → List EnforcerEvent → List EnforcerEvent
baseline [] last = last
baseline ((current, consistency) ∷ readings) last = baseline readings (
    if same consistency_discrete consistency tip_matched && is_trackable current
    then current
    else last)

abbrev pub observe_all : List (List EnforcerEvent × SnapshotConsistency) → Tracked → Tracked
observe_all [] tracker = tracker
observe_all ((current, consistency) ∷ readings) tracker =
    observe_all readings (take_observation current consistency tracker).1

changed_payloads-is_ok :
    (last current : List EnforcerEvent)
    → is_ok (changed_payloads last current) ≡ is_trackable current
unfolding changed_payloads is_ok
changed_payloads-is_ok last [] = refl
changed_payloads-is_ok last (p ∷ rest) = elim (Result-cases (payload_key p)) [
  | inr (x, q) ↦ rw (changed_payloads, q) refl
  | inl (key, q) ↦ elim (Result-cases (changed_payloads last rest)) [
    | inl (later, l) ↦ rw (changed_payloads, q, l, sym (changed_payloads-is_ok last rest), l) refl
    | inr (x, l) ↦ rw (changed_payloads, q, l, sym (changed_payloads-is_ok last rest), l) refl
  ]
]

take_observation_last :
    (current : List EnforcerEvent) (consistency : SnapshotConsistency) (tracker : Tracked)
    → (take_observation current consistency tracker).1.last ≡ (
        if same consistency_discrete consistency tip_matched && is_trackable current
        then current
        else tracker.last)
unfolding take_observation take_changed is_ok
take_observation_last current consistency tracker =
    elim (Result-cases (changed_payloads tracker.last current)) [
      | inl (later, l) ↦
          let trackable : is_trackable current ≡ true =
            sym (changed_payloads-is_ok tracker.last current) ∙ rw (is_ok, l) refl in
          elim (Bool-cases (same consistency_discrete consistency tip_matched)) [
            | inl c ↦ rw (take_observation, take_changed, c, l, trackable) refl
            | inr c ↦ rw (take_observation, c) refl
          ]
      | inr (x, l) ↦
          let trackable : is_trackable current ≡ false =
            sym (changed_payloads-is_ok tracker.last current) ∙ rw (is_ok, l) refl in
          elim (Bool-cases (same consistency_discrete consistency tip_matched)) [
            | inl c ↦ rw (take_observation, take_changed, c, l, trackable) refl
            | inr c ↦ rw (take_observation, c) refl
          ]
    ]

observe_all_last :
    (readings : List (List EnforcerEvent × SnapshotConsistency)) (tracker : Tracked)
    → (observe_all readings tracker).last ≡ baseline readings tracker.last
observe_all_last [] tracker = refl
observe_all_last ((current, consistency) ∷ readings) tracker =
    observe_all_last readings (take_observation current consistency tracker).1
    ∙ ap (baseline readings) (take_observation_last current consistency tracker)

-- A payload is news where the first payload of its key in a list is not the same one.
abbrev pub is_news : List EnforcerEvent → EnforcerEvent → Bool
is_news last p = elim (payload_key p) [
  | err e ↦ false
  | ok key ↦ elim (find (is_keyed key) last) [
    | none ↦ true
    | some q ↦ not (same enforcer_event_discrete q p)
  ]
]

differs_cases :
    (o : Option EnforcerEvent) (p : EnforcerEvent)
    → differs o p ≡ (elim o [ none ↦ true | some q ↦ not (same enforcer_event_discrete q p) ])
unfolding differs
differs_cases none p = refl
differs_cases (some q) p = refl

is_news-differs :
    (last : List EnforcerEvent) (p : EnforcerEvent) (key : PayloadKey)
    → payload_key p ≡ ok key
    → is_news last p ≡ differs (find (is_keyed key) last) p
is_news-differs last p key q = rw (is_news, q, differs_cases (find (is_keyed key) last) p) refl

changed_payloads-filter :
    (last current changes : List EnforcerEvent)
    → changed_payloads last current ≡ ok changes
    → changes ≡ filter (is_news last) current
unfolding changed_payloads
changed_payloads-filter last [] changes e = ground arith
changed_payloads-filter last (p ∷ rest) changes e = elim (Result-cases (payload_key p)) [
  | inr (x, q) ↦ absurd (ground arith)
  | inl (key, q) ↦
      let (later, laters, split) = changed_cons last rest p key changes q e in
      let ih = changed_payloads-filter last rest later laters in
      split ∙ rw (sym (is_news-differs last p key q), ih) refl
]

-- After any sequence of readings, the changes of a further reading that the tracker accepts are its
-- payloads that differ from those of the last reading that was taken at a standing tip and holds
-- mutable state only: neither a reading across a tip move nor a refused one becomes the baseline.
pub observe_all-baseline :
    (readings : List (List EnforcerEvent × SnapshotConsistency)) (tracker : Tracked)
    (current : List EnforcerEvent) (consistency : SnapshotConsistency) (report : Publication)
    → (take_observation current consistency (observe_all readings tracker)).0 ≡ ok report
    → report.changed ≡ filter (is_news (baseline readings tracker.last)) current
observe_all-baseline readings tracker current consistency report e =
    let before = observe_all readings tracker in
    let published = sym (take_observation-publication current consistency before) ∙ e in
    elim (Result-cases (changed_payloads before.last current)) [
      | inl (changes, l) ↦
          let reported : record { payloads = current; changed = changes } ≡ report = cc in
          sym (ap (λ (r : Publication). r.changed) reported)
          ∙ changed_payloads-filter before.last current changes l
          ∙ ap (λ last. filter (is_news last) current) (observe_all_last readings tracker)
      | inr (x, l) ↦ absurd (ground arith)
    ]
