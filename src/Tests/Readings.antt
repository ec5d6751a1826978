-- ===== src/Tests/Readings.antt =====
-- Tests of the tracker of readings.
use bip300_monitor.Base.{◌≡◌, refl, some, none, List, [], ◌∷◌, ◌++◌, find, filter}
use bip300_monitor.Failure.{ok}
use bip300_monitor.Proto.{EnforcerEvent, enforcer_event_discrete, sidechain_proposals, ctip}
use bip300_monitor.Store.Types.{SnapshotConsistency, tip_matched, changed, consistency_discrete}
use bip300_monitor.State.{
  PayloadKey, proposals_key, ctip_key, payload_key, payload_key_discrete, is_keyed, Tracked,
  Publication, differs, changed_payloads, take_changed, take_observation,
}
use bip300_monitor.State.Tracker.{
  observe_all, baseline, is_news, observe_all-baseline, take_observation-changed,
}

abbrev proposals : List EnforcerEvent
proposals = record { event = some (sidechain_proposals (1 ∷ [])) } ∷ []

abbrev reading : EnforcerEvent
reading = record { event = some (ctip 3 (2 ∷ [])) }

abbrev tracker : Tracked
tracker = record { last = proposals; last_consistency = tip_matched }

-- The proposals as before, and the treasury of slot 3, which is new.
abbrev current : List EnforcerEvent
current = proposals ++ (reading ∷ [])

abbrev readings : List (List EnforcerEvent × SnapshotConsistency)
readings = (current, changed) ∷ (current, tip_matched) ∷ (proposals, changed) ∷ []

abbrev moved : EnforcerEvent
moved = record { event = some (ctip 3 (9 ∷ [])) }

abbrev further : Publication
further = record { payloads = proposals ++ (moved ∷ []); changed = moved ∷ [] }

further_is_reported :
    (take_observation (proposals ++ (moved ∷ [])) changed (observe_all readings tracker)).0
    ≡ ok further
unfolding take_observation take_changed changed_payloads payload_key is_keyed differs
    payload_key_discrete enforcer_event_discrete consistency_discrete
further_is_reported = refl

observe_all-baseline_example :
    further.changed ≡ filter (is_news (baseline readings proposals)) (proposals ++ (moved ∷ []))
observe_all-baseline_example =
    observe_all-baseline readings tracker (proposals ++ (moved ∷ [])) changed further
      further_is_reported

reading_is_reported :
    (take_observation current changed tracker).0
    ≡ ok (record { payloads = current; changed = reading ∷ [] })
unfolding take_observation take_changed changed_payloads payload_key is_keyed differs
    payload_key_discrete enforcer_event_discrete consistency_discrete
reading_is_reported = refl

abbrev report : Publication
report = record { payloads = current; changed = reading ∷ [] }

proposals_are_keyed :
    (payload_key (record { event = some (sidechain_proposals (1 ∷ [])) }) ≡ ok proposals_key)
    × (find (is_keyed proposals_key) (reading ∷ []) ≡ none)
unfolding payload_key is_keyed payload_key_discrete
proposals_are_keyed = (refl, refl)

reading_is_keyed : payload_key reading ≡ ok (ctip_key 3)
unfolding payload_key
reading_is_keyed = refl

take_observation-changed_example :
    (report.payloads ≡ current)
    × ((key : PayloadKey)
        → find (is_keyed key) (report.changed ++ proposals)
          ≡ find (is_keyed key) (current ++ proposals))
take_observation-changed_example =
    take_observation-changed current changed tracker report
      (
        (proposals_key, proposals_are_keyed.0, proposals_are_keyed.1),
        ((ctip_key 3, reading_is_keyed, refl), tt),
      )
      reading_is_reported
