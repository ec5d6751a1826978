-- ===== src/Store/Batch/Occurrences.antt =====
-- The occurrences that a writer gives to its events, and the facts that are new.
use mathlib.Core.Path.{subst}
use mathlib.Core.List.{append_assoc, append-nil}
use bip300_monitor.Base.{
  ℕ, suc, ◌≤◌, ◌≡◌, refl, sym, ap, ◌∙◌, inl, inr, Bool, true, ◌&&◌, Bytes, String, Option, none,
  some, List, [], ◌∷◌, ◌++◌, bytes_discrete, same-eq, length, Option-cases, Bool-cases, arith, find,
  length-append,
}
use bip300_monitor.Failure.{ok, or_bail, context, Ensures, Ensures-bind, Ensures-ok}
use bip300_monitor.Effect.Laws.{context-ok}
use bip300_monitor.Proto.{Event, MonitorEvent}
use bip300_monitor.Store.Types.{
  Externals, Store, CaptureMethod, SnapshotConsistency, SidechainInstanceRef, FactKey,
  fact_key_discrete,
}
use bip300_monitor.Store.Rows.{Fact, Observation, Db}
use bip300_monitor.Store.Facts.{FactColumns, facts_of_event}
use bip300_monitor.Store.Instances.{Cache, update_sidechain_instances, resolve_instance}
use bip300_monitor.Store.Insert.{
  insert, insert_fact, observe_block_fact, same_identity, same_nullable_hash,
}
use bip300_monitor.Store.Batch.{insert_events, slot_of, id_of}

find-holds : (p : Fact → Bool) (fs : List Fact) (f : Fact) → find p fs ≡ some f → p f ≡ true
find-holds p [] f e = absurd (ground arith)
find-holds p (x ∷ xs) f e = elim (Bool-cases (p x)) [
  | inl h ↦ let x_eq : x ≡ f = ground arith in subst (λ g. p g ≡ true) x_eq h
  | inr h ↦ find-holds p xs f (ground arith)
]

-- One row of the record stands for both facts.
abbrev pub SameFact : Fact → Fact → Type 0
SameFact f g = (f.key ≡ g.key) × (f.block_hash ≡ g.block_hash) × (f.fact_sha256 ≡ g.fact_sha256)

same_nullable_hash-eq : (a b : Option Bytes) → same_nullable_hash a b ≡ true → a ≡ b
unfolding bytes_discrete
same_nullable_hash-eq none none e = refl
same_nullable_hash-eq none (some b) e = absurd (ground arith)
same_nullable_hash-eq (some a) none e = absurd (ground arith)
same_nullable_hash-eq (some a) (some b) e = ap some (same-eq bytes_discrete a b e)

split : (a b : Bool) → a && b ≡ true → (a ≡ true) × (b ≡ true)
split a b e = ground arith

same_identity-SameFact : (f g : Fact) → same_identity f g ≡ true → SameFact f g
unfolding same_identity
same_identity-SameFact f g e =
    let (most, digest) = split _ _ e in
    let (key, hash) = split _ _ most in
    (
      same-eq fact_key_discrete f.key g.key key,
      same_nullable_hash-eq f.block_hash g.block_hash hash,
      same-eq bytes_discrete f.fact_sha256 g.fact_sha256 digest,
    )

-- One occurrence of a fact was written with a number, and the fact if it is new.
abbrev HasStored : CaptureMethod → ℕ → Fact → Db → ℕ → Db → Type 0
HasStored method seq fact db n after =
    (o : Observation) × (added : List Fact) × (after.observations ≡ db.observations ++ (o ∷ []))
    × (o.capture_seq ≡ seq)
    × (o.capture_method ≡ method)
    × SameFact fact o.fact
    × (after.facts ≡ db.facts ++ added)
    × (length added ≡ n)
    × (n ≤ 1)
    × (after.capture_seq ≡ db.capture_seq)

abbrev SameTables : Db → Db → Type 0
SameTables a b =
    (a.observations ≡ b.observations) × (a.facts ≡ b.facts) × (a.capture_seq ≡ b.capture_seq)

update_sidechain_instances-SameTables :
    (ext : Externals) (b : Bool) (event : Event) (db : Db) (cache : Cache) (after : Db × Cache)
    → update_sidechain_instances ext b event (db, cache) ≡ ok after
    → SameTables after.0 db
unfolding update_sidechain_instances
update_sidechain_instances-SameTables ext b event db cache after e = ground arith

observe_block_fact-SameTables : (new : Fact) (db : Db) → SameTables (observe_block_fact new db) db
unfolding observe_block_fact
observe_block_fact-SameTables new db = ground arith

insert_fact-HasStored :
    (method : CaptureMethod) (seq : ℕ) (new : Fact) (db : Db)
    → HasStored method seq new db
        (insert_fact method seq new db).0
        (insert_fact method seq new db).1
unfolding insert_fact
insert_fact-HasStored method seq new db = elim (Option-cases (find (same_identity new) db.facts)) [
  | inr (old, e) ↦
      let same_fact =
        same_identity-SameFact new old (find-holds (same_identity new) db.facts old e) in
      rw (insert_fact, e)
        (
          record { capture_seq = seq; capture_method = method; fact = old },
          [],
          refl,
          refl,
          refl,
          same_fact,
          sym (append-nil db.facts),
          refl,
          omega arith,
          refl,
        )
  | inl e ↦
      let kept = observe_block_fact-SameTables new db in
      let o : Observation = record { capture_seq = seq; capture_method = method; fact = new } in
      rw (insert_fact, e)
        (
          o,
          new ∷ [],
          ap (λ l. l ++ (o ∷ [])) kept.0,
          refl,
          refl,
          (refl, refl, refl),
          ap (λ l. l ++ (new ∷ [])) kept.1,
          refl,
          omega arith,
          kept.2,
        )
]

or_bail-some :
    {A : Type 0} (o : Option A) (text : String) (a : A) → or_bail o text ≡ ok a → o ≡ some a
or_bail-some none text a e = absurd (ground arith)
or_bail-some (some b) text a e = ground arith

module _ (ext : Externals) (store : Store) (method : CaptureMethod) where
  -- The occurrence of an event: its number, the method, and a fact with what the event says of itself
  -- and with the digest of its message.
  abbrev pub Describes : ℕ → Event → Observation → Type 0
  Describes seq event o =
      (columns : FactColumns) × (message : MonitorEvent) × (facts_of_event event ≡ ok columns)
      × (event.monitor_event ≡ some message)
      × (o.capture_seq ≡ seq)
      × (o.capture_method ≡ method)
      × (o.fact.key.store ≡ store)
      × (o.fact.key.kind ≡ columns.kind)
      × (o.fact.key.sidechain ≡ columns.sidechain)
      × (o.fact.block_hash ≡ columns.block_hash)
      × (o.fact.fact_sha256 ≡ ext.fact_sha256 message)

  -- One occurrence for each event, in their order, with numbers in a row.
  abbrev pub Describe : ℕ → List Event → List Observation → Type 0
  Describe seq [] [] = Unit
  Describe seq [] (o ∷ os) = 1 ≤ 0
  Describe seq (event ∷ rest) [] = 1 ≤ 0
  Describe seq (event ∷ rest) (o ∷ os) = Describes seq event o × Describe (suc seq) rest os

  -- What an event adds to the tables.
  abbrev Wrote : ℕ → Event → Db → ℕ × Db × Cache → Type 0
  Wrote seq event db (n, after, cache) =
      (o : Observation) × (added : List Fact) × (after.observations ≡ db.observations ++ (o ∷ []))
      × Describes seq event o
      × (after.facts ≡ db.facts ++ added)
      × (length added ≡ n)
      × (n ≤ 1)
      × (after.capture_seq ≡ db.capture_seq)

  module _ (group : Option SnapshotConsistency) where
    insert-Wrote :
        (slot : Option ℕ) (id : Option String) (seq : ℕ) (event : Event) (db : Db) (cache : Cache)
        → Ensures (Wrote seq event db) (insert ext store method group slot id seq event (db, cache))
    unfolding insert
    insert-Wrote slot id seq event db cache =
        Ensures-bind (Wrote seq event db) (context (facts_of_event event) _) _ λ facts described.
          Ensures-bind (Wrote seq event db) (context (ext.render_json event) _) _ λ _ _.
            Ensures-bind (Wrote seq event db) (or_bail event.monitor_event _) _ λ message sent.
              Ensures-bind {A = Db × Cache} (Wrote seq event db)
                (update_sidechain_instances ext _ event (db, cache)) _
                λ updated e.
                  Ensures-bind {A = Option String × Cache} (Wrote seq event db)
                    (resolve_instance facts.sidechain slot id updated.0 updated.1) _
                    λ resolved _.
                      let kept =
                        update_sidechain_instances-SameTables ext _ event db cache updated e in
                      let (o, added, observed, number, by, fact, stored, count, bound, last) =
                        insert_fact-HasStored method seq _ updated.0 in
                      (
                        o,
                        added,
                        observed ∙ ap (λ l. l ++ (o ∷ [])) kept.0,
                        (
                          facts,
                          message,
                          context-ok (facts_of_event event) _ facts described,
                          or_bail-some event.monitor_event _ message sent,
                          number,
                          by,
                          sym (ap (λ (k : FactKey). k.store) fact.0),
                          sym (ap (λ (k : FactKey). k.kind) fact.0),
                          sym (ap (λ (k : FactKey). k.sidechain) fact.0),
                          sym fact.1,
                          sym fact.2,
                        ),
                        stored ∙ ap (λ l. l ++ added) kept.1,
                        count,
                        bound,
                        last ∙ kept.2,
                      )

    -- What the events add to the tables.
    abbrev pub WroteAll : ℕ → List Event → Db → ℕ × Db → Type 0
    WroteAll seq events db (n, after) =
        (os : List Observation) × (added : List Fact) × (after.observations ≡ db.observations ++ os)
        × Describe seq events os
        × (after.facts ≡ db.facts ++ added)
        × (length added ≡ n)
        × (n ≤ length events)
        × (after.capture_seq ≡ db.capture_seq)

    pub insert_events-WroteAll :
        (instance : Option SidechainInstanceRef) (events : List Event) (seq : ℕ) (db : Db)
        (cache : Cache)
        → Ensures
            (WroteAll seq events db)
            (insert_events ext store method group instance seq events (db, cache))
    unfolding insert_events
    insert_events-WroteAll instance [] seq db cache = (
      [],
      [],
      sym (append-nil db.observations),
      tt,
      sym (append-nil db.facts),
      refl,
      omega arith,
      refl,
    )
    insert_events-WroteAll instance (event ∷ rest) seq db cache =
        Ensures-bind {A = ℕ × Db × Cache} (WroteAll seq (event ∷ rest) db)
          (insert ext store method group (slot_of instance) (id_of instance) seq event (db, cache))
          _
          λ stored e.
            Ensures-bind {A = ℕ × Db} (WroteAll seq (event ∷ rest) db)
              (insert_events ext store method group instance (suc seq) rest (stored.1, stored.2)) _
              λ later l.
                let (o, added, observed, described, facts, count, bound, last) =
                  Ensures-ok (Wrote seq event db) _ stored
                    (insert-Wrote (slot_of instance) (id_of instance) seq event db cache) e in
                let (os, more, observed', described', facts', count', bound', last') =
                  Ensures-ok (WroteAll (suc seq) rest stored.1) _ later
                    (insert_events-WroteAll instance rest (suc seq) stored.1 stored.2) l in
                (
                  o ∷ os,
                  added ++ more,
                  observed' ∙ ap (λ k. k ++ os) observed ∙ append_assoc db.observations (o ∷ []) os,
                  (described, described'),
                  facts' ∙ ap (λ k. k ++ more) facts ∙ append_assoc db.facts added more,
                  omega (arith, length-append added more, count, count'),
                  omega (arith, bound, bound'),
                  last' ∙ last,
                )
