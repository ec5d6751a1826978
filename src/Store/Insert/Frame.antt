-- ===== src/Store/Insert/Frame.antt =====
-- The tables that `insert` of shared/src/store.rs does not write.
use bip300_monitor.Base.{ℕ, ◌≡◌, ◌∙◌, Bool, Option, String, arith}
use bip300_monitor.Failure.{ok, or_bail, context, Ensures, Ensures-bind}
use bip300_monitor.Proto.{Event}
use bip300_monitor.Store.Types.{Externals, Store, CaptureMethod, SnapshotConsistency}
use bip300_monitor.Store.Rows.{Fact, Db}
use bip300_monitor.Store.Facts.{facts_of_event}
use bip300_monitor.Store.Instances.{Cache, update_sidechain_instances, resolve_instance}
use bip300_monitor.Store.Insert.{insert, insert_fact, observe_block_fact}

-- The tables that hold the cursors are the same.
abbrev pub SameCursors : Db → Db → Type 0
SameCursors a b = (a.coverage ≡ b.coverage) × (a.certified ≡ b.certified)

update_sidechain_instances-SameCursors :
    (ext : Externals) (b : Bool) (event : Event) (db : Db) (cache : Cache) (after : Db × Cache)
    → update_sidechain_instances ext b event (db, cache) ≡ ok after
    → SameCursors after.0 db
unfolding update_sidechain_instances
update_sidechain_instances-SameCursors ext b event db cache after e = ground arith

insert_fact-SameCursors :
    (method : CaptureMethod) (seq : ℕ) (new : Fact) (db : Db)
    → SameCursors (insert_fact method seq new db).1 db
unfolding insert_fact observe_block_fact
insert_fact-SameCursors method seq new db = ground arith

module _ (ext : Externals) (store : Store) (method : CaptureMethod)
    (group : Option SnapshotConsistency) (slot : Option ℕ) (id : Option String) (seq : ℕ)
    (event : Event) (db : Db) (cache : Cache) where
  abbrev Kept : ℕ × Db × Cache → Type 0
  Kept after = SameCursors after.1 db

  pub insert-Kept : Ensures Kept (insert ext store method group slot id seq event (db, cache))
  unfolding insert
  insert-Kept = Ensures-bind Kept (context (facts_of_event event) _) _ λ facts _.
      Ensures-bind Kept (context (ext.render_json event) _) _ λ _ _.
        Ensures-bind Kept (or_bail event.monitor_event _) _ λ _ _.
          Ensures-bind {A = Db × Cache} Kept (update_sidechain_instances ext _ event (db, cache)) _
            λ updated e.
              Ensures-bind Kept (resolve_instance facts.sidechain slot id updated.0 updated.1) _
                λ _ _.
                  let same =
                    update_sidechain_instances-SameCursors ext _ event db cache updated e in
                  let kept = insert_fact-SameCursors method seq _ updated.0 in
                  (kept.0 ∙ same.0, kept.1 ∙ same.1)
