-- ===== src/Store/Insert/Once.antt =====
-- The constraint `event_identity` over two insertions by shared/src/store.rs.
use bip300_monitor.Base.{
  ℕ, ◌≡◌, refl, Bool, true, none, some, List, [], ◌∷◌, ◌++◌, bytes_discrete, find, Bool-cases,
  Option-cases, same_self, length, length-append, suc, inl, inr, arith,
}
use bip300_monitor.Store.Types.{CaptureMethod, fact_key_discrete}
use bip300_monitor.Store.Rows.{Fact, Db}
use bip300_monitor.Store.Insert.{same_identity, observe, add_fact, observe_block_fact, insert_fact}

find-append :
    (p : Fact → Bool) (fs : List Fact) (f : Fact)
    → p f ≡ true
    → (g : Fact) × (find p (fs ++ f ∷ []) ≡ some g)
find-append p [] f e = (f, ground arith)
find-append p (x ∷ xs) f e = elim (Bool-cases (p x)) [
  | inl h ↦ (x, ground arith)
  | inr h ↦ let (g, q) = find-append p xs f e in (g, ground (arith, q))
]

same_identity_self : (f : Fact) → same_identity f f ≡ true
unfolding same_identity
same_identity_self f =
    let k = same_self fact_key_discrete f.key in
    let s = same_self bytes_discrete f.fact_sha256 in
    elim (Option-cases f.block_hash) [
      | inl n ↦ ground arith
      | inr (h, q) ↦ let b = same_self bytes_discrete h in ground arith
    ]

insert_fact_known :
    (method : CaptureMethod) (seq : ℕ) (new g : Fact) (db : Db)
    → find (same_identity new) db.facts ≡ some g
    → insert_fact method seq new db ≡ (0, observe method seq g db)
unfolding insert_fact
insert_fact_known method seq new g db q = rw (insert_fact, q) refl

pub insert_fact_new :
    (method : CaptureMethod) (seq : ℕ) (new : Fact) (db : Db)
    → find (same_identity new) db.facts ≡ none
    → insert_fact method seq new db
      ≡ (1, observe method seq new (add_fact new (observe_block_fact new db)))
unfolding insert_fact
insert_fact_new method seq new db q = rw (insert_fact, q) refl

observe_block_fact-facts : (new : Fact) (db : Db) → (observe_block_fact new db).facts ≡ db.facts
unfolding observe_block_fact
observe_block_fact-facts new db = ground arith

-- The fact is there after its insertion, be it new or not.
insert_fact-find :
    (method : CaptureMethod) (seq : ℕ) (new : Fact) (db : Db)
    → (g : Fact) × (find (same_identity new) (insert_fact method seq new db).1.facts ≡ some g)
insert_fact-find method seq new db = elim (Option-cases (find (same_identity new) db.facts)) [
  | inr (g, q) ↦ (g, rw (insert_fact_known method seq new g db q) q)
  | inl n ↦
      let (g, q) = find-append (same_identity new) db.facts new (same_identity_self new) in
      (g, rw (insert_fact_new method seq new db n, observe_block_fact-facts new db) q)
]

-- A fact that was inserted is not inserted again, by whatever method: its second insertion reports no
-- new row, adds one observation, and leaves the facts and the conflicts as they were.
pub insert_fact-again :
    (method method' : CaptureMethod) (seq seq' : ℕ) (new : Fact) (db : Db)
    → let once = (insert_fact method seq new db).1 in
      let twice = insert_fact method' seq' new once in
      (twice.0 ≡ 0)
      × (twice.1.facts ≡ once.facts)
      × (twice.1.conflicts ≡ once.conflicts)
      × (length twice.1.observations ≡ suc (length once.observations))
insert_fact-again method method' seq seq' new db =
    let once = (insert_fact method seq new db).1 in
    let (g, q) = insert_fact-find method seq new db in
    rw (insert_fact_known method' seq' new g once q)
      (refl, refl, refl, omega (arith, length-append once.observations (_ ∷ [])))
