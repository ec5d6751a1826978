-- ===== src/Tests/Proofs.antt =====
-- Tests of the certification of a completed scope, and of the insertion of facts.
use bip300_monitor.Base.{
  ℕ, suc, length, find, any, none, string_discrete, bytes_discrete, ℕ, ◌≡◌, refl, true, some, [],
  ◌∷◌,
}
use bip300_monitor.Failure.{ok}
use bip300_monitor.Store.Types.{
  live, backfill, complete, fact_key, coverage_key, coverage_key_discrete, fact_key_discrete,
}
use bip300_monitor.Store.Rows.{Row, Fact, CertifiedBlock, Db}
use bip300_monitor.Store.Insert.{insert_fact, same_identity, contradicts, is_block_kind}
use bip300_monitor.Store.Insert.Once.{insert_fact-again}
use bip300_monitor.Store.Page.{page_has_conflict}
use bip300_monitor.Store.Page.Conflict.{insert_fact-conflict}
use bip300_monitor.Store.Certify.{certify_history}
use bip300_monitor.Store.Certify.Chain.{IsProved, certify_history-IsProved}
use bip300_monitor.Tests.Fixtures.{header, hash, store, scope, row, db}

abbrev fact : ℕ → Fact
fact n = record {
  key = fact_key (coverage_key store scope) "block_connected";
  block_hash = some (header n).hash;
  height = some n;
  previous_hash = some (header n).previous_hash;
  fact_sha256 = hash n;
}

-- The facts of heights 1 and 2, and the row that they complete.
abbrev full_db : Db
full_db = record db { facts = fact 1 ∷ fact 2 ∷ [] }

abbrev full_row : Row
full_row = record row { status = complete; is_completed = true }

abbrev proved : ℕ → CertifiedBlock
proved n = record {
  key = coverage_key store scope;
  block_hash = (header n).hash;
  previous_hash = (header n).previous_hash;
  height = n;
}

full_is_certified : certify_history full_db full_row ≡ ok (proved 2 ∷ proved 1 ∷ [])
unfolding certify_history coverage_key_discrete fact_key_discrete bytes_discrete
full_is_certified = refl

certify_history-IsProved_example : IsProved full_db full_row
certify_history-IsProved_example =
    certify_history-IsProved full_db full_row (proved 2 ∷ proved 1 ∷ []) refl full_is_certified

-- What one insertion leaves, and a second one of the same fact.
abbrev once : Db
once = (insert_fact live 1 (fact 1) db).1

insert_fact-again_example :
    ((insert_fact backfill 2 (fact 1) once).0 ≡ 0)
    × ((insert_fact backfill 2 (fact 1) once).1.facts ≡ once.facts)
    × ((insert_fact backfill 2 (fact 1) once).1.conflicts ≡ once.conflicts)
    × (length (insert_fact backfill 2 (fact 1) once).1.observations
        ≡ suc (length once.observations))
insert_fact-again_example = insert_fact-again live backfill 1 2 (fact 1) db

-- Another fact of the block at height 1.
abbrev other_fact : Fact
other_fact = record (fact 1) { fact_sha256 = hash 9 }

other_is_new : find (same_identity other_fact) full_db.facts ≡ none
unfolding same_identity fact_key_discrete bytes_discrete
other_is_new = refl

other_contradicts : any (contradicts other_fact) full_db.facts ≡ true
unfolding contradicts fact_key_discrete bytes_discrete
other_contradicts = refl

block_kind : is_block_kind "block_connected" ≡ true
unfolding string_discrete
block_kind = refl

insert_fact-conflict_example :
    page_has_conflict other_fact.key
      ((header 1).hash ∷ [])
      (insert_fact backfill 1 other_fact full_db).1
    ≡ true
insert_fact-conflict_example =
    insert_fact-conflict backfill 1 other_fact (header 1).hash full_db block_kind refl other_is_new
      other_contradicts
