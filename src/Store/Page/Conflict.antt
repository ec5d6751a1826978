-- ===== src/Store/Page/Conflict.antt =====
-- The conflicts of shared/schema/0010_official_contract_9.sql and the queries of `record_history_page`.
use bip300_monitor.Base.{
  ℕ, ◌≡◌, Bool, true, ◌&&◌, Option, none, some, List, [], ◌∷◌, ◌++◌, Bytes, bytes_discrete, any,
  find, filter, same_self, same-eq, arith,
}
use bip300_monitor.Store.Types.{CaptureMethod}
use bip300_monitor.Store.Rows.{Fact, Db}
use bip300_monitor.Store.Certify.{same_hash}
use bip300_monitor.Store.Insert.{
  same_identity, contradicts, is_block_kind, observe_block_fact, insert_fact,
}
use bip300_monitor.Store.Insert.Once.{insert_fact_new}
use bip300_monitor.Store.Page.{in_scope, hash_in, page_has_conflict}

any-append : (q : Fact → Bool) (fs gs : List Fact) → any q gs ≡ true → any q (fs ++ gs) ≡ true
any-append q [] gs e = e
any-append q (f ∷ fs) gs e = ground (arith, any-append q fs gs)

any-filter :
    (p q : Fact → Bool) (fs : List Fact)
    → ((f : Fact) → p f ≡ true → q f ≡ true)
    → any p fs ≡ true
    → any q (filter p fs) ≡ true
any-filter p q [] h e = absurd (ground arith)
any-filter p q (f ∷ fs) h e = ground (arith, h f, any-filter p q fs h)

hash_in_self :
    (h : Bytes) (a : Option Bytes) → same_hash a (some h) ≡ true → hash_in (h ∷ []) a ≡ true
hash_in_self h none e = absurd (ground arith)
hash_in_self h (some b) e =
    let p : b ≡ h = same-eq bytes_discrete b h e in
    rw p (ground (arith, same_self bytes_discrete h))

contradiction_is_seen :
    (new f : Fact) (h : Bytes)
    → new.block_hash ≡ some h
    → contradicts new f ≡ true
    → (in_scope new.key f && hash_in (h ∷ []) f.block_hash) ≡ true
unfolding contradicts
contradiction_is_seen new f h e c =
    let t : same_hash f.block_hash new.block_hash ≡ true = ground (arith, c) in
    let s : same_hash f.block_hash (some h) ≡ true = rw e at t in
    ground (arith, hash_in_self h f.block_hash s)

observe_block_fact-conflicts :
    (new : Fact) (db : Db)
    → is_block_kind new.key.kind ≡ true
    → (observe_block_fact new db).conflicts ≡ db.conflicts ++ filter (contradicts new) db.facts
unfolding observe_block_fact
observe_block_fact-conflicts new db k = ground arith

-- A new block fact of which a recorded fact of the same scope and block has another digest makes the
-- page's query find a conflict at that block.
pub insert_fact-conflict :
    (method : CaptureMethod) (seq : ℕ) (new : Fact) (h : Bytes) (db : Db)
    → is_block_kind new.key.kind ≡ true
    → new.block_hash ≡ some h
    → find (same_identity new) db.facts ≡ none
    → any (contradicts new) db.facts ≡ true
    → page_has_conflict new.key (h ∷ []) (insert_fact method seq new db).1 ≡ true
unfolding page_has_conflict
insert_fact-conflict method seq new h db k e n c =
    let seen =
      any-append (λ f. in_scope new.key f && hash_in (h ∷ []) f.block_hash) db.conflicts _
        (any-filter (contradicts new) _ db.facts (λ f. contradiction_is_seen new f h e) c) in
    rw (insert_fact_new method seq new db n, observe_block_fact-conflicts new db k) seen
