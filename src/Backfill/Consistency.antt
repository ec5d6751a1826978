-- ===== src/Backfill/Consistency.antt =====
-- Predicates on the programs of extractors/enforcer/src/backfill.rs: what keeps the invariant of the
-- coverage table, rule by rule.
pub mod Arms
pub mod Cycle
pub mod Turn
use bip300_monitor.Base.{
  ℕ, zero, suc, ◌≡◌, refl, Bool, true, false, Option, none, some, List, [], ◌∷◌, String, Bytes, inl,
  inr, Bool-cases, same, bytes_discrete, if◌then◌else◌,
}
use bip300_monitor.Failure.{Error, Result, ok, err, message}
use bip300_monitor.Proto.{ObservedBlock, BlockHeader, Event}
use bip300_monitor.Store.Rows.{Db}
use bip300_monitor.Store.Types.{HistoryCoverage}
use bip300_monitor.Store.Update.{Tx}
use bip300_monitor.Store.Invariant.{IsConsistent}
use bip300_monitor.Backfill.World.{
  LiveWrites, apply_live, Io, World, M, pure, fail, lift, attempt, ask, rpc, perform, store_call,
  ◌>>=◌, ◌>>◌,
}

module _ {E : Type 0} where
  -- `m` keeps the invariant, whether it returns or fails.
  pub record Keeps {A : Type 0} (m : M E A) : Type 0 where
    pub at : (w : World E) → IsConsistent w.db → IsConsistent (m w).1.db

  pub Keeps-pure : {A : Type 0} (a : A) → Keeps (pure a)
  Keeps-pure a = record { at = λ w h. h }

  pub Keeps-fail : {A : Type 0} (e : Error) → Keeps (fail {A = A} e)
  Keeps-fail e = record { at = λ w h. h }

  pub Keeps-lift : {A : Type 0} (r : Result A) → Keeps (lift r)
  Keeps-lift r = record { at = λ w h. h }

  pub Keeps-ask : {A : Type 0} (f : E → A × E) → Keeps (ask f)
  Keeps-ask f = record { at = λ w h. h }

  pub Keeps-rpc : {A : Type 0} (f : E → Result A × E) → Keeps (rpc f)
  Keeps-rpc f = record { at = λ w h. h }

  pub Keeps-attempt : {A : Type 0} (m : M E A) → Keeps m → Keeps (attempt m)
  Keeps-attempt m k = record { at = λ w h. k.at w h }

  pub Keeps-if :
      {A : Type 0} (b : Bool) (m n : M E A) → Keeps m → Keeps n → Keeps (if b then m else n)
  Keeps-if true m n km kn = km
  Keeps-if false m n km kn = kn

  bind_at :
      {A B : Type 0} (r : Result A) (f : A → M E B) (w : World E)
      → ((a : A) → Keeps (f a))
      → IsConsistent w.db
      → IsConsistent ((lift r >>= f) w).1.db
  unfolding ◌>>=◌
  bind_at (ok a) f w kf h = (kf a).at w h
  bind_at (err e) f w kf h = h

  pub Keeps-bind :
      {A B : Type 0} (m : M E A) (f : A → M E B)
      → Keeps m
      → ((a : A) → Keeps (f a))
      → Keeps (m >>= f)
  unfolding ◌>>=◌
  Keeps-bind m f km kf = record { at = λ w h. bind_at (m w).0 f (m w).1 kf (km.at w h) }

module _ {E P : Type 0} (io : Io E P) where
  perform_at :
      {A : Type 0} (fault : Option Error) (tx : Tx A) (w : World E)
      → ((db : Db) → IsConsistent db → IsConsistent (tx db).1)
      → IsConsistent w.db
      → IsConsistent (perform io fault tx w).1.db
  perform_at (some e) tx w k h = h
  perform_at none tx w k h = k w.db h

  -- The other workers write no coverage row.
  pub Keeps-store_call :
      {A : Type 0} (tx : Tx A)
      → ((db : Db) → IsConsistent db → IsConsistent (tx db).1)
      → Keeps (store_call io tx)
  unfolding store_call apply_live
  Keeps-store_call tx k = record {
    at = λ w h.
        let (writes, env1) = io.others w.env w.db in
        let (fault, env2) = io.connection env1 in
        perform_at fault tx (record { db = apply_live writes w.db; env = env2 }) k
          (record { rows = h.rows; unique = h.unique });
  }
