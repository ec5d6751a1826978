-- ===== src/Backfill/World.antt =====
-- What one walk of extractors/enforcer/src/backfill.rs acts on: the record, and an environment that
-- answers for the RPC client, the shutdown channel, the database connection and the other workers.
use bip300_monitor.Base.{ℕ, Bool, String, Option, none, some, List, ◌++◌}
use bip300_monitor.Failure.{Error, Result, ok, err}
use bip300_monitor.Proto.{ObservedBlock}
use bip300_monitor.Store.Rows.{Fact, Observation, Db}
use bip300_monitor.Store.Update.{Tx}

-- What the other workers of the process wrote since the last call: live facts, their conflicts and
-- occurrences, and the sidechain lifecycle. The walks of other scopes, which write their own cursors,
-- are not among them.
pub record LiveWrites : Type 0 where
  pub facts : List Fact
  pub conflicts : List Fact
  pub observations : List Observation
  pub instances : List (ℕ × String)
  pub current : List (ℕ × String)
  pub capture_seq : Option ℕ

unfoldable pub apply_live : LiveWrites → Db → Db
apply_live writes db = record db {
  facts = db.facts ++ writes.facts;
  conflicts = db.conflicts ++ writes.conflicts;
  observations = db.observations ++ writes.observations;
  instances = writes.instances;
  current = writes.current;
  capture_seq = writes.capture_seq;
}

-- The environment's answers. `connection` is the error of a database call that fails by itself.
pub record Io (E P : Type 0) : Type 0 where
  pub fetch : ObservedBlock → ℕ → E → Result (List P) × E
  pub current_tip : E → Result ObservedBlock × E
  pub shutdown_requested : E → Bool × E
  pub shutdown_while_paused : E → Bool × E
  pub connection : E → Option Error × E
  pub others : E → Db → LiveWrites × E

pub record World (E : Type 0) : Type 0 where
  pub db : Db
  pub env : E

abbrev pub M : Type 0 → Type 0 → Type 0
M E A = World E → Result A × World E

module _ {E : Type 0} where
  abbrev pub pure : {A : Type 0} → A → M E A
  pure a w = (ok a, w)

  abbrev pub fail : {A : Type 0} → Error → M E A
  fail e w = (err e, w)

  abbrev pub lift : {A : Type 0} → Result A → M E A
  lift r w = (r, w)

  abbrev continue : {A B : Type 0} → Result A → (A → M E B) → M E B
  continue (ok a) f w = f a w
  continue (err e) f w = (err e, w)

  infixl 5 ◌>>=◌ ◌>>◌
  unfoldable pub ◌>>=◌ : {A B : Type 0} → M E A → (A → M E B) → M E B
  ◌>>=◌ m f w = let (r, w') = m w in continue r f w'

  abbrev pub ◌>>◌ : {B : Type 0} → M E (Unit {0}) → M E B → M E B
  m >> k = m >>= λ _. k

  -- The result of a call whose error the caller looks at.
  abbrev pub attempt : {A : Type 0} → M E A → M E (Result A)
  attempt m w = let (r, w') = m w in (ok r, w')

  -- A read of the environment alone.
  abbrev pub ask : {A : Type 0} → (E → A × E) → M E A
  ask f w = let (a, env') = f w.env in (ok a, record w { env = env' })

  abbrev pub rpc : {A : Type 0} → (E → Result A × E) → M E A
  rpc f w = let (r, env') = f w.env in (r, record w { env = env' })

module _ {E P : Type 0} (io : Io E P) where
  abbrev pub perform : {A : Type 0} → Option Error → Tx A → M E A
  perform (some e) tx w = (err e, w)
  perform none tx w = let (r, db') = tx w.db in (r, record w { db = db' })

  -- One call of the store: the others' writes come before it, and a broken connection fails it.
  unfoldable pub store_call : {A : Type 0} → Tx A → M E A
  unfolding apply_live
  store_call tx w =
      let (writes, env1) = io.others w.env w.db in
      let (fault, env2) = io.connection env1 in
      perform fault tx (record { db = apply_live writes w.db; env = env2 })
