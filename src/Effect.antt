-- ===== src/Effect.antt =====
-- Calls that answer with a result and change a state: transactions, and replies of an environment.
pub mod Laws
use bip300_monitor.Failure.{Error, Result, ok, err}

-- A call on a state.
abbrev pub Call : Type 0 → Type 0 → Type 0
Call S A = S → Result A × S

-- The transaction is rolled back when it fails.
abbrev pub commit : {S A : Type 0} → S → Result (A × S) → Result A × S
commit before (ok (a, after)) = (ok a, after)
commit before (err e) = (err e, before)

module _ {S : Type 0} where
  abbrev pub pure : {A : Type 0} → A → Call S A
  pure a s = (ok a, s)

  abbrev pub fail : {A : Type 0} → Error → Call S A
  fail e s = (err e, s)

  abbrev pub lift : {A : Type 0} → Result A → Call S A
  lift r s = (r, s)

  abbrev pub continue : {A B : Type 0} → Result A × S → (A → Call S B) → Result B × S
  continue (ok a, s) f = f a s
  continue (err e, s) f = (err e, s)

  infixl 5 ◌>>=◌ ◌>>◌
  unfoldable pub ◌>>=◌ : {A B : Type 0} → Call S A → (A → Call S B) → Call S B
  ◌>>=◌ m f s = continue (m s) f

  abbrev pub ◌>>◌ : {B : Type 0} → Call S (Unit {0}) → Call S B → Call S B
  m >> k = m >>= λ _. k

  -- The result of a call whose error the caller looks at.
  abbrev pub attempted : {A : Type 0} → Call S A → Call S (Result A)
  attempted m s = let (r, after) = m s in (ok r, after)
