-- ===== src/Failure.antt =====
-- Errors as values: `anyhow::Error` as its chain of causes, `Result`, and the classification of
-- RPC errors of extractors/enforcer/src/backfill.rs.
use mathlib.Core.Path.{subst}
use native.Mathlib.Omega.{arith}
use native.Mathlib.Decide.{ℕ_discrete}
use bip300_monitor.Base.{
  ◌≡◌, refl, ◌⊎◌, inl, inr, Bool, true, false, ℕ, String, Option, none, some, List, [], ◌∷◌, any,
  same,
}

-- `tonic::Code`. The codes that the program does not tell apart are `other`.
pub data Code : Type 0 where
  cancelled deadline_exceeded not_found resource_exhausted unavailable : Code
  other : ℕ → Code

unfoldable pub code_discrete : Discrete Code
unfolding ℕ_discrete
code_discrete = hlevel ℕ_discrete

-- One cause of a chain. `status` is a `tonic::Status`, `transport` a `tonic::transport::Error`,
-- `history_conflict` the marker `HistoryConflict` of shared/src/store.rs.
pub data Cause : Type 0 where
  message : String → Cause
  status : Code → Cause
  transport : Cause
  history_conflict : Cause

-- The chain of an error, the outermost context first.
abbrev pub Error : Type 0
Error = List Cause

pub data Result {ℓ} (A : Type ℓ) : Type ℓ where
  ok : A → Result A
  err : Error → Result A

-- `bail!`.
abbrev pub bail {ℓ} : {A : Type ℓ} → String → Result A
bail text = err (message text ∷ [])

infixl 5 ◌>>=◌ ◌>>◌
abbrev pub ◌>>=◌ {ℓ κ} : {A : Type ℓ} {B : Type κ} → Result A → (A → Result B) → Result B
err e >>= rest = err e
ok a >>= rest = rest a

abbrev pub ◌>>◌ {ℓ} : {B : Type ℓ} → Result (Unit {0}) → Result B → Result B
checked >> rest = checked >>= λ _. rest

-- `ensure!`, `Option::context` and `Result::context`.
abbrev pub ensure : Bool → String → Result (Unit {0})
ensure true text = ok tt
ensure false text = bail text

abbrev pub or_bail {ℓ} : {A : Type ℓ} → Option A → String → Result A
or_bail (some a) text = ok a
or_bail none text = bail text

abbrev pub context {ℓ} : {A : Type ℓ} → Result A → String → Result A
context (ok a) text = ok a
context (err e) text = err (message text ∷ e)

-- `Iterator::collect` into a `Result`: the first error ends it.
abbrev pub traverse {ℓ κ} : {A : Type ℓ} {B : Type κ} → (A → Result B) → List A → Result (List B)
traverse f [] = ok []
traverse f (x ∷ xs) = do y ← f x; ys ← traverse f xs; ok (y ∷ ys)

unfoldable pub is_ok {ℓ} : {A : Type ℓ} → Result A → Bool
is_ok (ok _) = true
is_ok (err _) = false

abbrev cause_has_code : Code → Cause → Bool
cause_has_code c (status d) = same code_discrete d c
cause_has_code c _ = false

unfoldable pub error_has_code : Error → Code → Bool
error_has_code e c = any (cause_has_code c) e

unfoldable pub retryable_rpc_error : Error → Bool
unfolding error_has_code
retryable_rpc_error e =
    any (error_has_code e) (cancelled ∷ deadline_exceeded ∷ resource_exhausted ∷ unavailable ∷ [])

unfoldable pub page_too_large : Error → Bool
unfolding error_has_code
page_too_large e = any (error_has_code e) (deadline_exceeded ∷ resource_exhausted ∷ [])

-- `error.is::<HistoryConflict>()`.
abbrev is_conflict_cause : Cause → Bool
is_conflict_cause history_conflict = true
is_conflict_cause _ = false

unfoldable pub is_history_conflict : Error → Bool
is_history_conflict e = any is_conflict_cause e

-- The two outcomes of a call.
unfoldable pub Result-cases {ℓ} :
    {A : Type ℓ} (r : Result A) → ((a : A) × (r ≡ ok a)) ⊎ ((e : Error) × (r ≡ err e))
Result-cases (ok a) = inl (a, refl)
Result-cases (err e) = inr (e, refl)

-- What holds of the value of a call, if it returns one.
abbrev pub Ensures {ℓ κ} : {A : Type ℓ} → (A → Type κ) → Result A → Type κ
Ensures P (ok a) = P a
Ensures P (err e) = Unit

pub Ensures-bind {ℓ κ μ} :
    {A : Type ℓ} {B : Type κ} (P : B → Type μ) (r : Result A) (f : A → Result B)
    → ((a : A) → r ≡ ok a → Ensures P (f a))
    → Ensures P (r >>= f)
Ensures-bind P (ok a) f h = h a refl
Ensures-bind P (err e) f h = tt

pub Ensures-ok {ℓ κ} :
    {A : Type ℓ} (P : A → Type κ) (r : Result A) (a : A) → Ensures P r → r ≡ ok a → P a
Ensures-ok P (ok b) a h e = let p : b ≡ a = cc in subst P p h
Ensures-ok P (err x) a h e = absurd (ground arith)

-- A sequence that succeeded: a check that held, or a call that returned, and what follows.
pub ensure-ok {ℓ} :
    {A : Type ℓ} (b : Bool) (text : String) (rest : Result A) (a : A)
    → (ensure b text >> rest) ≡ ok a
    → (b ≡ true) × (rest ≡ ok a)
ensure-ok true text rest a e = (refl, e)
ensure-ok false text rest a e = absurd (ground arith)

pub returned-ok {ℓ κ} :
    {A : Type ℓ} {B : Type κ} (r : Result A) (f : A → Result B) (b : B)
    → (r >>= f) ≡ ok b
    → (a : A) × (r ≡ ok a) × (f a ≡ ok b)
returned-ok (ok a) f b e = (a, refl, e)
returned-ok (err x) f b e = absurd (ground arith)
