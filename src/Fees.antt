-- ===== src/Fees.antt =====
-- Confirmed fees: `transaction_fee` of extractors/enforcer/src/fees.rs and `schedule_fee_job` of
-- shared/src/store.rs. The fields of the node's JSON, and the amount of one of them (`sats`, by the
-- bitcoin crate), are parameters.
pub mod Amounts
pub mod Jobs
use bip300_monitor.Base.{
  ℕ, suc, ◌+◌, ◌-◌, ◌*◌, ◌^◌, min, Bool, true, false, not, String, Option, none, some, List, [],
  ◌∷◌, ltb, leb, if◌then◌else◌,
}
use bip300_monitor.Failure.{Result, ok, err, bail, or_bail, ensure, ◌>>=◌, ◌>>◌}

-- What the code reads of a transaction: the amounts of its inputs' outputs and of its outputs.
pub record FeeTransaction (V : Type 0) : Type 0 where
  pub vin : Option (List V)
  pub vout : Option (List V)

-- `u64::checked_add` and `u64::checked_sub`.
abbrev pub checked_add : ℕ → ℕ → Option ℕ
checked_add a b = if ltb (a + b) (2 ^ 64) then some (a + b) else none

abbrev pub checked_sub : ℕ → ℕ → Option ℕ
checked_sub a b = if leb b a then some (a - b) else none

abbrev pub is_empty {ℓ} : {A : Type ℓ} → List A → Bool
is_empty [] = true
is_empty (_ ∷ _) = false

module _ {V : Type 0} (sats : V → Result ℕ) where
  -- The loop over the inputs, or over the outputs.
  unfoldable pub sum_amounts : String → ℕ → List V → Result ℕ
  sum_amounts text total [] = ok total
  sum_amounts text total (v ∷ vs) = do
    amount ← sats v
    next ← or_bail (checked_add total amount) text
    sum_amounts text next vs

  -- `transaction_fee`.
  unfoldable pub transaction_fee : FeeTransaction V → Result ℕ
  unfolding sum_amounts
  transaction_fee tx = do
    inputs ← or_bail tx.vin "missing inputs"
    ensure (not (is_empty inputs)) "empty input list"
    input ← sum_amounts "input amount overflow" 0 inputs
    outputs ← or_bail tx.vout "missing outputs"
    output ← sum_amounts "output amount overflow" 0 outputs
    or_bail (checked_sub input output) "negative transaction fee"

pub data JobStatus : Type 0 where
  done pending abandoned : JobStatus

-- A row of `bmm_fee_job`; the instant of its next attempt is in hours.
pub record FeeJob : Type 0 where
  pub attempts : ℕ
  pub status : JobStatus
  pub next_retry_at : Option ℕ
  pub last_error : Option String

abbrev pub fee_job_max_attempts : ℕ
fee_job_max_attempts = 10

-- `schedule_fee_job` at an instant: the row is inserted, or updated.
unfoldable pub schedule_fee_job : ℕ → Bool → Option String → Option FeeJob → FeeJob
schedule_fee_job now is_done error none = record {
  attempts = 1;
  status = if is_done then done else pending;
  next_retry_at = if is_done then none else some (now + 1);
  last_error = error;
}
schedule_fee_job now is_done error (some job) = record {
  attempts = job.attempts + 1;
  status =
      if is_done
      then done
      else if leb fee_job_max_attempts (job.attempts + 1)
      then abandoned
      else pending;
  next_retry_at =
      if is_done
      then none
      else if leb fee_job_max_attempts (job.attempts + 1)
      then none
      else some (now + min 24 (1 * 2 ^ job.attempts));
  last_error = error;
}

-- `record_fee_failure`.
unfoldable pub record_fee_failure : ℕ → String → Option FeeJob → FeeJob
unfolding schedule_fee_job
record_fee_failure now error job = schedule_fee_job now false (some error) job
