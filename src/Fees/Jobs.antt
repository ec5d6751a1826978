-- ===== src/Fees/Jobs.antt =====
-- How often a block is tried.
use bip300_monitor.Base.{
  ℕ, suc, ◌+◌, ◌*◌, ◌^◌, ◌≡◌, refl, ap, ◌∙◌, min, String, Option, none, some, List, [], ◌∷◌, length,
  leb, arith, if◌then◌else◌,
}
use bip300_monitor.Fees.{
  pending, abandoned, FeeJob, fee_job_max_attempts, schedule_fee_job, record_fee_failure,
}

-- The job after failures at some instants, the last one first.
abbrev pub after_failures : String → List ℕ → Option FeeJob
after_failures error [] = none
after_failures error (now ∷ before) =
    some (record_fee_failure now error (after_failures error before))

abbrev delay : ℕ → ℕ
delay attempts = min 24 (1 * 2 ^ attempts)

-- The job after so many failures, the last one at an instant.
abbrev pub failed_job : ℕ → ℕ → String → FeeJob
failed_job n now error = record {
  attempts = suc n;
  status = if leb fee_job_max_attempts (suc n) then abandoned else pending;
  next_retry_at = if leb fee_job_max_attempts (suc n) then none else some (now + min 24 (2 ^ n));
  last_error = some error;
}

next_number : (n : ℕ) → suc n + 1 ≡ suc (suc n)
next_number n = omega arith

one_hour : (n : ℕ) → 1 * 2 ^ n ≡ 2 ^ n
one_hour n = omega arith

failed_again :
    (error : String) (now earlier n : ℕ)
    → some (record_fee_failure now error (some (failed_job n earlier error)))
      ≡ some (failed_job (suc n) now error)
unfolding record_fee_failure schedule_fee_job
failed_again error now earlier n = rw (next_number n, one_hour (suc n)) refl

-- A block whose enrichment failed each time has one attempt for each failure. Up to the ninth it waits
-- for the next one, an hour after the first and twice as long each time, but never longer than a day;
-- from the tenth on it is abandoned and has no next attempt.
pub after_failures-failed_job :
    (error : String) (now : ℕ) (before : List ℕ)
    → after_failures error (now ∷ before) ≡ some (failed_job (length before) now error)
unfolding record_fee_failure schedule_fee_job
after_failures-failed_job error now [] = refl
after_failures-failed_job error now (earlier ∷ before) =
    ap (λ job. some (record_fee_failure now error job))
      (after_failures-failed_job error earlier before)
    ∙ failed_again error now earlier (length before)
