-- ===== src/Tests/Amounts.antt =====
-- Tests of the confirmed fees.
use bip300_monitor.Base.{ℕ, ◌+◌, ◌<◌, ◌^◌, ◌≡◌, refl, false, some, List, [], ◌∷◌, length}
use bip300_monitor.Failure.{Result, ok, traverse}
use bip300_monitor.Fees.{FeeTransaction, is_empty, sum_amounts, transaction_fee}
use bip300_monitor.Fees.Amounts.{sum, transaction_fee-ok}
use bip300_monitor.Fees.Jobs.{after_failures, failed_job, after_failures-failed_job}

abbrev sats : ℕ → Result ℕ
sats n = ok n

abbrev transaction : FeeTransaction ℕ
transaction = record { vin = some (70 ∷ 50 ∷ []); vout = some (100 ∷ []) }

fee_is_computed : transaction_fee sats transaction ≡ ok 20
unfolding transaction_fee sum_amounts
fee_is_computed = refl

transaction_fee-ok_example :
    (inputs : List ℕ) × (outputs : List ℕ) × (ins : List ℕ) × (outs : List ℕ) × (some (70 ∷ 50 ∷ [])
      ≡ some inputs)
    × (some (100 ∷ []) ≡ some outputs)
    × (is_empty inputs ≡ false)
    × (traverse sats inputs ≡ ok ins)
    × (traverse sats outputs ≡ ok outs)
    × (sum outs + 20 ≡ sum ins)
    × (sum ins < 2 ^ 64)
transaction_fee-ok_example = transaction_fee-ok sats transaction 20 fee_is_computed

after_failures-failed_job_example :
    after_failures "missing" (30 ∷ 20 ∷ 10 ∷ [])
    ≡ some (failed_job (length {A = ℕ} (20 ∷ 10 ∷ [])) 30 "missing")
after_failures-failed_job_example = after_failures-failed_job "missing" 30 (20 ∷ 10 ∷ [])
