-- ===== src/Fees/Amounts.antt =====
-- The fee of a transaction is exact.
use bip300_monitor.Base.{
  ℕ, ◌+◌, ◌-◌, ◌^◌, ◌<◌, ◌≡◌, refl, inl, inr, false, not, String, some, List, [], ◌∷◌, ltb, leb,
  leb→le, Bool-cases, Option-cases, arith,
}
use bip300_monitor.Failure.{Result, ok, or_bail, traverse, Result-cases, ensure-ok}
use bip300_monitor.Fees.{FeeTransaction, checked_sub, is_empty, sum_amounts, transaction_fee}

abbrev pub sum : List ℕ → ℕ
sum [] = 0
sum (x ∷ xs) = x + sum xs

module _ {V : Type 0} (sats : V → Result ℕ) where
  sum_amounts-ok :
      (text : String) (total : ℕ) (vs : List V) (s : ℕ)
      → total < 2 ^ 64
      → sum_amounts sats text total vs ≡ ok s
      → (amounts : List ℕ) × (traverse sats vs ≡ ok amounts)
        × (s ≡ total + sum amounts)
        × (s < 2 ^ 64)
  unfolding sum_amounts
  sum_amounts-ok text total [] s bound e = ([], refl, ground arith, ground arith)
  sum_amounts-ok text total (v ∷ vs) s bound e = elim (Result-cases (sats v)) [
    | inr (x, q) ↦ absurd (ground arith)
    | inl (amount, q) ↦ elim (Bool-cases (ltb (total + amount) (2 ^ 64))) [
      | inr over ↦ absurd (ground arith)
      | inl small ↦
          let later : sum_amounts sats text (total + amount) vs ≡ ok s = rw (q, small) at e in
          let (amounts, read, total_eq, fits) =
            sum_amounts-ok text (total + amount) vs s (ground arith) later in
          (amount ∷ amounts, rw (q, read) refl, omega (arith, total_eq), fits)
    ]
  ]

  -- A fee that is computed is exact: the transaction has inputs, each amount was read, the amounts of
  -- the outputs and the fee make up those of the inputs, and no sum reached 2^64.
  pub transaction_fee-ok :
      (tx : FeeTransaction V) (fee : ℕ)
      → transaction_fee sats tx ≡ ok fee
      → (inputs : List V) × (outputs : List V) × (ins : List ℕ) × (outs : List ℕ) × (tx.vin
          ≡ some inputs)
        × (tx.vout ≡ some outputs)
        × (is_empty inputs ≡ false)
        × (traverse sats inputs ≡ ok ins)
        × (traverse sats outputs ≡ ok outs)
        × (sum outs + fee ≡ sum ins)
        × (sum ins < 2 ^ 64)
  unfolding transaction_fee
  transaction_fee-ok tx fee e = elim (Option-cases tx.vin) [
    | inl q ↦ absurd (ground arith)
    | inr (inputs, q) ↦
        let (some_input, e1) = ensure-ok (not (is_empty inputs)) _ _ fee (rw (q) at e) in
        elim (Result-cases (sum_amounts sats "input amount overflow" 0 inputs)) [
          | inr (x, i) ↦ absurd (ground arith)
          | inl (input, i) ↦ elim (Option-cases tx.vout) [
            | inl o ↦ absurd (ground arith)
            | inr (outputs, o) ↦
                elim (Result-cases (sum_amounts sats "output amount overflow" 0 outputs)) [
                  | inr (x, u) ↦ absurd (ground arith)
                  | inl (output, u) ↦
                      let (ins, read_ins, ins_eq, fits) =
                        sum_amounts-ok "input amount overflow" 0 inputs input (omega arith) i in
                      let (outs, read_outs, outs_eq, _) =
                        sum_amounts-ok "output amount overflow" 0 outputs output (omega arith) u in
                      let rest : or_bail (checked_sub input output) "negative transaction fee"
                          ≡ ok fee =
                        rw (i, o, u) at e1 in
                      elim (Bool-cases (leb output input)) [
                        | inr negative ↦ absurd (ground arith)
                        | inl positive ↦
                            let difference : input - output ≡ fee = ground arith in
                            (
                              inputs,
                              outputs,
                              ins,
                              outs,
                              q,
                              o,
                              ground arith,
                              read_ins,
                              read_outs,
                              omega (
                                arith,
                                ins_eq,
                                outs_eq,
                                difference,
                                leb→le output input positive,
                              ),
                              omega (arith, ins_eq, fits),
                            )
                      ]
                ]
          ]
        ]
  ]
