-- ===== src/Base/Texts.antt =====
-- Texts and byte strings with decided equality.
use Prim.Native.Nat.{ℕ}
use Prim.Native.String.{String}
use mathlib.Core.Logic.{inl, inr}
use mathlib.Core.List.{List}
use native.Mathlib.Decide.{ℕ_discrete}
use text.Mathlib.Text.{◌==◌}
use text.Mathlib.TextEquality.{eq_iff}
use bip300_monitor.Base.Bools.{Bool-cases}

-- A `Vec<u8>`: each element is a byte.
abbrev pub Bytes : Type 0
Bytes = List ℕ

unfoldable pub bytes_discrete : Discrete Bytes
unfolding ℕ_discrete
bytes_discrete = hlevel ℕ_discrete

unfoldable pub string_discrete : Discrete String
unfolding Bool-cases
string_discrete a b = elim (Bool-cases (a == b)) [
  | inl e ↦ yes ((eq_iff a b).0 e)
  | inr e ↦ no (λ p. cc (e, (eq_iff a b).1 p))
]
