-- ===== src/Effect/Laws.antt =====
-- Calls that succeed, taken apart.
use bip300_monitor.Base.{◌≡◌, refl, ap, true, String, arith}
use bip300_monitor.Failure.{Result, ok, err, is_ok, context}
use bip300_monitor.Effect.{Call, continue, ◌>>=◌}

pub context-ok :
    {A : Type 0} (r : Result A) (text : String) (a : A) → context r text ≡ ok a → r ≡ ok a
context-ok (ok x) text a e = e
context-ok (err x) text a e = absurd (ground arith)

module _ {S : Type 0} where
  continue-ok :
      {A B : Type 0} (r : Result A × S) (f : A → Call S B) (b : B) (after : S)
      → continue r f ≡ (ok b, after)
      → (a : A) × (between : S) × (r ≡ (ok a, between)) × (f a between ≡ (ok b, after))
  continue-ok (ok a, between) f b after e = (a, between, refl, e)
  continue-ok (err x, between) f b after e = absurd (ground arith)

  -- A sequence of calls that succeeded: its first call did, and the rest from there on.
  pub bind-ok :
      {A B : Type 0} (m : Call S A) (f : A → Call S B) (s : S) (b : B) (after : S)
      → (m >>= f) s ≡ (ok b, after)
      → (a : A) × (between : S) × (m s ≡ (ok a, between)) × (f a between ≡ (ok b, after))
  unfolding ◌>>=◌
  bind-ok m f s b after e = continue-ok (m s) f b after e

  -- After a call that succeeded comes the rest.
  pub bind-after :
      {A B : Type 0} (m : Call S A) (f : A → Call S B) (s : S) (a : A) (between : S)
      → m s ≡ (ok a, between)
      → (m >>= f) s ≡ f a between
  unfolding ◌>>=◌
  bind-after m f s a between e = ap (λ r. continue r f) e

  -- A call that answers.
  pub answered :
      {A : Type 0} (r : Result A × S)
      → is_ok r.0 ≡ true
      → (a : A) × (after : S) × (r ≡ (ok a, after))
  unfolding is_ok
  answered (ok a, after) h = (a, after, refl)
  answered (err x, after) h = absurd (ground arith)
