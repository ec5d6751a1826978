-- ===== src/Runtime/Refresh/Laws.antt =====
-- What the state worker leaves behind.
use mathlib.Core.Path.{subst}
use bip300_monitor.Base.{
  some, none, ℕ, zero, suc, ◌≤◌, ◌≡◌, refl, sym, ap, ◌∙◌, ◌⊎◌, inl, inr, Bool, true, false, not,
  ◌&&◌, ◌||◌, Bytes, bytes_discrete, same, same-eq, Bool-cases, arith,
}
use bip300_monitor.Failure.{Result, ok, err}
use bip300_monitor.Effect.Laws.{bind-ok}
use bip300_monitor.State.{Publication, needs_retry}
use bip300_monitor.Runtime.Sampling.{snapshot_max_attempts, within}
use bip300_monitor.Runtime.Refresh.{
  Reading, Refresher, RefreshIo, RefreshEnd, waiting, RefreshDesk, is_unsettled, ask, observe,
  handle_reading, refresh_once, refresh_attempts, refresh_block,
}

-- A block was taken up: it is noted as refreshed, or the last read failed.
abbrev IsTaken : Bytes → Refresher → Type 0
IsTaken block w = (w.read_failed ≡ true) ⊎ (w.refreshed_at ≡ block)

first_true : (a b : Bool) → (a && b) ≡ true → a ≡ true
first_true true b e = refl
first_true false b e = absurd (ground arith)

or_true : (a b : Bool) → b ≡ true → (a || b) ≡ true
or_true a b e = ground arith

module _ {E : Type 0} (io : RefreshIo E) where
  handle_reading-ok :
      (block : Bytes) (attempt : ℕ) (read : Result Reading) (desk after : RefreshDesk E)
      (again : Bool)
      → handle_reading io block attempt read desk ≡ (ok again, after)
      → IsTaken block after.0
  unfolding handle_reading observe
  handle_reading-ok block attempt (err e) (w, env) after again q =
      let (_, d2, q2, e2) =
        bind-ok (ask io (io.health (some _))) _ (record w { read_failed = true }, env) again after
          q in
      inl (
        sym (ap (λ (r : Result Bool × RefreshDesk E). r.1.0.read_failed) e2)
        ∙ sym (ap (λ (r : Result (Unit {0}) × RefreshDesk E). r.1.0.read_failed) q2))
  handle_reading-ok block attempt (ok reading) (w, env) after again q =
      let (_, d2, q2, e2) =
        bind-ok (ask io (io.health none)) _ (record w { read_failed = false }, env) again after q in
      let (publication, d4, q4, e4) =
        bind-ok (observe io reading) _ (record d2.0 { refreshed_at = block }, d2.1) again after
          e2 in
      let (_, d5, q5, e5) =
        bind-ok (ask io (within (io.publish reading.anchor publication _) _)) _ d4 again after e4 in
      inr (
        sym (ap (λ (r : Result Bool × RefreshDesk E). r.1.0.refreshed_at) e5)
        ∙ sym (ap (λ (r : Result (Unit {0}) × RefreshDesk E). r.1.0.refreshed_at) q5)
        ∙ sym (ap (λ (r : Result Publication × RefreshDesk E). r.1.0.refreshed_at) q4))

  refresh_once-ok :
      (block : Bytes) (attempt : ℕ) (desk after : RefreshDesk E) (again : Bool)
      → refresh_once io block attempt desk ≡ (ok again, after)
      → IsTaken block after.0
  unfolding refresh_once
  refresh_once-ok block attempt (w, env) after again q =
      let (read, later) = io.collect_state env in
      handle_reading-ok block attempt read (w, later) after again q

  refresh_attempts-ok :
      (left attempt : ℕ) (block : Bytes) (desk after : RefreshDesk E)
      → (1 ≤ left) ⊎ IsTaken block desk.0
      → refresh_attempts io left attempt block desk ≡ (ok tt, after)
      → IsTaken block after.0
  unfolding refresh_attempts
  refresh_attempts-ok zero attempt block desk after (inl some_left) q = absurd (ground arith)
  refresh_attempts-ok zero attempt block desk after (inr taken) q =
      subst (IsTaken block) (ap (λ (r : Result (Unit {0}) × RefreshDesk E). r.1.0) q) taken
  refresh_attempts-ok (suc left) attempt block desk after start q =
      let (again, between, q1, e1) = bind-ok (refresh_once io block attempt) _ desk tt after q in
      let taken = refresh_once-ok block attempt desk between again q1 in
      elim (Bool-cases again) [
        | inl a ↦
            refresh_attempts-ok left (suc attempt) block between after (inr taken) (rw (a) at e1)
        | inr a ↦
            subst (IsTaken block)
              (ap (λ (r : Result (Unit {0}) × RefreshDesk E). r.1.0) (rw (a) at e1)) taken
      ]

  -- When the worker waits again, no block is left behind: the block that it was woken for is the one
  -- it has refreshed at, or something is left to read and its timer is set.
  pub refresh_block-waiting :
      (block : Bytes) (desk after : RefreshDesk E)
      → refresh_block io block desk ≡ (ok waiting, after)
      → (after.0.refreshed_at ≡ block) ⊎ (is_unsettled after.0 ≡ true)
  unfolding refresh_block is_unsettled
  refresh_block-waiting block (w, env) after q =
      elim (Bool-cases (
        same bytes_discrete block w.refreshed_at
        && (not (needs_retry w.tracker) && not w.read_failed))) [
          | inl c ↦
              let kept = rw (c) at q in
              inl (
                sym (ap (λ (r : Result RefreshEnd × RefreshDesk E). r.1.0.refreshed_at) kept)
                ∙ sym (
                    same-eq bytes_discrete block w.refreshed_at (
                      first_true (same bytes_discrete block w.refreshed_at)
                        (not (needs_retry w.tracker) && not w.read_failed) c)))
          | inr c ↦
              let (_, between, q1, e1) =
                bind-ok (refresh_attempts io snapshot_max_attempts 1 block) _ (w, env) waiting after
                  (rw (c) at q) in
              let taken =
                subst (IsTaken block) (ap (λ (r : Result RefreshEnd × RefreshDesk E). r.1.0) e1) (
                  refresh_attempts-ok snapshot_max_attempts 1 block (w, env) between
                    (inl (omega arith)) q1) in
              elim taken [
                | inl failed ↦
                    inr (or_true (needs_retry after.0.tracker) after.0.read_failed failed)
                | inr refreshed ↦ inl refreshed
              ]
        ]
