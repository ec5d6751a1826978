-- ===== src/Runtime/Sampling/Laws.antt =====
-- What a bracketed read establishes.
use mathlib.Core.Path.{subst}
use bip300_monitor.Base.{
  ℕ, String, zero, suc, ◌+◌, ◌≤◌, ◌≡◌, refl, ap, ◌∙◌, inl, inr, Bool, true, false, ◌&&◌, Option,
  some, bytes_discrete, same, same-eq, Bool-cases, Option-cases, arith,
}
use bip300_monitor.Failure.{Result, ok, err, context, Result-cases}
use bip300_monitor.Effect.{Call}
use bip300_monitor.Effect.Laws.{bind-ok, context-ok}
use bip300_monitor.Proto.{ObservedBlock, EnforcerEvent}
use bip300_monitor.Store.Types.{tip_matched}
use bip300_monitor.Store.Types.{SnapshotMetadata, revision_discrete}
use bip300_monitor.Runtime.Sampling.{
  BmmSource, within, judge_sample, sample_once, sample_attempts, collect_bmm_sample,
}

both_true : (a b : Bool) → (a && b) ≡ true → (a ≡ true) × (b ≡ true)
both_true true b e = (refl, e)
both_true false b e = absurd (ground arith)

context_pair :
    {E A : Type 0} (r : Result A × E) (text : String) (a : A) (after : E)
    → ◌≡◌ {A = Result A × E} (context r.0 text, r.1) (ok a, after)
    → r ≡ (ok a, after)
context_pair (ok x, env) text a after e = e
context_pair (err x, env) text a after e = absurd (ground arith)

within-ok :
    {E A : Type 0} (call : Call E A) (text : String) (env : E) (a : A) (after : E)
    → within call text env ≡ (ok a, after)
    → call env ≡ (ok a, after)
within-ok call text env a after e = context_pair (call env) text a after e

module _ {E R : Type 0} (source : BmmSource E R) where
  -- The payload is converted from the answer for the requests on the first tip, and that answer was
  -- given right between the two reads of the tip.
  abbrev IsAnswer : EnforcerEvent → SnapshotMetadata → Type 0
  IsAnswer payload metadata =
      (start : E) × (asked : E) × (answered : E) × (end : E) × (response : R) × (source.current_tip
          start
        ≡ (ok metadata.tip_before, asked))
      × (source.bmm_requests metadata.tip_before.hash asked ≡ (ok response, answered))
      × (source.current_tip answered ≡ (ok metadata.tip_after, end))
      × (source.convert metadata.tip_before.hash response ≡ ok payload)

  -- A sample of one tip: the reads of the tip and of the revision around the answer agree.
  abbrev pub IsSample : ℕ → EnforcerEvent → SnapshotMetadata → Type 0
  IsSample max_attempts payload metadata =
      (metadata.tip_before.hash ≡ metadata.tip_after.hash)
      × (metadata.revision_before ≡ metadata.revision_after)
      × (metadata.consistency ≡ tip_matched)
      × (1 ≤ metadata.attempts)
      × (metadata.attempts ≤ max_attempts)
      × IsAnswer payload metadata

  judge_sample-ok :
      (attempt : ℕ) (before after : Option String × ObservedBlock) (response : R)
      (payload : EnforcerEvent) (metadata : SnapshotMetadata) (start asked answered end : E)
      → source.current_tip start ≡ (ok before.1, asked)
      → source.bmm_requests before.1.hash asked ≡ (ok response, answered)
      → source.current_tip answered ≡ (ok after.1, end)
      → 1 ≤ attempt
      → judge_sample source attempt before response after ≡ ok (some (payload, metadata))
      → IsSample attempt payload metadata
  unfolding bytes_discrete revision_discrete
  judge_sample-ok attempt (revision_before, tip_before) (revision_after, tip_after) response payload
        metadata start asked answered end r1 r2 r3 l e =
      elim (Bool-cases (
        same bytes_discrete tip_before.hash tip_after.hash
        && same revision_discrete revision_before revision_after)) [
          | inr moved ↦ absurd (ground arith)
          | inl still ↦
              elim (Result-cases (
                context (source.convert tip_before.hash response) "converting live BMM requests")) [
                  | inr (x, q) ↦ absurd (ground arith)
                  | inl (p, q) ↦
                      let reads = both_true _ _ still in
                      let converted = context-ok _ _ p q in
                      let pair : (
                        p,
                        record {
                          revision_before = revision_before;
                          revision_after = revision_after;
                          tip_before = tip_before;
                          tip_after = tip_after;
                          consistency = tip_matched;
                          attempts = attempt;
                        },
                      )
                          ≡ (payload, metadata) =
                        ground arith in
                      subst (λ (s : EnforcerEvent × SnapshotMetadata). IsSample attempt s.0 s.1)
                        pair
                        (
                          same-eq bytes_discrete tip_before.hash tip_after.hash reads.0,
                          same-eq revision_discrete revision_before revision_after reads.1,
                          refl,
                          l,
                          omega arith,
                          (start, asked, answered, end, response, r1, r2, r3, converted),
                        )
                ]
        ]

  sample_once-ok :
      (attempt : ℕ) (env after : E) (payload : EnforcerEvent) (metadata : SnapshotMetadata)
      → 1 ≤ attempt
      → sample_once source attempt env ≡ (ok (some (payload, metadata)), after)
      → IsSample attempt payload metadata
  unfolding sample_once
  sample_once-ok attempt env after payload metadata l e =
      let (revision_before, env1, q1, e1) = bind-ok source.revision _ env _ after e in
      let (tip_before, env2, q2, e2) = bind-ok (within source.current_tip _) _ env1 _ after e1 in
      let (response, env3, q3, e3) =
        bind-ok (within (source.bmm_requests tip_before.hash) _) _ env2 _ after e2 in
      let (tip_after, env4, q4, e4) = bind-ok (within source.current_tip _) _ env3 _ after e3 in
      let (revision_after, env5, q5, e5) = bind-ok source.revision _ env4 _ after e4 in
      judge_sample-ok attempt (revision_before, tip_before) (revision_after, tip_after) response
        payload metadata env1 env2 env3 env4
        (within-ok source.current_tip "reading the mainchain tip before sampling BMM requests" env1
          tip_before env2 q2)
        (within-ok (source.bmm_requests tip_before.hash) "sampling live BMM requests" env2 response
          env3 q3)
        (within-ok source.current_tip "reading the mainchain tip after sampling BMM requests" env3
          tip_after env4 q4)
        l (ap (λ (r : Result (Option (EnforcerEvent × SnapshotMetadata)) × E). r.0) e5)

  IsSample-more :
      (n m : ℕ) (payload : EnforcerEvent) (metadata : SnapshotMetadata)
      → n ≤ m
      → IsSample n payload metadata
      → IsSample m payload metadata
  IsSample-more n m payload metadata h (t, r, c, l, u, p) = (t, r, c, l, omega (arith, h, u), p)

  sample_attempts-ok :
      (left attempt max_attempts : ℕ) (env after : E) (payload : EnforcerEvent)
      (metadata : SnapshotMetadata)
      → 1 ≤ attempt
      → left + attempt ≡ suc max_attempts
      → sample_attempts source left attempt env ≡ (ok (payload, metadata), after)
      → IsSample max_attempts payload metadata
  unfolding sample_attempts
  sample_attempts-ok zero attempt m env after payload metadata l s e = absurd (ground arith)
  sample_attempts-ok (suc left) attempt m env after payload metadata l s e =
      let (sample, between, q, rest) =
        bind-ok (sample_once source attempt) _ env (payload, metadata) after e in
      elim (Option-cases sample) [
        | inl none_taken ↦
            sample_attempts-ok left (suc attempt) m between after payload metadata (omega arith)
              (omega (arith, s)) (ground arith)
        | inr (taken, is_taken) ↦
            let pair : taken ≡ (payload, metadata) = ground arith in
            let sampled_now : sample_once source attempt env
                ≡ (ok (some (payload, metadata)), between) =
              q ∙ ap (λ o. (ok o, between)) (is_taken ∙ ap some pair) in
            IsSample-more attempt m payload metadata (omega (arith, s))
              (sample_once-ok attempt env between payload metadata l sampled_now)
      ]

  -- A sample that `collect_bmm_sample` returns is of one tip and one revision, marked as such, within
  -- the attempts that it was given. Its payload is converted from the answer of the source to the request
  -- for that tip, made right between the two reads of the tip.
  pub collect_bmm_sample-ok :
      (max_attempts : ℕ) (env after : E) (payload : EnforcerEvent) (metadata : SnapshotMetadata)
      → collect_bmm_sample source max_attempts env ≡ (ok (payload, metadata), after)
      → IsSample max_attempts payload metadata
  unfolding collect_bmm_sample
  collect_bmm_sample-ok max_attempts env after payload metadata e =
      sample_attempts-ok max_attempts 1 max_attempts env after payload metadata (omega arith)
        (omega arith) e
