-- ===== src/Runtime/Sampling/Startup.antt =====
-- The reads at startup: they end, and what is subscribed is what the snapshot says.
use mathlib.Core.Path.{subst}
use bip300_monitor.Base.{
  ℕ, zero, suc, ◌+◌, ◌≤◌, ◌≡◌, ◌↔◌, refl, sym, ap, ◌∙◌, ◌⊎◌, inl, inr, Bool, true, false, ◌&&◌,
  String, none, List, Bytes, bytes_discrete, same, same-eq, same_self, Bool-cases, arith,
}
use bip300_monitor.Failure.{ok, is_ok, context}
use bip300_monitor.Effect.{Call}
use bip300_monitor.Effect.Laws.{bind-after, answered}
use bip300_monitor.Proto.{ObservedBlock}
use bip300_monitor.Store.Types.{tip_matched, consistency_discrete}
use bip300_monitor.Store.Types.{SnapshotMetadata}
use bip300_monitor.Runtime.Sampling.{
  InitialSnapshot, StartupSource, snapshot_max_attempts, snapshot_tips_are_consistent,
  snapshot_consistency, within, snapshot_once, is_final, snapshot_attempts,
  collect_initial_snapshot_attempts,
}

-- What a snapshot says of its consistency is what the hashes say, and one that was taken across a
-- move of the tip is the last attempt's.
abbrev pub IsHonest : InitialSnapshot → SnapshotMetadata → Type 0
IsHonest snapshot metadata =
    ((metadata.consistency ≡ tip_matched) ↔ (
      (metadata.tip_before.hash ≡ snapshot.anchor.hash)
      × (snapshot.anchor.hash ≡ metadata.tip_after.hash)))
    × ((metadata.consistency ≡ tip_matched) ⊎ (metadata.attempts ≡ snapshot_max_attempts))
    × (metadata.attempts ≤ snapshot_max_attempts)

both_true : (a b : Bool) → (a && b) ≡ true → (a ≡ true) × (b ≡ true)
both_true true b e = (refl, e)
both_true false b e = absurd (ground arith)

same_of : (a b : Bytes) → a ≡ b → same bytes_discrete a b ≡ true
same_of a b e = rw e (same_self bytes_discrete b)

snapshot_consistency-tip_matched :
    (before after : ObservedBlock) (snapshot : InitialSnapshot)
    → (snapshot_consistency before snapshot after ≡ tip_matched)
      ↔ ((before.hash ≡ snapshot.anchor.hash) × (snapshot.anchor.hash ≡ after.hash))
unfolding snapshot_tips_are_consistent
snapshot_consistency-tip_matched before after snapshot =
    let first = same bytes_discrete before.hash snapshot.anchor.hash in
    let second = same bytes_discrete snapshot.anchor.hash after.hash in
    (
      λ e. elim (Bool-cases (first && second)) [
        | inl t ↦
            let (f, g) = both_true first second t in
            (
              same-eq bytes_discrete before.hash snapshot.anchor.hash f,
              same-eq bytes_discrete snapshot.anchor.hash after.hash g,
            )
        | inr t ↦ absurd (ground arith)
      ],
      λ (f, g).
          rw
            (
              snapshot_consistency,
              snapshot_tips_are_consistent,
              same_of before.hash snapshot.anchor.hash f,
              same_of snapshot.anchor.hash after.hash g,
            )
            refl,
    )

within_answers :
    {E A : Type 0} (call : Call E A) (text : String) (env : E)
    → is_ok (call env).0 ≡ true
    → (a : A) × (after : E) × (within call text env ≡ (ok a, after))
within_answers call text env h =
    let (a, after, e) = answered (call env) h in (a, after, ap (λ r. (context r.0 text, r.1)) e)

final_reason :
    (metadata : SnapshotMetadata)
    → is_final metadata ≡ true
    → (metadata.consistency ≡ tip_matched) ⊎ (metadata.attempts ≡ snapshot_max_attempts)
unfolding is_final
final_reason metadata f =
    elim (Bool-cases (same consistency_discrete metadata.consistency tip_matched)) [
      | inl e ↦ inl (same-eq consistency_discrete metadata.consistency tip_matched e)
      | inr e ↦ inr (ground arith)
    ]

more_left :
    (left : ℕ) (metadata : SnapshotMetadata)
    → is_final metadata ≡ false
    → left + metadata.attempts ≡ snapshot_max_attempts
    → 1 ≤ left
unfolding is_final
more_left zero metadata f s = absurd (ground arith)
more_left (suc left) metadata f s = omega arith

module _ {E St : Type 0} (source : StartupSource E St)
    (tips : (env : E) → is_ok (source.current_tip env).0 ≡ true)
    (snapshots : (slots : List ℕ) (env : E)
      → is_ok (source.collect_snapshot slots env).0 ≡ true) where
  snapshot_once_ends :
      (slots : List ℕ) (attempt : ℕ) (env : E)
      → (snapshot : InitialSnapshot) × (metadata : SnapshotMetadata) × (after : E) × (snapshot_once
            source slots attempt env
          ≡ (ok (snapshot, metadata), after))
        × (metadata.attempts ≡ attempt)
        × (metadata.consistency
            ≡ snapshot_consistency metadata.tip_before snapshot metadata.tip_after)
  unfolding snapshot_once
  snapshot_once_ends slots attempt env =
      let (tip_before, env1, q1) =
        within_answers source.current_tip "reading the mainchain tip before collecting the snapshot"
          env (tips env) in
      let (snapshot, env2, q2) =
        within_answers (source.collect_snapshot slots) "collecting the initial enforcer snapshot"
          env1 (snapshots slots env1) in
      let (tip_after, env3, q3) =
        within_answers source.current_tip "reading the mainchain tip after collecting the snapshot"
          env2 (tips env2) in
      (
        snapshot,
        record {
          revision_before = none;
          revision_after = none;
          tip_before = tip_before;
          tip_after = tip_after;
          consistency = snapshot_consistency tip_before snapshot tip_after;
          attempts = attempt;
        },
        env3,
        bind-after (within source.current_tip _) _ env tip_before env1 q1
            ∙ (bind-after (within (source.collect_snapshot slots) _) _ env1 snapshot env2 q2
                ∙ bind-after (within source.current_tip _) _ env2 tip_after env3 q3),
        refl,
        refl,
      )

  snapshot_attempts_end :
      (left : ℕ) (slots : List ℕ) (attempt : ℕ) (env : E)
      → 1 ≤ left
      → left + attempt ≡ suc snapshot_max_attempts
      → (snapshot : InitialSnapshot) × (metadata : SnapshotMetadata) × (after : E)
        × (snapshot_attempts source slots left attempt env ≡ (ok (snapshot, metadata), after))
        × IsHonest snapshot metadata
  unfolding snapshot_attempts is_final
  snapshot_attempts_end zero slots attempt env l s = absurd (ground arith)
  snapshot_attempts_end (suc left) slots attempt env l s =
      let (snapshot, metadata, between, q, counted, told) = snapshot_once_ends slots attempt env in
      let honest : (metadata.consistency ≡ tip_matched) ↔ (
          (metadata.tip_before.hash ≡ snapshot.anchor.hash)
          × (snapshot.anchor.hash ≡ metadata.tip_after.hash)) =
        subst
          (λ c. (c ≡ tip_matched) ↔ (
            (metadata.tip_before.hash ≡ snapshot.anchor.hash)
            × (snapshot.anchor.hash ≡ metadata.tip_after.hash)))
          (sym told)
          (snapshot_consistency-tip_matched metadata.tip_before metadata.tip_after snapshot) in
      let later =
        bind-after (snapshot_once source slots attempt) _ env (snapshot, metadata) between q in
      elim (Bool-cases (is_final metadata)) [
        | inl final ↦ (
          snapshot,
          metadata,
          between,
          later ∙ rw (final) refl,
          (honest, final_reason metadata final, omega (arith, counted, s, l)),
        )
        | inr again ↦
            let (snapshot', metadata', after, e, h) =
              snapshot_attempts_end left slots (suc attempt) between
                (more_left left metadata again (omega (arith, counted, s))) (omega (arith, s)) in
            (snapshot', metadata', after, later ∙ rw (again) e, h)
      ]

  -- With a source that answers each read, the reading of the initial snapshot returns one: it never
  -- runs past its attempts. What the snapshot says of its consistency is what the three hashes say, and
  -- one that was taken across a move of the tip is the last attempt's.
  pub collect_initial_snapshot_attempts_end :
      (slots : List ℕ) (env : E)
      → (snapshot : InitialSnapshot) × (metadata : SnapshotMetadata) × (after : E)
        × (collect_initial_snapshot_attempts source slots env ≡ (ok (snapshot, metadata), after))
        × IsHonest snapshot metadata
  unfolding collect_initial_snapshot_attempts
  collect_initial_snapshot_attempts_end slots env =
      snapshot_attempts_end snapshot_max_attempts slots 1 env (omega arith) refl
