-- ===== src/Runtime/Stream/Laws.antt =====
-- When a live stream counts as stalled.
use mathlib.Core.Path.{subst}
use bip300_monitor.Base.{
  ℕ, ◌+◌, ◌≤◌, ◌≡◌, refl, ◌⊎◌, inl, inr, true, Option, none, some, List, [], ◌∷◌, is_some, ◌==◌,
  leb, leb→le, Bool-cases, Option-cases, arith,
}
use bip300_monitor.Failure.{Error, Result, ok, err, Result-cases, context}
use bip300_monitor.Proto.{ObservedBlock}
use bip300_monitor.Runtime.Stream.{
  Forwarding, started, Arrival, shut, tip_seen, clock, delivered, Forwarded, forwarding, armed_at,
  check_tip, check_stall, count_event, forward_turn,
}

module _ {R : Type 0} (stall_timeout : ℕ) (handle : R → Result (Unit {0})) where
  -- The states that the loop reaches, with the arrivals so far, the last one first.
  pub data Reaches : List (Arrival R) → Forwarding → Type 0 where
    begin : Reaches [] started
    turn :
        {past : List (Arrival R)} {s t : Forwarding} (arrival : Arrival R)
        → Reaches past s
        → forward_turn stall_timeout handle arrival s ≡ ok (forwarding t)
        → Reaches (arrival ∷ past) t

  -- A tip came one timeout before the deadline, and no event since.
  abbrev pub IsSilent : ℕ → List (Arrival R) → Type 0
  IsSilent deadline [] = ⊥
  IsSilent deadline (tip_seen now (some tip) ∷ past) =
      (deadline ≡ now + stall_timeout) ⊎ IsSilent deadline past
  IsSilent deadline (delivered _ ∷ past) = ⊥
  IsSilent deadline (_ ∷ past) = IsSilent deadline past

  abbrev Explains : List (Arrival R) → Forwarding → Type 0
  Explains past s =
      (deadline : ℕ)
      → s.stall_deadline ≡ some deadline
      → IsSilent deadline past × (is_some s.stalled_tip ≡ true)

  forwarding_eq :
      (s t : Forwarding)
      → ◌≡◌ {A = Result Forwarded} (ok (forwarding s)) (ok (forwarding t))
      → s ≡ t
  forwarding_eq s t e = cc

  check_stall-ok :
      (now : ℕ) (deadline : Option ℕ) (s t : Forwarding)
      → check_stall stall_timeout handle now deadline s ≡ ok (forwarding t)
      → s ≡ t
  check_stall-ok now none s t e = forwarding_eq s t e
  check_stall-ok now (some deadline) s t e = elim (Bool-cases (leb deadline now)) [
    | inl late ↦ absurd (ground arith)
    | inr early ↦ forwarding_eq s t (rw (early) at e)
  ]

  armed-IsSilent :
      (now : ℕ) (tip : ObservedBlock) (past : List (Arrival R)) (before : Option ℕ) (deadline : ℕ)
      → ((d : ℕ) → before ≡ some d → IsSilent d past)
      → armed_at stall_timeout handle now before ≡ some deadline
      → IsSilent deadline (tip_seen now (some tip) ∷ past)
  armed-IsSilent now tip past none deadline h e = inl (ground arith)
  armed-IsSilent now tip past (some d) deadline h e = inr (h deadline e)

  check_tip-Explains :
      (now : ℕ) (tip : ObservedBlock) (past : List (Arrival R)) (s : Forwarding)
      → Explains past s
      → Explains (tip_seen now (some tip) ∷ past) (check_tip stall_timeout handle now tip s)
  unfolding check_tip
  check_tip-Explains now tip past s h = elim (Bool-cases (s.live_events == s.checked_live_events)) [
    | inl quiet ↦
        rw (check_tip, quiet)
          (λ deadline e.
            (armed-IsSilent now tip past s.stall_deadline deadline (λ d q. (h d q).0) e, refl))
    | inr active ↦ rw (check_tip, active) (λ deadline e. absurd (ground arith))
  ]

  turn-Explains :
      (arrival : Arrival R) (past : List (Arrival R)) (s t : Forwarding)
      → Explains past s
      → forward_turn stall_timeout handle arrival s ≡ ok (forwarding t)
      → Explains (arrival ∷ past) t
  unfolding forward_turn
  turn-Explains shut past s t h e = absurd (ground arith)
  turn-Explains (tip_seen now none) past s t h e = absurd (ground arith)
  turn-Explains (tip_seen now (some tip)) past s t h e =
      subst (Explains (tip_seen now (some tip) ∷ past)) (forwarding_eq _ t e)
        (check_tip-Explains now tip past s h)
  turn-Explains (clock now) past s t h e =
      subst (Explains (clock now ∷ past)) (check_stall-ok now s.stall_deadline s t e) h
  turn-Explains (delivered none) past s t h e = absurd (ground arith)
  turn-Explains (delivered (some (err x))) past s t h e = absurd (ground arith)
  turn-Explains (delivered (some (ok response))) past s t h e =
      elim (Result-cases (context (handle response) "forwarding a live event")) [
        | inr (x, q) ↦ absurd (ground arith)
        | inl (_, q) ↦
            subst (Explains (delivered (some (ok response)) ∷ past))
              (forwarding_eq (count_event stall_timeout handle s) t (rw (q) at e))
              (λ deadline d. absurd (ground arith))
      ]

  reached-Explains : (past : List (Arrival R)) (s : Forwarding) → Reaches past s → Explains past s
  reached-Explains _ _ begin deadline e = absurd (ground arith)
  reached-Explains _ _ (turn {past} {s} {t} arrival reached q) deadline e =
      turn-Explains arrival past s t (reached-Explains past s reached) q deadline e

  -- A stream is given up as stalled only when it was silent: a tip came one timeout before a deadline
  -- that has passed, no event came since, and the tip that the error names is there.
  pub stalled-IsSilent :
      (past : List (Arrival R)) (s : Forwarding) (now : ℕ) (e : Error)
      → Reaches past s
      → forward_turn stall_timeout handle (clock now) s ≡ err e
      → (deadline : ℕ) × (deadline ≤ now) × IsSilent deadline past × (is_some s.stalled_tip ≡ true)
  unfolding forward_turn
  stalled-IsSilent past s now e reached q =
      let explained = reached-Explains past s reached in
      elim (Option-cases s.stall_deadline) [
        | inl d ↦ absurd (ground arith)
        | inr (deadline, d) ↦
            let known = explained deadline d in
            elim (Bool-cases (leb deadline now)) [
              | inr early ↦ absurd (ground arith)
              | inl late ↦ (deadline, leb→le deadline now late, known.0, known.1)
            ]
      ]
