-- ===== src/Simulation/Pacing/Punctual.antt =====
-- How far the physics thread falls behind the wall clock.
use nusim.Base.{
  if-split, ℕ, ◌+◌, ◌%◌, ◌^◌, ◌≡◌, refl, sym, ◌∙◌, ◌⊎◌, inl, inr, true, false, List, [], ◌∷◌, ◌++◌,
  Bool-cases,
}
use mathlib.Core.Bool.{true≢false}
use nusim.Double.{Double, IsSigned, nought}
use nusim.Simulation.Core.{SimConfig}
use nusim.Simulation.Pacing.{
  Pacer, Reading, add_seconds, is_free_run, period, behind, meet_deadline, measure, pace,
  pace_rounds,
}

module _ {D : Type 0} ⦃f : Double D⦄ where
  open f use {sub, lt}

  -- A round keeps its schedule where it is not behind by more than the threshold, and gives up the
  -- deadline and counts it otherwise.
  unfoldable pub Scheduled : SimConfig D → D → Reading → Pacer D → Pacer D → Type 0
  Scheduled cfg dt r p q =
      let planned = add_seconds p.deadline (period cfg dt) in
      ((q.deadline ≡ planned) × (q.dropped_deadlines ≡ p.dropped_deadlines))
      ⊎ ((lt cfg.resync_threshold (behind r.now_ts planned) ≡ true)
          × (q.deadline ≡ r.now_ts)
          × (q.dropped_deadlines ≡ (p.dropped_deadlines + 1) % 2 ^ 64))

  unfoldable pub IsPunctual : SimConfig D → D → Reading → Pacer D → Pacer D → Type 0
  IsPunctual cfg dt r p q =
      (lt cfg.resync_threshold (behind r.now_ts q.deadline) ≡ false) × Scheduled cfg dt r p q

  threshold_self : {y : D} → IsSigned D → lt y nought ≡ false → (x : D) → lt y (sub x x) ≡ false
  threshold_self {y} l h x = elim (Bool-cases (lt y (sub x x))) [
    | inl e ↦ elim (true≢false (sym (l.sub_self x y e) ∙ h)) [ ]
    | inr e ↦ e
  ]

  meet_deadline-IsPunctual :
      (cfg : SimConfig D) (dt : D) (r : Reading) (p : Pacer D)
      → IsSigned D
      → lt cfg.resync_threshold nought ≡ false
      → IsPunctual cfg dt r p (meet_deadline cfg dt r.now_ts p)
  unfolding meet_deadline IsPunctual Scheduled behind
  meet_deadline-IsPunctual cfg dt r p l h =
      if-split (IsPunctual cfg dt r p) (λ late. (threshold_self l h _, inr (late, refl, refl)))
        (λ fine. (fine, inl (refl, refl)))

  measure-IsPunctual :
      (cfg : SimConfig D) (dt : D) (r : Reading) (steps : ℕ) (p q : Pacer D)
      → IsPunctual cfg dt r p q
      → IsPunctual cfg dt r p (measure dt r.wall_now steps q)
  unfolding measure IsPunctual Scheduled
  measure-IsPunctual cfg dt r steps p q h = if-split (IsPunctual cfg dt r p) (λ e. h) (λ e. h)

  pace-IsPunctual :
      (cfg : SimConfig D) (dt : D) (r : Reading) (steps : ℕ) (p : Pacer D)
      → IsSigned D
      → is_free_run cfg ≡ false
      → lt cfg.resync_threshold nought ≡ false
      → IsPunctual cfg dt r p (pace cfg dt r steps p)
  unfolding pace
  pace-IsPunctual cfg dt r steps p l paced h =
      measure-IsPunctual cfg dt r steps p _ (rw paced (meet_deadline-IsPunctual cfg dt r p l h))

  -- Where the simulation is paced and the threshold is not negative, every round of the physics
  -- thread, whatever the clock has read so far, ends with a deadline that is not more than the
  -- threshold before the present. It is the deadline before plus the period, and no deadline is
  -- counted as dropped, unless that one is more than the threshold before the present: then it is
  -- the present, and one more deadline is counted.
  pub pace_rounds-IsPunctual :
      (cfg : SimConfig D) (dt : D) (rs : List Reading) (r : Reading) (steps : ℕ) (p : Pacer D)
      → IsSigned D
      → is_free_run cfg ≡ false
      → lt cfg.resync_threshold nought ≡ false
      → IsPunctual cfg dt r
          (pace_rounds cfg dt rs steps p)
          (pace_rounds cfg dt (rs ++ (r ∷ [])) steps p)
  unfolding pace_rounds
  pace_rounds-IsPunctual cfg dt [] r steps p l paced h = pace-IsPunctual cfg dt r _ p l paced h
  pace_rounds-IsPunctual cfg dt (x ∷ xs) r steps p l paced h =
      pace_rounds-IsPunctual cfg dt xs r _ _ l paced h
