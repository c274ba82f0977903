-- ===== src/Robot/Pd/Written.antt =====
-- What a servo loop leaves in each actuator's control.
use nusim.Base.{
  ℕ, zero, suc, ◌+◌, ◌≤◌, ◌<◌, ◌≡◌, ap, ◌∙◌, subst, ℕ_discrete, ◌≢◌, arith, All, count_up,
}
use nusim.Double.{Double}
use nusim.MuJoCo.{Model, Data, write}
use nusim.Robot.Pd.{limit, for_joints}
use nusim.Robot.Pd.Limits.{IsServo, for_joints_other}

write-same {ℓ} : {A : Type ℓ} (a : ℕ → A) (i : ℕ) (v : A) → write a i v i ≡ v
write-same a i v = ground arith

pub All-count_up_intro {ℓ} :
    (P : ℕ → Type ℓ) (a n : ℕ) → ((j : ℕ) → a ≤ j → j < a + n → P j) → All P (count_up a n)
All-count_up_intro P a zero h = tt
All-count_up_intro P a (suc n) h = (
  h a (omega arith) (omega arith),
  All-count_up_intro P (suc a) n λ j lo hi. h j (omega arith) (omega arith),
)

-- Different joints up to n have different actuators.
abbrev pub IsInjective : (ℕ → ℕ) → ℕ → Type 0
IsInjective act n = (i j : ℕ) → i < n → j < n → act i ≡ act j → i ≡ j

module _ {D : Type 0} ⦃f : Double D⦄ (m : Model D) (act : ℕ → ℕ) (torque : Data D → ℕ → D) where
  -- A loop body that writes the limited torque, which no control has an influence on.
  pub record WritesTorque (body : ℕ → Data D → Data D) : Type 0 where
    pub writes :
        (i : ℕ) (d : Data D)
        → body i d ≡ record d { ctrl = write d.ctrl (act i) (limit m (act i) (torque d i)) }
    pub apart_from_ctrl :
        (d : Data D) (c : ℕ → D) (i : ℕ) → torque (record d { ctrl = c }) i ≡ torque d i

  module _ (body : ℕ → Data D → Data D) (w : WritesTorque body) where
    servo : IsServo m act body
    servo i d = (torque d i, w.writes i d)

    torque-body : (i : ℕ) (d : Data D) (k : ℕ) → torque (body i d) k ≡ torque d k
    torque-body i d k = ap (λ x. torque x k) (w.writes i d) ∙ w.apart_from_ctrl d _ k

    for_joints_from :
        (bound a n : ℕ) (d : Data D) (k : ℕ)
        → IsInjective act bound
        → a + n ≤ bound
        → a ≤ k
        → k < a + n
        → (for_joints (count_up a n) body d).ctrl (act k) ≡ limit m (act k) (torque d k)
    unfolding for_joints
    for_joints_from bound a zero d k inj h lo hi = absurd (omega (arith, lo, hi))
    for_joints_from bound a (suc n) d k inj h lo hi = elim (ℕ_discrete a k) [
      | yes e ↦
          for_joints_other m act body servo (count_up (suc a) n) (body a d) (act k) (
            All-count_up_intro (λ i. act i ≢ act k) (suc a) n
              λ j low high same. omega (arith, e, low, inj j k (omega arith) (omega arith) same))
          ∙ ap (λ x. x.ctrl (act k)) (w.writes a d)
          ∙ subst
              (λ j.
                write d.ctrl (act a) (limit m (act a) (torque d a)) (act j)
                ≡ limit m (act j) (torque d j))
              e (write-same d.ctrl (act a) _)
      | no apart ↦
          for_joints_from bound (suc a) n (body a d) k inj (omega arith) (omega arith) (omega arith)
          ∙ ap (limit m (act k)) (torque-body a d k)
    ]

    pub for_joints-at :
        (bound n : ℕ) (d : Data D) (k : ℕ)
        → IsInjective act bound
        → n ≤ bound
        → k < n
        → (for_joints (count_up 0 n) body d).ctrl (act k) ≡ limit m (act k) (torque d k)
    for_joints-at bound n d k inj h hi =
        for_joints_from bound 0 n d k inj (omega arith) (omega arith) (omega arith)
