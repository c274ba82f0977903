-- ===== src/Robot/Pd/Limits.antt =====
-- What a servo loop may write: the controls of its actuators, within their force ranges.
use nusim.Base.{
  ℕ, ◌+◌, ◌*◌, ◌≡◌, refl, sym, ap, ◌∙◌, subst, ◌≢◌, ◌⊎◌, inl, inr, true, false, List, [], ◌∷◌, map,
  arith, ℕ_discrete, All,
}
use nusim.Double.{Double, IsDouble, clamp_bounds}
use nusim.MuJoCo.{Model, Data, write}
use nusim.Robot.ModelMap.{ModelMap}
use nusim.Robot.Pd.{PdController, limit, apply_joint, for_joints}

module _ {D : Type 0} ⦃f : Double D⦄ (m : Model D) where
  -- The force ranges of the limited actuators are in order.
  abbrev pub HasRanges : Type 0
  HasRanges =
      (a : ℕ)
      → m.actuator_forcelimited a ≡ true
      → f.lt (m.actuator_forcerange (2 * a + 1)) (m.actuator_forcerange (2 * a)) ≡ false

  -- A control that is not outside its actuator's range, if it has one.
  abbrev pub InRange : ℕ → D → Type 0
  InRange a v =
      m.actuator_forcelimited a ≡ true
      → (f.lt v (m.actuator_forcerange (2 * a)) ≡ false)
        × (f.lt (m.actuator_forcerange (2 * a + 1)) v ≡ false)

  pub limit-InRange : (l : IsDouble D) → HasRanges → (a : ℕ) (tau : D) → InRange a (limit m a tau)
  unfolding limit
  limit-InRange l r a tau on = rw on (clamp_bounds l tau _ _ (r a on))

  -- A loop body that writes one limited control, and nothing else.
  abbrev pub IsServo : (ℕ → ℕ) → (ℕ → Data D → Data D) → Type 0
  IsServo act body =
      (i : ℕ) (d : Data D)
      → (tau : D) × (body i d ≡ record d { ctrl = write d.ctrl (act i) (limit m (act i) tau) })

  pub apply_joint-IsServo :
      (pd : PdController D) (map : ModelMap) (q_ref dq_ref tau_ff : ℕ → D)
      → IsServo map.act_id (apply_joint pd m map q_ref dq_ref tau_ff)
  unfolding apply_joint
  apply_joint-IsServo pd map q_ref dq_ref tau_ff i d = (
    f.add
        (f.add (f.mul (pd.kp i) (f.sub (q_ref i) (d.qpos (map.qpos_adr i))))
          (f.mul (pd.kd i) (f.sub (dq_ref i) (d.qvel (map.dof_adr i)))))
        (tau_ff i),
    refl,
  )

  -- What the loop has no actuator for keeps its value.
  abbrev pub NoneOf : (ℕ → ℕ) → List ℕ → ℕ → Type 0
  NoneOf act is a = All (λ i. act i ≢ a) is

  pub for_joints_other :
      (act : ℕ → ℕ) (body : ℕ → Data D → Data D)
      → IsServo act body
      → (is : List ℕ) (d : Data D) (a : ℕ) → NoneOf act is a
      → (for_joints is body d).ctrl a ≡ d.ctrl a
  unfolding for_joints
  for_joints_other act body s [] d a h = refl
  for_joints_other act body s (i ∷ is) d a h =
      let (tau, e) = s i d in
      for_joints_other act body s is (body i d) a h.1
      ∙ ap (λ (x : Data D). x.ctrl a) e
      ∙ ground (arith, h.0)

  -- The controls written are in range, and stay so.
  pub for_joints-InRange :
      (l : IsDouble D)
      → HasRanges
      → (act : ℕ → ℕ) (body : ℕ → Data D → Data D) → IsServo act body
      → (is : List ℕ) (d : Data D) (a : ℕ) → InRange a (d.ctrl a) ⊎ (¬ NoneOf act is a)
      → InRange a ((for_joints is body d).ctrl a)
  unfolding for_joints
  for_joints-InRange l r act body s [] d a (inl h) = h
  for_joints-InRange l r act body s [] d a (inr h) = absurd (h tt)
  for_joints-InRange l r act body s (i ∷ is) d a h =
      for_joints-InRange l r act body s is (body i d) a (step (ℕ_discrete (act i) a) h)
    where
      written :
          (tau : D)
          → body i d ≡ record d { ctrl = write d.ctrl (act i) (limit m (act i) tau) }
          → act i ≡ a
          → InRange a ((body i d).ctrl a)
      written tau e q =
          subst (InRange a) (sym (ap (λ (x : Data D). x.ctrl a) e ∙ ground arith))
            (limit-InRange l r a tau)

      step :
          Dec (act i ≡ a)
          → InRange a (d.ctrl a) ⊎ (¬ NoneOf act (i ∷ is) a)
          → InRange a ((body i d).ctrl a) ⊎ (¬ NoneOf act is a)
      step (yes q) h' = let (tau, e) = s i d in inl (written tau e q)
      step (no q) (inl h') =
          let (tau, e) = s i d in
          inl (subst (InRange a) (sym (ap (λ (x : Data D). x.ctrl a) e ∙ ground arith)) h')
      step (no q) (inr h') = inr (λ all. h' (q, all))

  -- A servo loop changes the controls only.
  pub for_joints_ctrl :
      (act : ℕ → ℕ) (body : ℕ → Data D → Data D)
      → IsServo act body
      → (is : List ℕ) (d : Data D)
      → for_joints is body d ≡ record d { ctrl = (for_joints is body d).ctrl }
  unfolding for_joints
  for_joints_ctrl act body s [] d = refl
  for_joints_ctrl act body s (i ∷ is) d =
      let (tau, e) = s i d in
      for_joints_ctrl act body s is (body i d)
      ∙ ap (λ (x : Data D). record x { ctrl = (for_joints is body (body i d)).ctrl }) e
