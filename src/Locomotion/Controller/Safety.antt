-- ===== src/Locomotion/Controller/Safety.antt =====
-- What a step may do to the simulated robot.
use nusim.Base.{
  ℕ, ◌+◌, ◌*◌, ◌≤◌, min, ◌≡◌, refl, sym, ap, subst, ◌≢◌, ◌⊎◌, inl, inr, true, false, List, arith,
  length, count_up, All-count_up,
}
use nusim.Double.{Double, IsDouble, clamp, nought}
use nusim.MuJoCo.{Model, Data, Mju, write}
use nusim.Robot.Joints.{joint_count}
use nusim.Robot.ModelMap.{ModelMap}
use nusim.Robot.Pd.{limit, apply_joint, for_joints, apply}
use nusim.Robot.Pd.Limits.{
  HasRanges, InRange, IsServo, NoneOf, apply_joint-IsServo, for_joints_other, for_joints-InRange,
  for_joints_ctrl,
}
use nusim.Locomotion.Controller.{
  Controller, Mailbox, Setter, MotorCmdData, State, damping, prepare, custom, step_damping,
  prepare_target, hold, step_prepare, track_joint, track, follow, step_custom, run_mode, step_with,
}

module _ {D : Type 0} ⦃f : Double D⦄ (m : Model D) (map : ModelMap) where
  -- No torque at all is within the range of every limited actuator.
  abbrev pub AllowsRest : Type 0
  AllowsRest =
      (a : ℕ)
      → m.actuator_forcelimited a ≡ true
      → (f.lt nought (m.actuator_forcerange (2 * a)) ≡ false)
        × (f.lt (m.actuator_forcerange (2 * a + 1)) nought ≡ false)

  -- What a step did to the data: it wrote controls, of the robot's actuators only, and kept those
  -- that were in range in range.
  pub record IsSafe (d d' : Data D) : Type 0 where
    pub only_ctrl : d' ≡ record d { ctrl = d'.ctrl }
    pub other : (a : ℕ) → NoneOf m map.act_id (count_up 0 joint_count) a → d'.ctrl a ≡ d.ctrl a
    pub in_range : ((a : ℕ) → InRange m a (d.ctrl a)) → (a : ℕ) → InRange m a (d'.ctrl a)

  same-IsSafe : (d : Data D) → IsSafe d d
  same-IsSafe d = record { only_ctrl = refl; other = λ a h. refl; in_range = λ h. h }

  -- A loop over the first joints.
  loop-IsSafe :
      (l : IsDouble D)
      → HasRanges m
      → (body : ℕ → Data D → Data D) → IsServo m map.act_id body
      → (n : ℕ) (d : Data D) → n ≤ joint_count
      → IsSafe d (for_joints (count_up 0 n) body d)
  loop-IsSafe l r body s n d h = record {
    only_ctrl = for_joints_ctrl m map.act_id body s (count_up 0 n) d;
    other = λ a none.
        for_joints_other m map.act_id body s (count_up 0 n) d a
          (All-count_up (λ i. map.act_id i ≢ a) 0 n joint_count h none);
    in_range =
        λ before a. for_joints-InRange m l r map.act_id body s (count_up 0 n) d a (inl (before a));
  }

  limit-nought : AllowsRest → (a : ℕ) → limit m a nought ≡ nought
  unfolding limit clamp
  limit-nought z a = ground (arith, z a)

  damping-IsServo :
      AllowsRest
      → IsServo m map.act_id (λ i d. record d { ctrl = write d.ctrl (map.act_id i) nought })
  damping-IsServo z i d = (
    nought,
    ap (λ v. record d { ctrl = write d.ctrl (map.act_id i) v })
        (sym (limit-nought z (map.act_id i))),
  )

  track_joint-IsServo :
      (motors : List (MotorCmdData D)) → IsServo m map.act_id (track_joint m map motors)
  unfolding track_joint
  track_joint-IsServo motors i d = (_, refl)

  hold-IsSafe :
      (l : IsDouble D)
      → HasRanges m
      → (c : Controller D) (q_ref : ℕ → D) (d : Data D) → IsSafe d (hold c m map q_ref d)
  unfolding hold apply
  hold-IsSafe l r c q_ref d =
      loop-IsSafe l r (apply_joint c.cfg.pd m map q_ref (λ i. nought) (λ i. nought))
        (apply_joint-IsServo m c.cfg.pd map q_ref (λ i. nought) (λ i. nought)) joint_count d
        (omega arith)

  track-IsSafe :
      (l : IsDouble D)
      → HasRanges m
      → (motors : List (MotorCmdData D)) (d : Data D) → IsSafe d (track m map motors d)
  unfolding track
  track-IsSafe l r motors d =
      loop-IsSafe l r (track_joint m map motors) (track_joint-IsServo motors)
        (min (length motors) joint_count) d (omega arith)

  -- CUSTOM holds the entry pose, leaves the controls alone, or tracks the commands.
  step_custom_cases :
      (snap : Mailbox D) (c : Controller D) (d : Data D)
      → let d' = (step_custom m map snap c d).1 in
        (d' ≡ hold c m map c.fsm.custom_entry_pose d)
        ⊎ (d' ≡ d)
        ⊎ (d' ≡ track m map snap.low_cmd_motors d)
  unfolding step_custom follow
  step_custom_cases snap c d = ground arith

  step_custom-IsSafe :
      (l : IsDouble D)
      → HasRanges m
      → (snap : Mailbox D) (c : Controller D) (d : Data D) → IsSafe d (step_custom m map snap c d).1
  step_custom-IsSafe l r snap c d = elim (step_custom_cases snap c d) [
    | inl e ↦ subst (IsSafe d) (sym e) (hold-IsSafe l r c c.fsm.custom_entry_pose d)
    | inr (inl e) ↦ subst (IsSafe d) (sym e) (same-IsSafe d)
    | inr (inr e) ↦ subst (IsSafe d) (sym e) (track-IsSafe l r snap.low_cmd_motors d)
  ]

  run_mode-IsSafe :
      (l : IsDouble D)
      → HasRanges m
      → AllowsRest
      → (s : State) (snap : Mailbox D) (c : Controller D) (d : Data D)
      → IsSafe d (run_mode s m map snap c d).1
  unfolding run_mode step_damping step_prepare
  run_mode-IsSafe l r z damping snap c d =
      loop-IsSafe l r _ (damping-IsServo z) joint_count d (omega arith)
  run_mode-IsSafe l r z prepare snap c d = hold-IsSafe l r c (prepare_target c snap d) d
  run_mode-IsSafe l r z custom snap c d = step_custom-IsSafe l r snap c d

  -- Let the force range of every limited actuator be in order and hold zero. Then in every mode, and
  -- whatever commands have arrived, a step changes nothing of the data but the controls of the
  -- robot's own actuators, and if every control is within its actuator's range before the step, so
  -- is every control after it.
  pub step_with-IsSafe :
      (l : IsDouble D)
      → HasRanges m
      → AllowsRest
      → (u : Mju D) (between : List (Setter D)) (c : Controller D) (d : Data D)
      → IsSafe d (step_with u m map between c d).1
  unfolding step_with
  step_with-IsSafe l r z u between c d = run_mode-IsSafe l r z _ c.mailbox _ d
