-- ===== src/Locomotion/Servo.antt =====
-- What each mode writes to the actuators: `step_damping`, `step_prepare` and `step_custom` of
-- mujoco/module/Locomotion/src/LocomotionController.cpp.
use nusim.Base.{
  ℕ, min, Bool, true, false, not, List, [], ◌∷◌, map, if◌then◌else◌, length, get_or, count_up, pos,
  negsuc, ◌==ℤ◌,
}
use nusim.Double.{Double, clamp, nought, unit}
use nusim.MuJoCo.{Model, Data, write}
use nusim.Robot.Joints.{joint_count, head_pitch, head_yaw}
use nusim.Robot.ModelMap.{ModelMap}
use nusim.Robot.Pd.{limit, for_joints, apply}
use nusim.Locomotion.Math.{smoothstep, lerp}
use nusim.Locomotion.Types.{MotorCmdData, Mailbox, Controller}

module _ {D : Type 0} ⦃f : Double D⦄ where
  open f use {add, sub, mul, div, dec}

  -- SDK limits of RotateHead.
  abbrev pub head_pitch_min : D
  head_pitch_min = dec (negsuc 2) 1

  abbrev pub head_pitch_max : D
  head_pitch_max = dec (pos 10) 1

  abbrev pub head_yaw_limit : D
  head_yaw_limit = dec (pos 785) 3

  unfoldable pub apply_head_target : (ℕ → D) → D → D → ℕ → D
  apply_head_target q_ref pitch yaw =
      write (write q_ref head_pitch (clamp pitch head_pitch_min head_pitch_max)) head_yaw
        (clamp yaw (f.neg head_yaw_limit) head_yaw_limit)

  unfoldable pub step_damping : ModelMap → Data D → Data D
  step_damping map =
      for_joints (count_up 0 joint_count)
        (λ i d. record d { ctrl = write d.ctrl (map.act_id i) nought })

  unfoldable pub prepare_target : Controller D → Mailbox D → Data D → ℕ → D
  prepare_target c snap d =
      let frac =
        clamp (div (sub d.time c.fsm.prepare_start_time) c.cfg.prepare_blend_time) nought unit in
      let s = smoothstep frac in
      apply_head_target (λ i. lerp (c.fsm.prepare_start_pose i) (c.cfg.ready_pose i) s)
        snap.head_pitch snap.head_yaw

  -- pd_.apply with the default velocity and torque
  unfoldable pub hold : Controller D → Model D → ModelMap → (ℕ → D) → Data D → Data D
  hold c m map q_ref d = apply c.cfg.pd m d map q_ref (λ i. nought) (λ i. nought)

  unfoldable pub step_prepare : Controller D → Model D → ModelMap → Mailbox D → Data D → Data D
  step_prepare c m map snap d = hold c m map (prepare_target c snap d) d

  abbrev pub no_motor : MotorCmdData D
  no_motor = record {
    mode = 0;
    q = nought;
    dq = nought;
    tau = nought;
    kp = nought;
    kd = nought;
    weight = nought;
  }

  -- One joint's LowCmd.
  unfoldable pub track_joint : Model D → ModelMap → List (MotorCmdData D) → ℕ → Data D → Data D
  track_joint m map motors i d =
      let mc = get_or motors i no_motor in
      let act = map.act_id i in
      let q = d.qpos (map.qpos_adr i) in
      let dq = d.qvel (map.dof_adr i) in
      let tau = add (add (mul mc.kp (sub mc.q q)) (mul mc.kd (sub mc.dq dq))) mc.tau in
      record d { ctrl = write d.ctrl act (limit m act tau) }

  unfoldable pub track : Model D → ModelMap → List (MotorCmdData D) → Data D → Data D
  track m map motors =
      for_joints (count_up 0 (min (length motors) joint_count)) (track_joint m map motors)

  abbrev pub is_empty : List (MotorCmdData D) → Bool
  is_empty [] = true
  is_empty (x ∷ xs) = false

  -- The commands of a session that has begun.
  unfoldable pub follow :
      Model D → ModelMap → Mailbox D → Controller D → Data D → Controller D × Data D
  follow m map snap c d =
      if snap.low_cmd_type ==ℤ pos 0
      then (record c { fsm = record c.fsm { custom_parallel_warned = true } }, d)
      else (c, track m map snap.low_cmd_motors d)

  unfoldable pub step_custom :
      Model D → ModelMap → Mailbox D → Controller D → Data D → Controller D × Data D
  step_custom m map snap c d =
      if c.fsm.custom_entry_step
      then (
        record c { fsm = record c.fsm { custom_entry_step = false } },
        hold c m map c.fsm.custom_entry_pose d,
      )
      else if c.fsm.custom_low_cmd_seen
      then follow m map snap c d
      else if not (is_empty snap.low_cmd_motors)
      then follow m map snap (record c { fsm = record c.fsm { custom_low_cmd_seen = true } }) d
      else (c, hold c m map c.fsm.custom_entry_pose d)
