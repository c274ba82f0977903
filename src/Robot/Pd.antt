-- ===== src/Robot/Pd.antt =====
-- The PD controller over the 22 joints (mujoco/shared/sim/PdController.hpp). An array of 22 is a
-- function of the joint's index.
pub mod Limits
pub mod Written
use nusim.Base.{ℕ, ◌+◌, ◌*◌, List, [], ◌∷◌, map, if◌then◌else◌, count_up}
use nusim.Double.{Double, clamp}
use nusim.MuJoCo.{Model, Data, write}
use nusim.Robot.Joints.{joint_count}
use nusim.Robot.ModelMap.{ModelMap}

pub record PdController (D : Type 0) : Type 0 where
  pub kp : ℕ → D
  pub kd : ℕ → D

module _ {D : Type 0} ⦃f : Double D⦄ where
  open f use {add, sub, mul, lt}

  -- A torque, clamped to the range of a limited actuator.
  unfoldable pub limit : Model D → ℕ → D → D
  limit m act tau =
      if m.actuator_forcelimited act
      then clamp tau (m.actuator_forcerange (2 * act)) (m.actuator_forcerange (2 * act + 1))
      else tau

  unfoldable pub apply_joint :
      PdController D → Model D → ModelMap → (ℕ → D) → (ℕ → D) → (ℕ → D) → ℕ → Data D → Data D
  apply_joint pd m map q_ref dq_ref tau_ff i d =
      let q = d.qpos (map.qpos_adr i) in
      let dq = d.qvel (map.dof_adr i) in
      let tau =
        add (add (mul (pd.kp i) (sub (q_ref i) q)) (mul (pd.kd i) (sub (dq_ref i) dq)))
          (tau_ff i) in
      let act = map.act_id i in record d { ctrl = write d.ctrl act (limit m act tau) }

  -- A loop over joints, in order.
  unfoldable pub for_joints : List ℕ → (ℕ → Data D → Data D) → Data D → Data D
  for_joints [] body d = d
  for_joints (i ∷ is) body d = for_joints is body (body i d)

  unfoldable pub apply :
      PdController D → Model D → Data D → ModelMap → (ℕ → D) → (ℕ → D) → (ℕ → D) → Data D
  apply pd m d map q_ref dq_ref tau_ff =
      for_joints (count_up 0 joint_count) (apply_joint pd m map q_ref dq_ref tau_ff) d
