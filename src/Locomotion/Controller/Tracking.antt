-- ===== src/Locomotion/Controller/Tracking.antt =====
-- The torque that each motor command comes to.
use nusim.Base.{ℕ, ◌<◌, min, ◌≡◌, refl, List, arith, length, get_or}
use nusim.Double.{Double}
use nusim.MuJoCo.{Model, Data}
use nusim.Robot.Joints.{joint_count}
use nusim.Robot.ModelMap.{ModelMap}
use nusim.Robot.Pd.{limit}
use nusim.Robot.Pd.Written.{IsInjective, WritesTorque, for_joints-at}
use nusim.Locomotion.Controller.{MotorCmdData, no_motor, track_joint, track}

module _ {D : Type 0} ⦃f : Double D⦄ (map : ModelMap) where
  open f use {add, sub, mul}

  -- kp (q' - q) + kd (dq' - dq) + tau, of the command and of the joint as it is.
  abbrev pub commanded_torque : List (MotorCmdData D) → Data D → ℕ → D
  commanded_torque motors d i =
      let mc = get_or motors i no_motor in
      add
        (add (mul mc.kp (sub mc.q (d.qpos (map.qpos_adr i))))
          (mul mc.kd (sub mc.dq (d.qvel (map.dof_adr i)))))
        mc.tau

  track_joint-WritesTorque :
      (m : Model D) (motors : List (MotorCmdData D))
      → WritesTorque m map.act_id (commanded_torque motors) (track_joint m map motors)
  unfolding track_joint
  track_joint-WritesTorque m motors = record {
    writes = λ i d. refl;
    apart_from_ctrl = λ d c i. refl;
  }

  -- Where no two joints share an actuator, each joint that a command is for gets its torque, of the
  -- data before the loop, within the range of its actuator.
  pub track-at :
      (m : Model D) (motors : List (MotorCmdData D)) (d : Data D) (k : ℕ)
      → IsInjective map.act_id joint_count
      → k < min (length motors) joint_count
      → (track m map motors d).ctrl (map.act_id k)
        ≡ limit m (map.act_id k) (commanded_torque motors d k)
  unfolding track
  track-at m motors d k inj h =
      for_joints-at m map.act_id (commanded_torque motors) (track_joint m map motors)
        (track_joint-WritesTorque m motors) joint_count (min (length motors) joint_count) d k inj
        (omega arith) h
