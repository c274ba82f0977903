-- ===== src/Simulation/Snapshot.antt =====
-- The state that is published (mujoco/shared/message/SimMessages.hpp, mujoco/shared/sim/HeadPose.hpp
-- and `make_snapshot` of mujoco/module/Simulation/src/SimCore.cpp).
use nusim.Base.{
  ℕ, ◌+◌, ◌*◌, Bool, true, false, List, [], ◌∷◌, map, get_or, ℤ, pos, negsuc, pos_part,
}
use nusim.Double.{Double, nought, unit, two, clamp}
use nusim.MuJoCo.{Model, Data, Mju}
use nusim.Robot.ModelMap.{ModelMap}

pub record JointState (D : Type 0) : Type 0 where
  pub q : D
  pub dq : D
  pub ddq : D
  pub tau : D

pub record ImuData (D : Type 0) : Type 0 where
  pub quat : ℕ → D
  pub rpy : List D
  pub gyro : ℕ → D
  pub acc : ℕ → D

pub record BaseState (D : Type 0) : Type 0 where
  pub x : D
  pub y : D
  pub z : D
  pub quat : ℕ → D
  pub lin_vel : ℕ → D
  pub ang_vel : ℕ → D

-- Also `FootprintPose`, with `valid` for a pose that there is.
pub record HeadPose (D : Type 0) : Type 0 where
  pub valid : Bool
  pub position : ℕ → D
  pub quat : ℕ → D

pub record SimStateUpdate (D : Type 0) : Type 0 where
  pub sim_time : D
  pub step_count : ℕ
  pub joints : ℕ → JointState D
  pub imu : ImuData D
  pub base : BaseState D
  pub head : HeadPose D
  pub mode : ℤ
  pub fall_state : ℤ
  pub getting_up : Bool
  pub measured_rtf : D

module _ {D : Type 0} ⦃f : Double D⦄ where
  open f use {add, sub, mul, dec, atan2, asin}

  abbrev pub vec3 : D → D → D → ℕ → D
  vec3 x y z k = get_or (x ∷ y ∷ z ∷ []) k nought

  -- 1, 0, 0, 0
  abbrev pub identity_quat : ℕ → D
  identity_quat k = get_or (unit ∷ nought ∷ nought ∷ nought ∷ []) k nought

  -- Roll, pitch and yaw of a quaternion w, x, y, z.
  unfoldable pub quat_to_rpy : (ℕ → D) → List D
  quat_to_rpy q =
      let w = q 0 in
      let x = q 1 in
      let y = q 2 in
      let z = q 3 in
      let sinr_cosp = mul two (add (mul w x) (mul y z)) in
      let cosr_cosp = sub unit (mul two (add (mul x x) (mul y y))) in
      let sinp = clamp (mul two (sub (mul w y) (mul z x))) (dec (negsuc 0) 0) unit in
      let siny_cosp = mul two (add (mul w z) (mul x y)) in
      let cosy_cosp = sub unit (mul two (add (mul y y) (mul z z))) in
      atan2 sinr_cosp cosr_cosp ∷ asin sinp ∷ atan2 siny_cosp cosy_cosp ∷ []

  abbrev pub head_frame_above_pitch : D
  head_frame_above_pitch = dec (pos 8) 2

  -- The head's pose in the footprint frame of the base.
  unfoldable pub head_in_footprint : Mju D → (ℕ → D) → (ℕ → D) → (ℕ → D) → (ℕ → D) → HeadPose D
  head_in_footprint u head_p head_q base_xy base_q =
      let yaw =
        atan2 (mul two (add (mul (base_q 0) (base_q 3)) (mul (base_q 1) (base_q 2))))
          (sub unit (mul two (add (mul (base_q 2) (base_q 2)) (mul (base_q 3) (base_q 3))))) in
      let neg_yaw_q = u.axis_angle_quat (vec3 nought nought unit) (f.neg yaw) in
      let rel_w = vec3 (sub (head_p 0) (base_xy 0)) (sub (head_p 1) (base_xy 1)) (head_p 2) in
      let rel_p = u.rot_vec_quat rel_w neg_yaw_q in
      let rel_q = u.mul_quat neg_yaw_q head_q in
      let up_r = u.rot_vec_quat (vec3 nought nought head_frame_above_pitch) rel_q in
      record {
        valid = true;
        position = vec3 (add (rel_p 0) (up_r 0)) (add (rel_p 1) (up_r 1)) (add (rel_p 2) (up_r 2));
        quat = rel_q;
      }

  abbrev pub entries : (ℕ → D) → ℕ → ℕ → D
  entries a adr k = a (adr + k)

  -- A sensor's values, or a fallback of the root body, or a default.
  abbrev pub sensed : ℤ → ℤ → Data D → (ℕ → ℕ → D) → (ℕ → D) → ℕ → D
  sensed (pos adr) root d fallback default = entries d.sensordata adr
  sensed (negsuc _) (pos body) d fallback default = fallback body
  sensed (negsuc _) (negsuc _) d fallback default = default

  unfoldable pub make_imu : Mju D → Model D → Data D → ModelMap → ImuData D
  make_imu u m d map =
      let quat =
        sensed map.sens_quat map.root_body_id d (λ body. entries d.xquat (4 * body))
          identity_quat in
      record {
        quat = quat;
        rpy = quat_to_rpy quat;
        gyro =
            sensed map.sens_gyro map.root_body_id d
              (λ body. u.mul_mat_t_vec (entries d.xmat (9 * body)) (entries d.cvel (6 * body)))
              (λ k. nought);
        acc =
            sensed map.sens_acc map.root_body_id d
              (λ body.
                u.mul_mat_t_vec (entries d.xmat (9 * body))
                  (vec3 nought nought (f.neg (m.gravity 2))))
              (λ k. nought);
      }

  unfoldable pub make_base : Mju D → Data D → ModelMap → BaseState D
  make_base u d map =
      let qadr = pos_part map.root_qpos_adr in
      let vadr = pos_part map.root_dof_adr in
      record {
        x = d.qpos (qadr + 0);
        y = d.qpos (qadr + 1);
        z = d.qpos (qadr + 2);
        quat = entries d.qpos (qadr + 3);
        lin_vel = entries d.qvel vadr;
        ang_vel =
            u.mul_mat_vec (entries d.xmat (9 * pos_part map.root_body_id))
              (entries d.qvel (vadr + 3));
      }

  unfoldable pub make_head : Mju D → Data D → ModelMap → ℤ → HeadPose D
  make_head u d map (negsuc _) = record {
    valid = false;
    position = λ k. nought;
    quat = identity_quat;
  }
  make_head u d map (pos head_body_id) =
      let qadr = pos_part map.root_qpos_adr in
      head_in_footprint u (entries d.xpos (3 * head_body_id)) (entries d.xquat (4 * head_body_id))
        (entries d.qpos qadr) (entries d.qpos (qadr + 3))
