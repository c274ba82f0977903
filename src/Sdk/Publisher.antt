-- ===== src/Sdk/Publisher.antt =====
-- What is published of the simulation's state
-- (mujoco/module/SdkBridge/src/StatePublisher.cpp and .hpp). `F` is the type `float`, and `to_float`
-- the cast to it. A write to a topic is an entry in a list of messages.
pub mod Types
pub mod Motors
use nusim.Base.{
  ℕ, ◌*◌, ◌/◌, ◌%◌, ◌^◌, Bool, true, false, not, ◌||◌, List, [], ◌∷◌, ◌++◌, map, ltb, ◌==◌,
  if◌then◌else◌, get_or, drop, count_up, ℤ, pos, negsuc, sub_ℕ, ◌==ℤ◌,
}
use nusim.Double.{Double, nought, unit, two}
use nusim.Robot.Joints.{joint_count, left_hip_pitch}
use nusim.Simulation.Snapshot.{SimStateUpdate, JointState, vec3}
use nusim.Sdk.Odometry.{Config, Estimate, Truth, fresh_model, update}
pub use Types.*

-- static_cast<int32_t> of a count that is not negative
unfoldable pub int32_of : ℕ → ℤ
int32_of n = let w = n % 2 ^ 32 in if ltb w (2 ^ 31) then pos w else sub_ℕ w (2 ^ 32)

module _ {D : Type 0} ⦃f : Double D⦄ where
  open f use {add, sub, mul, neg, le, dec, sin, cos, atan2, remainder, pi}

  -- Its constructor; the writers are left out.
  unfoldable pub new_publisher : D → StatePublisher D
  new_publisher battery_soc = record {
    battery_soc = battery_soc;
    odometry = fresh_model;
    have_last_fall_state = false;
    last_fall_state = negsuc 0;
    last_fall_publish_time = dec (negsuc 999999999) 0;
  }

  unfoldable pub yaw_from_quat : (ℕ → D) → D
  yaw_from_quat q =
      atan2 (mul two (add (mul (q 0) (q 3)) (mul (q 1) (q 2))))
        (sub unit (mul two (add (mul (q 2) (q 2)) (mul (q 3) (q 3)))))

  abbrev pub vec4 : D → D → D → D → ℕ → D
  vec4 w x y z k = get_or (w ∷ x ∷ y ∷ z ∷ []) k nought

  unfoldable pub quat_mul : (ℕ → D) → (ℕ → D) → ℕ → D
  quat_mul a b =
      vec4 (sub (sub (sub (mul (a 0) (b 0)) (mul (a 1) (b 1))) (mul (a 2) (b 2))) (mul (a 3) (b 3)))
        (sub (add (add (mul (a 0) (b 1)) (mul (a 1) (b 0))) (mul (a 2) (b 3))) (mul (a 3) (b 2)))
        (add (add (sub (mul (a 0) (b 2)) (mul (a 1) (b 3))) (mul (a 2) (b 0))) (mul (a 3) (b 1)))
        (add (sub (add (mul (a 0) (b 3)) (mul (a 1) (b 2))) (mul (a 2) (b 1))) (mul (a 3) (b 0)))

  abbrev pub dot3 : D → D → D → (ℕ → D) → D
  dot3 a b c v = add (add (mul a (v 0)) (mul b (v 1))) (mul c (v 2))

  unfoldable pub world_to_body : (ℕ → D) → (ℕ → D) → ℕ → D
  world_to_body q v =
      let w = q 0 in
      let x = q 1 in
      let y = q 2 in
      let z = q 3 in
      vec3
        (dot3 (sub unit (mul two (add (mul y y) (mul z z)))) (mul two (add (mul x y) (mul w z)))
          (mul two (sub (mul x z) (mul w y))) v)
        (dot3 (mul two (sub (mul x y) (mul w z))) (sub unit (mul two (add (mul x x) (mul z z))))
          (mul two (add (mul y z) (mul w x))) v)
        (dot3 (mul two (add (mul x z) (mul w y))) (mul two (sub (mul y z) (mul w x)))
          (sub unit (mul two (add (mul x x) (mul y y)))) v)

  -- The arguments of the odometry's update.
  unfoldable pub truth_of : SimStateUpdate D → Truth D
  truth_of s = record {
    t = s.sim_time;
    x = s.base.x;
    y = s.base.y;
    yaw = yaw_from_quat s.base.quat;
    vx_world = s.base.lin_vel 0;
    vy_world = s.base.lin_vel 1;
    wz = s.base.ang_vel 2;
  }

  -- The velocity in the frame of the true yaw.
  unfoldable pub true_planar : SimStateUpdate D → ℕ → D
  true_planar s =
      let yaw = yaw_from_quat s.base.quat in
      let cy = cos yaw in
      let sy = sin yaw in
      vec3 (add (mul cy (s.base.lin_vel 0)) (mul sy (s.base.lin_vel 1)))
        (add (mul (neg sy) (s.base.lin_vel 0)) (mul cy (s.base.lin_vel 1))) (s.base.ang_vel 2)

  -- `now` is the system clock in nanoseconds.
  unfoldable pub odom_of : ℕ → SimStateUpdate D → Estimate D → Odometry D
  unfolding true_planar
  odom_of now s est =
      let yaw_true = yaw_from_quat s.base.quat in
      let half_dyaw = mul (dec (pos 5) 1) (remainder (sub est.yaw yaw_true) (mul two pi)) in
      let linear = world_to_body s.base.quat s.base.lin_vel in
      let angular = world_to_body s.base.quat s.base.ang_vel in
      let planar = true_planar s in
      record {
        sec = int32_of (now / 1000000000);
        nanosec = now % 1000000000;
        frame_id = "odom";
        child_frame_id = "base_link";
        position = vec3 est.x est.y s.base.z;
        orientation = quat_mul (vec4 (cos half_dyaw) nought nought (sin half_dyaw)) s.base.quat;
        linear =
            vec3 (sub (add (linear 0) (est.velocity 0)) (planar 0))
              (sub (add (linear 1) (est.velocity 1)) (planar 1)) (linear 2);
        angular = vec3 (angular 0) (angular 1) (sub (add (angular 2) (est.velocity 2)) (planar 2));
        twist_covariance = λ k.
            if k == 0
            then est.velocity_variance 0
            else if k == 7
            then est.velocity_variance 1
            else if k == 35
            then est.velocity_variance 2
            else nought;
      }

  -- The last part: the fall state, on a change or after a second.
  unfoldable pub is_fall_due : SimStateUpdate D → StatePublisher D → Bool
  is_fall_due s p =
      (not p.have_last_fall_state || not (p.last_fall_state ==ℤ s.fall_state))
      || le unit (sub s.sim_time p.last_fall_publish_time)

module _ {D F : Type 0} ⦃f : Double D⦄ where
  abbrev pub head_message : SimStateUpdate D → List (StateMessage D F)
  head_message s =
      if s.head.valid
      then head_pose (record { position = s.head.position; orientation = s.head.quat }) ∷ []
      else []

  unfoldable pub publish_fall :
      SimStateUpdate D → StatePublisher D → StatePublisher D × List (StateMessage D F)
  publish_fall s p =
      if is_fall_due s p
      then (
        record p {
          have_last_fall_state = true;
          last_fall_state = s.fall_state;
          last_fall_publish_time = s.sim_time;
        },
        fall_down (record { fall_down_state = s.fall_state; is_recovery_available = true }) ∷ [],
      )
      else (p, [])

module _ {D F : Type 0} ⦃f : Double D⦄ (to_float : D → F) where
  unfoldable pub to_motor_state : JointState D → MotorState F
  to_motor_state joint = record {
    mode = 1;
    q = to_float joint.q;
    dq = to_float joint.dq;
    ddq = to_float joint.ddq;
    tau_est = to_float joint.tau;
    temperature = 40;
    lost = 0;
    reserve = 0 ∷ 0 ∷ [];
  }

  abbrev pub floats : (ℕ → D) → List F
  floats v = map (λ k. to_float (v k)) (0 ∷ 1 ∷ 2 ∷ [])

  unfoldable pub motors_of : SimStateUpdate D → List (MotorState F)
  unfolding to_motor_state
  motors_of s = map (λ i. to_motor_state (s.joints i)) (count_up 0 joint_count)

  unfoldable pub low_state_of : SimStateUpdate D → LowState F
  unfolding motors_of
  low_state_of s = record {
    rpy = map to_float s.imu.rpy;
    gyro = floats s.imu.gyro;
    acc = floats s.imu.acc;
    motor_state_parallel = drop left_hip_pitch (motors_of s);
    motor_state_serial = motors_of s;
  }

  unfoldable pub odometer_of : Estimate D → Odometer F
  odometer_of est = record { x = to_float est.x; y = to_float est.y; theta = to_float est.yaw }

  unfoldable pub publish :
      (ℕ → D)
      → Config D
      → ℕ
      → SimStateUpdate D
      → StatePublisher D
      → StatePublisher D × List (StateMessage D F)
  publish normals cfg now s p =
      let odometry = update normals cfg (truth_of s) p.odometry in
      let (p', fall) = publish_fall s (record p { odometry = odometry }) in
      (
        p',
        low_state (low_state_of s)
            ∷ odometer_state (odometer_of odometry.estimate)
            ∷ odom (odom_of now s odometry.estimate)
            ∷ (head_message s ++ fall),
      )

  unfoldable pub publish_battery : StatePublisher D → List (StateMessage D F)
  publish_battery p =
      battery_state (record {
        voltage = to_float nought;
        current = to_float nought;
        soc = to_float p.battery_soc;
        average_voltage = to_float nought;
      })
      ∷ []
