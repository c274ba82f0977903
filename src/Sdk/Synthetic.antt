-- ===== src/Sdk/Synthetic.antt =====
-- The source of states for the contract test (mujoco/module/SdkBridge/test_support/SyntheticState.hpp
-- and .cpp): it takes the bridge's messages and publishes a robot that follows them at once.
pub mod Followed
use nusim.Base.{
  ℕ, ◌+◌, ◌%◌, ◌^◌, true, false, List, [], ◌∷◌, ◌++◌, ◌==◌, if◌then◌else◌, get_or, ℤ, pos,
}
use nusim.Double.{Double, nought, unit}
use nusim.Message.{
  Message, walk_command, head_command_message, mode_change_request, get_up_request,
  lie_down_request, visual_kick_request, low_cmd_message,
}
use nusim.Robot.Booster.FallState
use nusim.Robot.Booster.RobotMode
use nusim.Robot.Joints
use nusim.Simulation.Snapshot.{JointState, HeadPose, SimStateUpdate, vec3, identity_quat}

pub record SyntheticState (D : Type 0) : Type 0 where
  pub sim_time : D
  pub step_count : ℕ  -- uint64_t
  pub mode : ℤ
  pub fall_state : ℤ
  pub x : D
  pub y : D
  pub yaw : D
  pub vx : D
  pub vy : D
  pub vyaw : D
  pub head_pitch : D
  pub head_yaw : D

-- What reaches the source: a message, or 20 ms are over.
pub data SyntheticEvent (D : Type 0) : Type 0 where
  message : Message D → SyntheticEvent D
  tick : SyntheticEvent D

module _ {D : Type 0} ⦃f : Double D⦄ where
  open f use {add, sub, mul, div, dec, sin, cos, neg}

  abbrev pub fresh_state : SyntheticState D
  fresh_state = record {
    sim_time = nought;
    step_count = 0;
    mode = RobotMode.damping;
    fall_state = FallState.is_ready;
    x = nought;
    y = nought;
    yaw = nought;
    vx = nought;
    vy = nought;
    vyaw = nought;
    head_pitch = nought;
    head_yaw = nought;
  }

  -- The reactions to messages; there is none to joint commands.
  unfoldable pub on_message : Message D → SyntheticState D → SyntheticState D
  on_message (mode_change_request msg) s = record s { mode = msg.mode }
  on_message (walk_command msg) s = record s { vx = msg.vx; vy = msg.vy; vyaw = msg.vyaw }
  on_message (head_command_message msg) s = record s { head_pitch = msg.pitch; head_yaw = msg.yaw }
  on_message (get_up_request msg) s = record s {
    fall_state = FallState.is_ready;
    mode = msg.target_mode;
  }
  on_message lie_down_request s = record s { fall_state = FallState.has_fallen }
  on_message (visual_kick_request msg) s = s
  on_message (low_cmd_message msg) s = s

  -- 1 / 50
  abbrev pub time_step : D
  time_step = div unit (dec (pos 50) 0)

  -- A commanded velocity of the body in the world.
  unfoldable pub world_velocity : SyntheticState D → D × D
  world_velocity s =
      let cos_yaw = cos s.yaw in
      let sin_yaw = sin s.yaw in
      (sub (mul s.vx cos_yaw) (mul s.vy sin_yaw), add (mul s.vx sin_yaw) (mul s.vy cos_yaw))

  -- The members after a tick.
  unfoldable pub advance_state : SyntheticState D → SyntheticState D
  advance_state s =
      let (wx, wy) = world_velocity s in
      record s {
        sim_time = add s.sim_time time_step;
        step_count = (s.step_count + 1) % 2 ^ 64;
        x = add s.x (mul wx time_step);
        y = add s.y (mul wy time_step);
        yaw = add s.yaw (mul s.vyaw time_step);
      }

  abbrev pub no_joint_state : JointState D
  no_joint_state = record { q = nought; dq = nought; ddq = nought; tau = nought }

  abbrev pub synthetic_joints : SyntheticState D → ℕ → JointState D
  synthetic_joints s i =
      if i == Joints.head_pitch
      then record no_joint_state { q = s.head_pitch }
      else if i == Joints.head_yaw
      then record no_joint_state { q = s.head_yaw }
      else no_joint_state

  abbrev pub synthetic_head : SyntheticState D → D → HeadPose D
  synthetic_head s z =
      let half = dec (pos 5) 1 in
      let cy = cos (mul s.head_yaw half) in
      let sy = sin (mul s.head_yaw half) in
      let cp = cos (mul s.head_pitch half) in
      let sp = sin (mul s.head_pitch half) in
      record {
        valid = true;
        position = vec3 nought nought (add z (dec (pos 33) 2));
        quat = λ k. get_or (mul cy cp ∷ mul (neg sy) sp ∷ mul cy sp ∷ mul sy cp ∷ []) k nought;
      }

  -- What is published_state, from the members before a tick; the velocity is rotated by the yaw before it.
  unfoldable pub published_state : SyntheticState D → SimStateUpdate D
  unfolding advance_state
  published_state before =
      let s = advance_state before in
      let (wx, wy) = world_velocity before in
      let half = mul s.yaw (dec (pos 5) 1) in
      let z = dec (pos 53) 2 in
      record {
        sim_time = s.sim_time;
        step_count = s.step_count;
        joints = synthetic_joints s;
        imu = record {
          quat = identity_quat;
          rpy = nought ∷ nought ∷ s.yaw ∷ [];
          gyro = vec3 nought nought s.vyaw;
          acc = vec3 nought nought (dec (pos 981) 2);
        };
        base = record {
          x = s.x;
          y = s.y;
          z = z;
          quat = λ k. get_or (cos half ∷ nought ∷ nought ∷ sin half ∷ []) k nought;
          lin_vel = vec3 wx wy nought;
          ang_vel = vec3 nought nought s.vyaw;
        };
        head = synthetic_head s z;
        mode = s.mode;
        fall_state = s.fall_state;
        getting_up = false;
        measured_rtf = unit;
      }

  unfoldable pub react :
      SyntheticEvent D → SyntheticState D → SyntheticState D × List (SimStateUpdate D)
  unfolding on_message advance_state published_state
  react (message m) s = (on_message m s, [])
  react tick s = (advance_state s, published_state s ∷ [])

  unfoldable pub react_all :
      List (SyntheticEvent D) → SyntheticState D → SyntheticState D × List (SimStateUpdate D)
  react_all [] s = (s, [])
  react_all (e ∷ es) s =
      let (s1, out) = react e s in let (s2, rest) = react_all es s1 in (s2, out ++ rest)
