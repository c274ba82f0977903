-- ===== src/Sdk/Publisher/Types.antt =====
-- The messages that are published, and what the publisher keeps between them
-- (mujoco/module/SdkBridge/src/StatePublisher.hpp).
use nusim.Base.{ℕ, Bool, List, ℤ}
use Prim.Native.String.{String}
use nusim.Sdk.Odometry.{OdometryModel}

pub record MotorState (F : Type 0) : Type 0 where
  pub mode : ℕ
  pub q : F
  pub dq : F
  pub ddq : F
  pub tau_est : F
  pub temperature : ℕ
  pub lost : ℕ
  pub reserve : List ℕ

pub record LowState (F : Type 0) : Type 0 where
  pub rpy : List F
  pub gyro : List F
  pub acc : List F
  pub motor_state_parallel : List (MotorState F)
  pub motor_state_serial : List (MotorState F)

pub record Odometer (F : Type 0) : Type 0 where
  pub x : F
  pub y : F
  pub theta : F

-- nav_msgs' Odometry, the fields that are set.
pub record Odometry (D : Type 0) : Type 0 where
  pub sec : ℤ
  pub nanosec : ℕ
  pub frame_id : String
  pub child_frame_id : String
  pub position : ℕ → D
  -- w, x, y, z
  pub orientation : ℕ → D
  pub linear : ℕ → D
  pub angular : ℕ → D
  pub twist_covariance : ℕ → D

pub record Pose (D : Type 0) : Type 0 where
  pub position : ℕ → D
  pub orientation : ℕ → D

pub record FallDown : Type 0 where
  pub fall_down_state : ℤ
  pub is_recovery_available : Bool

pub record Battery (F : Type 0) : Type 0 where
  pub voltage : F
  pub current : F
  pub soc : F
  pub average_voltage : F

pub data StateMessage (D F : Type 0) : Type 0 where
  low_state : LowState F → StateMessage D F
  odometer_state : Odometer F → StateMessage D F
  odom : Odometry D → StateMessage D F
  head_pose : Pose D → StateMessage D F
  fall_down : FallDown → StateMessage D F
  battery_state : Battery F → StateMessage D F

pub record StatePublisher (D : Type 0) : Type 0 where
  pub battery_soc : D
  pub odometry : OdometryModel D
  pub have_last_fall_state : Bool
  pub last_fall_state : ℤ
  pub last_fall_publish_time : D
