-- ===== src/Supervisor/Config.antt =====
-- The supervisor's configuration (mujoco/module/Supervisor/src/SupervisorConfig.hpp), as the
-- loader leaves it.
use nusim.Base.{Bool, List, ℤ}
use Prim.Native.String.{String}

pub record Pose3 (D : Type 0) : Type 0 where
  pub x : D
  pub y : D
  pub z : D
  pub yaw : D

pub record BallConfig (D : Type 0) : Type 0 where
  pub enabled : Bool
  pub body : String
  pub geom : String
  pub x : D
  pub y : D
  pub z : D

pub record RobotConfig (D : Type 0) : Type 0 where
  pub body : String
  pub team_id : ℤ
  pub team_index : ℤ
  pub player_id : ℤ
  pub home_pose : Pose3 D
  pub penalty_pose : Pose3 D

pub record SupervisorConfig (D : Type 0) : Type 0 where
  pub enabled : Bool
  pub gc_port : ℤ
  pub reset_ball_on_finished : Bool
  pub reset_ball_on_goal : Bool
  pub reset_ball_on_half_change : Bool
  pub ball : BallConfig D
  pub robots : List (RobotConfig D)
