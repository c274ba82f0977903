-- ===== src/Locomotion/Types.antt =====
-- The controller's state, its mailbox and the setters that write it
-- (mujoco/module/Locomotion/src/LocomotionController.hpp and .cpp, mujoco/shared/message/Commands.hpp).
use nusim.Base.{ℕ, ◌+◌, ◌%◌, ◌^◌, Bool, Option, List, [], ◌∷◌, map, ℤ}
use nusim.MuJoCo.{Data}
use nusim.Robot.ModelMap.{ModelMap}
use nusim.Robot.Pd.{PdController}

pub record MotorCmdData (D : Type 0) : Type 0 where
  pub mode : ℕ
  pub q : D
  pub dq : D
  pub tau : D
  pub kp : D
  pub kd : D
  pub weight : D

pub data State : Type 0 where
  damping prepare custom : State

pub record Config (D : Type 0) : Type 0 where
  pub prepare_blend_time : D
  pub falling_tilt : D
  pub fallen_tilt : D
  pub falling_gyro : D
  pub fallen_height : D
  pub ready_pose : ℕ → D
  pub pd : PdController D

-- The mailbox, and a `CommandSnapshot` of it.
pub record Mailbox (D : Type 0) : Type 0 where
  pub head_pitch : D
  pub head_yaw : D
  pub mode_seq : ℕ  -- uint64_t
  pub requested_mode : ℤ
  pub low_cmd_type : ℤ
  pub low_cmd_motors : List (MotorCmdData D)

pub record Fsm (D : Type 0) : Type 0 where
  pub state : State
  pub prepare_start_pose : ℕ → D
  pub prepare_start_time : D
  pub custom_parallel_warned : Bool
  pub custom_entry_pose : ℕ → D
  pub custom_low_cmd_seen : Bool
  pub custom_entry_step : Bool
  pub last_mode_seq : ℕ

pub record Controller (D : Type 0) : Type 0 where
  pub cfg : Config D
  -- `none` until the first step: `initialized_` is false
  pub map : Option ModelMap
  pub fsm : Fsm D
  pub mailbox : Mailbox D
  pub mode : ℤ
  pub fall_state : ℤ

abbrev pub u64 : ℕ → ℕ
u64 n = n % 2 ^ 64

-- The setters.
pub data Setter (D : Type 0) : Type 0 where
  head_command : D → D → Setter D
  mode_change : ℤ → Setter D
  low_cmd : ℤ → List (MotorCmdData D) → Setter D

module _ {D : Type 0} where
  -- set_head_command, request_mode_change, set_low_cmd
  unfoldable pub post : Setter D → Mailbox D → Mailbox D
  post (head_command pitch yaw) b = record b { head_pitch = pitch; head_yaw = yaw }
  post (mode_change mode) b = record b { requested_mode = mode; mode_seq = u64 (b.mode_seq + 1) }
  post (low_cmd type motors) b = record b { low_cmd_type = type; low_cmd_motors = motors }

  unfoldable pub post_all : List (Setter D) → Mailbox D → Mailbox D
  unfolding post
  post_all [] b = b
  post_all (s ∷ ss) b = post_all ss (post s b)

  unfoldable pub current_q : Data D → ModelMap → ℕ → D
  current_q d map i = d.qpos (map.qpos_adr i)
