-- ===== src/Message.antt =====
-- The messages between the modules (mujoco/shared/message/Commands.hpp), and the sum of those that
-- the SDK bridge emits.
use nusim.Base.{Bool, true, List, ℤ, pos}
use nusim.Double.{Double, nought}
use nusim.Locomotion.Controller.{MotorCmdData}

pub record WalkCommand (D : Type 0) : Type 0 where
  pub vx : D
  pub vy : D
  pub vyaw : D

pub record HeadCommand (D : Type 0) : Type 0 where
  pub pitch : D
  pub yaw : D

pub record ModeChangeRequest : Type 0 where
  pub mode : ℤ

pub record GetUpRequest : Type 0 where
  pub target_mode : ℤ

pub record VisualKickRequest : Type 0 where
  pub start : Bool
  pub version : ℤ

pub record LowCmdMessage (D : Type 0) : Type 0 where
  pub cmd_type : ℤ
  pub motors : List (MotorCmdData D)

pub data Message (D : Type 0) : Type 0 where
  walk_command : WalkCommand D → Message D
  head_command_message : HeadCommand D → Message D
  mode_change_request : ModeChangeRequest → Message D
  get_up_request : GetUpRequest → Message D
  lie_down_request : Message D
  visual_kick_request : VisualKickRequest → Message D
  low_cmd_message : LowCmdMessage D → Message D

-- The default member initialisers.
abbrev pub default_get_up : GetUpRequest
default_get_up = record { target_mode = pos 4 }

abbrev pub default_visual_kick : VisualKickRequest
default_visual_kick = record { start = true; version = pos 1 }

abbrev pub default_mode_change : ModeChangeRequest
default_mode_change = record { mode = pos 0 }

module _ {D : Type 0} ⦃f : Double D⦄ where
  abbrev pub default_walk : WalkCommand D
  default_walk = record { vx = nought; vy = nought; vyaw = nought }

  abbrev pub default_head : HeadCommand D
  default_head = record { pitch = nought; yaw = nought }
