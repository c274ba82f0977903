-- ===== src/Locomotion/Reactor.antt =====
-- The reactions that hand messages to the controller
-- (mujoco/module/Locomotion/src/Locomotion.cpp), after startup. A log line is its kind.
pub mod Ignored
use nusim.Base.{Bool, true, not, List, [], ◌∷◌, ◌++◌, if◌then◌else◌, ℤ}
use nusim.Locomotion.Controller.{Controller, Setter, head_command, mode_change, low_cmd, post}
use nusim.Message.{
  Message, walk_command, head_command_message, mode_change_request, get_up_request,
  lie_down_request, visual_kick_request, low_cmd_message,
}

pub record Locomotion (D : Type 0) : Type 0 where
  pub controller : Controller D
  pub walk_warned : Bool
  pub getup_warned : Bool
  pub liedown_warned : Bool
  pub kick_warned : Bool

-- "Move", "GetUp", "LieDown" and "VisualKick".
pub data IgnoredRpc : Type 0 where
  move_rpc get_up_rpc lie_down_rpc visual_kick_rpc : IgnoredRpc

pub data Log : Type 0 where
  mode_requested : ℤ → Log
  ignored : IgnoredRpc → Log

-- The flag afterwards, and the warning if the flag was clear.
abbrev pub warn_once : Bool → IgnoredRpc → Bool × List Log
warn_once flag rpc = if not flag then (true, ignored rpc ∷ []) else (flag, [])

module _ {D : Type 0} where
  abbrev pub set : Setter D → Locomotion D → Locomotion D
  set s l = record l { controller = record l.controller { mailbox = post s l.controller.mailbox } }

  -- The reaction to a message.
  unfoldable pub react : Message D → Locomotion D → Locomotion D × List Log
  react (head_command_message cmd) l = (set (head_command cmd.pitch cmd.yaw) l, [])
  react (mode_change_request req) l = (set (mode_change req.mode) l, mode_requested req.mode ∷ [])
  react (low_cmd_message cmd) l = (set (low_cmd cmd.cmd_type cmd.motors) l, [])
  react (walk_command cmd) l =
      let (flag, logs) = warn_once l.walk_warned move_rpc in (record l { walk_warned = flag }, logs)
  react (get_up_request req) l =
      let (flag, logs) = warn_once l.getup_warned get_up_rpc in
      (record l { getup_warned = flag }, logs)
  react lie_down_request l =
      let (flag, logs) = warn_once l.liedown_warned lie_down_rpc in
      (record l { liedown_warned = flag }, logs)
  react (visual_kick_request req) l =
      let (flag, logs) = warn_once l.kick_warned visual_kick_rpc in
      (record l { kick_warned = flag }, logs)

  -- Messages in turn, and all that is logged.
  unfoldable pub react_all : List (Message D) → Locomotion D → Locomotion D × List Log
  react_all [] l = (l, [])
  react_all (msg ∷ msgs) l =
      let (l1, logs) = react msg l in let (l2, more) = react_all msgs l1 in (l2, logs ++ more)
