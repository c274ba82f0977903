-- ===== src/Tests/Commands.antt =====
-- A motor command on its way to the actuators.
use nusim.Base.{◌≡◌, refl, true, [], ◌∷◌, arith, List, ℤ, pos, negsuc}
use nusim.Double.Fixed.{fixed}
use nusim.Robot.Pd.{limit}
use nusim.Sdk.Dispatch.{parse_or_empty, dispatch_rpc, switch_api, acting, on_rotate_head}
use nusim.Sdk.Dispatch.Outcomes.{IsTyped}
use nusim.Sdk.Server.{
  Request, LowCmdSample, DataReader, rpc_req_reader, joint_ctrl_reader, on_all, on_data_available,
  handle_rpc_request, handle_joint_ctrl, handle_sample, answer, action_message,
}
use nusim.Sdk.Server.Callbacks.{AllTyped, all_commands, commands}
use nusim.Locomotion.Controller.{low_cmd, custom, fresh, step_with}
use nusim.Locomotion.Controller.Tracking.{commanded_torque}
use nusim.Locomotion.Reactor.{Locomotion, react_all}
use nusim.Commands.{messages, on_all-torque}
use nusim.Tests.Fixtures.{pitch, moved, vectors}
use nusim.Tests.Locomotion.{loco, joints, motor}
use nusim.Tests.Sdk.{toy, typed_body, reactor}

-- RotateHead, {"api_id": 2004}.
abbrev rotate_head_request : Request
rotate_head_request = record {
  valid_data = true;
  uuid = 5 ∷ [];
  header = 97 ∷ 104 ∷ [];
  body = [];
  current_mode = pos 3;
}

abbrev sample : LowCmdSample ℤ
sample = record { valid_data = true; cmd_type = pos 1; motor_cmd = motor ∷ [] }

abbrev callbacks : List (DataReader ℤ)
callbacks =
    joint_ctrl_reader (record sample { motor_cmd = [] } ∷ [])
    ∷ rpc_req_reader (rotate_head_request ∷ [])
    ∷ joint_ctrl_reader (sample ∷ [])
    ∷ []

rotate_head_typed : IsTyped toy toy.get_int64 (parse_or_empty toy (97 ∷ 104 ∷ [])) "api_id"
unfolding parse_or_empty
rotate_head_typed h e = cc

callbacks_typed : AllTyped toy callbacks
callbacks_typed = (((rotate_head_typed, typed_body), tt), tt)

abbrev in_custom : Locomotion ℤ
in_custom = record reactor {
  controller = record (fresh loco) { fsm = record (fresh loco).fsm { state = custom } };
}

on_all-torque_example :
    let c = (react_all (messages (on_all toy (negsuc 0) callbacks).0) in_custom).0.controller in
    (step_with vectors pitch joints (low_cmd (pos 1) [] ∷ []) c moved).1.ctrl 0
    ≡ limit pitch 0 (commanded_torque joints (motor ∷ []) moved 0)
unfolding messages on_all on_data_available handle_rpc_request handle_joint_ctrl handle_sample
    answer action_message dispatch_rpc switch_api acting on_rotate_head parse_or_empty fresh
    all_commands commands
on_all-torque_example =
    on_all-torque toy vectors pitch joints (negsuc 0) callbacks
      (record { cmd_type = pos 1; motors = [] } ∷ [])
      (record { cmd_type = pos 1; motors = motor ∷ [] }) in_custom (low_cmd (pos 1) [] ∷ []) moved 0
      callbacks_typed (refl, (refl, (refl, tt))) refl (ground arith) (omega arith) refl refl refl
      (λ i j hi hj e. e)
