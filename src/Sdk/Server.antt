-- ===== src/Sdk/Server.antt =====
-- The answering of requests (mujoco/module/SdkBridge/src/RpcServer.cpp). The samples that a reader
-- holds are a list; what a callback does to the outside, in order, is a list of effects.
pub mod Replies
pub mod Callbacks
use nusim.Base.{
  ℕ, Bool, true, false, not, Option, none, some, List, [], ◌∷◌, ◌++◌, if◌then◌else◌, ℤ,
}
use nusim.Double.{Double}
use nusim.Locomotion.Controller.{MotorCmdData}
use nusim.Message.{
  Message, walk_command, head_command_message, mode_change_request, get_up_request,
  lie_down_request, visual_kick_request, low_cmd_message,
}
use nusim.Sdk.Json.{Json}
use nusim.Sdk.Dispatch.{
  RpcAction, RpcOutcome, no_kind, mode_change_kind, walk_kind, head_kind, get_up_kind,
  lie_down_kind, visual_kick_kind, dispatch_rpc,
}

-- A sample of rt/LocoApiTopicReq, and `current_mode_` when it is taken.
pub record Request : Type 0 where
  pub valid_data : Bool
  pub uuid : List ℕ
  pub header : List ℕ
  pub body : List ℕ
  pub current_mode : ℤ

pub record Response : Type 0 where
  pub uuid : List ℕ
  pub header : List ℕ
  pub body : List ℕ

-- A warning with the api_id and the status, a message, or a written response.
pub data Effect (D : Type 0) : Type 0 where
  warned_api : ℤ → ℤ → Effect D
  emitted : Message D → Effect D
  written : Response → Effect D

module _ {D : Type 0} where
  -- The message of an action, if any.
  unfoldable pub action_message : RpcAction D → Option (Message D)
  action_message a = elim a.kind [
    | no_kind ↦ none
    | mode_change_kind ↦ some (mode_change_request a.mode_change)
    | walk_kind ↦ some (walk_command a.walk)
    | head_kind ↦ some (head_command_message a.head)
    | get_up_kind ↦ some (get_up_request a.get_up)
    | lie_down_kind ↦ some lie_down_request
    | visual_kick_kind ↦ some (visual_kick_request a.visual_kick)
  ]

  abbrev pub emit_all : Option (Message D) → List (Effect D)
  emit_all none = []
  emit_all (some msg) = emitted msg ∷ []

module _ {D J : Type 0} ⦃f : Double D⦄ (json : Json D J) where
  unfoldable pub response_to : Request → RpcOutcome D → Response
  response_to req o = record {
    uuid = req.uuid;
    header = json.dump "status" o.status;
    body = o.response_body;
  }

  -- What the loop's body does for an outcome.
  unfoldable pub answer : Request → RpcOutcome D → List (Effect D)
  answer req o =
      (if o.unknown_api_id then warned_api o.api_id o.status ∷ [] else [])
      ++ (emit_all (action_message o.action) ++ (written (response_to req o) ∷ []))

  -- One sample; `none` where an exception leaves the loop.
  unfoldable pub handle_sample : ℤ → Request → Option (List (Effect D))
  handle_sample unknown_api_status req =
      if not req.valid_data
      then some []
      else elim (dispatch_rpc json req.header req.body req.current_mode unknown_api_status) [
        | none ↦ none
        | some o ↦ some (answer req o)
      ]

  -- The loop, and whether it ends without an exception.
  unfoldable pub handle_rpc_request : ℤ → List Request → List (Effect D) × Bool
  handle_rpc_request st [] = ([], true)
  handle_rpc_request st (req ∷ reqs) =
      let (es, done) = handle_rpc_request st reqs in
      elim (handle_sample st req) [ none ↦ ([], false) | some now ↦ (now ++ es, done) ]

-- A sample of rt/joint_ctrl.
pub record LowCmdSample (D : Type 0) : Type 0 where
  pub valid_data : Bool
  pub cmd_type : ℤ
  pub motor_cmd : List (MotorCmdData D)

module _ {D : Type 0} where
  unfoldable pub handle_joint_ctrl : List (LowCmdSample D) → List (Effect D)
  handle_joint_ctrl [] = []
  handle_joint_ctrl (s ∷ ss) =
      if not s.valid_data
      then handle_joint_ctrl ss
      else emitted (low_cmd_message (record { cmd_type = s.cmd_type; motors = s.motor_cmd }))
        ∷ handle_joint_ctrl ss

-- A reader that has samples, with the samples.
pub data DataReader (D : Type 0) : Type 0 where
  rpc_req_reader : List Request → DataReader D
  joint_ctrl_reader : List (LowCmdSample D) → DataReader D
  other_reader : DataReader D

module _ {D J : Type 0} ⦃f : Double D⦄ (json : Json D J) where
  unfoldable pub on_data_available : ℤ → DataReader D → List (Effect D) × Bool
  on_data_available st (rpc_req_reader reqs) = handle_rpc_request json st reqs
  on_data_available st (joint_ctrl_reader ss) = (handle_joint_ctrl ss, true)
  on_data_available st other_reader = ([], true)

  -- Callbacks in turn; none follows one that throws.
  unfoldable pub on_all : ℤ → List (DataReader D) → List (Effect D) × Bool
  on_all st [] = ([], true)
  on_all st (r ∷ rs) =
      let (now, done) = on_data_available st r in
      let (later, all_done) = on_all st rs in
      if done then (now ++ later, all_done) else (now, false)
