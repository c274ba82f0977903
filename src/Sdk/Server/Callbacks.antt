-- ===== src/Sdk/Server/Callbacks.antt =====
-- What a run of callbacks does.
use nusim.Base.{
  ℕ, ◌≡◌, refl, ap, ◌∙◌, inl, inr, true, some, List, [], ◌∷◌, ◌++◌, arith, if◌then◌else◌,
  Bool-cases, Option-cases, All, ℤ,
}
use nusim.Double.{Double}
use nusim.Message.{
  LowCmdMessage, walk_command, head_command_message, mode_change_request, get_up_request,
  lie_down_request, visual_kick_request, low_cmd_message,
}
use nusim.Sdk.Json.{Json}
use nusim.Sdk.Dispatch.{RpcOutcome, RpcAction, dispatch_rpc}
use nusim.Sdk.Server.{
  Request, Effect, warned_api, emitted, written, LowCmdSample, DataReader, rpc_req_reader,
  joint_ctrl_reader, other_reader, action_message, emit_all, answer, handle_sample,
  handle_rpc_request, handle_joint_ctrl, on_data_available, on_all,
}
use nusim.Sdk.Server.Replies.{
  replied, asked, replied-append, IsTypedRequest, handle_rpc_request-replied,
}

module _ {D : Type 0} where
  -- The motor commands among the effects.
  unfoldable pub commanded : List (Effect D) → List (LowCmdMessage D)
  commanded [] = []
  commanded (emitted (low_cmd_message m) ∷ es) = m ∷ commanded es
  commanded (_ ∷ es) = commanded es

  -- The motor commands among the samples with data.
  unfoldable pub commands : List (LowCmdSample D) → List (LowCmdMessage D)
  commands [] = []
  commands (s ∷ ss) =
      if s.valid_data
      then record { cmd_type = s.cmd_type; motors = s.motor_cmd } ∷ commands ss
      else commands ss

  unfoldable pub all_asked : List (DataReader D) → List (List ℕ)
  all_asked [] = []
  all_asked (rpc_req_reader reqs ∷ rs) = asked reqs ++ all_asked rs
  all_asked (_ ∷ rs) = all_asked rs

  unfoldable pub all_commands : List (DataReader D) → List (LowCmdMessage D)
  all_commands [] = []
  all_commands (joint_ctrl_reader ss ∷ rs) = commands ss ++ all_commands rs
  all_commands (_ ∷ rs) = all_commands rs

  commanded-append : (es fs : List (Effect D)) → commanded (es ++ fs) ≡ commanded es ++ commanded fs
  unfolding commanded
  commanded-append [] fs = refl
  commanded-append (warned_api i s ∷ es) fs = commanded-append es fs
  commanded-append (written r ∷ es) fs = commanded-append es fs
  commanded-append (emitted (walk_command m) ∷ es) fs = commanded-append es fs
  commanded-append (emitted (head_command_message m) ∷ es) fs = commanded-append es fs
  commanded-append (emitted (mode_change_request m) ∷ es) fs = commanded-append es fs
  commanded-append (emitted (get_up_request m) ∷ es) fs = commanded-append es fs
  commanded-append (emitted lie_down_request ∷ es) fs = commanded-append es fs
  commanded-append (emitted (visual_kick_request m) ∷ es) fs = commanded-append es fs
  commanded-append (emitted (low_cmd_message m) ∷ es) fs = ap (◌∷◌ m) (commanded-append es fs)

  handle_joint_ctrl-commanded :
      (ss : List (LowCmdSample D))
      → (commanded (handle_joint_ctrl ss) ≡ commands ss) × (replied (handle_joint_ctrl ss) ≡ [])
  unfolding handle_joint_ctrl commanded commands replied
  handle_joint_ctrl-commanded [] = (refl, refl)
  handle_joint_ctrl-commanded (s ∷ ss) =
      let (commanded_eq, replied_eq) = handle_joint_ctrl-commanded ss in
      elim (Bool-cases s.valid_data) [
        | inl e ↦ rw e (
          ap (λ l. record { cmd_type = s.cmd_type; motors = s.motor_cmd } ∷ l) commanded_eq,
          replied_eq,
        )
        | inr e ↦ rw e (commanded_eq, replied_eq)
      ]

  -- No answer to a request commands the motors.
  action_message-commanded :
      (a : RpcAction D) (es : List (Effect D))
      → commanded (emit_all (action_message a) ++ es) ≡ commanded es
  unfolding action_message commanded
  action_message-commanded a es = ground arith

module _ {D J : Type 0} ⦃f : Double D⦄ (json : Json D J) where
  answer-commanded : (r : Request) (o : RpcOutcome D) → commanded (answer json r o) ≡ []
  unfolding answer commanded
  answer-commanded r o = elim (Bool-cases o.unknown_api_id) [
    | inl e ↦ rw e (action_message-commanded o.action _)
    | inr e ↦ rw e (action_message-commanded o.action _)
  ]

  handle_sample-commanded :
      (st : ℤ) (r : Request) (es : List (Effect D))
      → handle_sample json st r ≡ some es
      → commanded es ≡ []
  unfolding handle_sample commanded
  handle_sample-commanded st r es h =
      elim (Option-cases (dispatch_rpc json r.header r.body r.current_mode st)) [
        | inl e ↦ ground (arith, h, e)
        | inr (o, e) ↦ ground (arith, h, e, answer-commanded r o)
      ]

  handle_rpc_request-commanded :
      (st : ℤ) (reqs : List Request) → commanded (handle_rpc_request json st reqs).0 ≡ []
  unfolding handle_rpc_request commanded
  handle_rpc_request-commanded st [] = refl
  handle_rpc_request-commanded st (r ∷ rs) = elim (Option-cases (handle_sample json st r)) [
    | inl e ↦ ground (arith, e)
    | inr (es, e) ↦ ground (
      arith,
      e,
      handle_sample-commanded st r es e,
      handle_rpc_request-commanded st rs,
      commanded-append es (handle_rpc_request json st rs).0,
    )
  ]

  -- The samples of every request reader hold values of the types that they are read as.
  abbrev pub AllTyped : List (DataReader D) → Type 0
  AllTyped [] = Unit
  AllTyped (rpc_req_reader reqs ∷ rs) = All (IsTypedRequest json) reqs × AllTyped rs
  AllTyped (_ ∷ rs) = AllTyped rs

  -- However the callbacks of the two readers follow each other, on requests whose keys hold values
  -- of the types that they are read as: none throws; each request that carries data is answered
  -- exactly once, under its own uuid and in the order of arrival; and the motor commands that are
  -- emitted are those of the joint_ctrl samples with data, in their order, and no others.
  pub on_all-served :
      (st : ℤ) (rs : List (DataReader D))
      → AllTyped rs
      → ((on_all json st rs).1 ≡ true)
        × (replied (on_all json st rs).0 ≡ all_asked rs)
        × (commanded (on_all json st rs).0 ≡ all_commands rs)
  unfolding on_all on_data_available all_asked all_commands replied commanded
  on_all-served st [] h = (refl, refl, refl)
  on_all-served st (other_reader ∷ rs) h = on_all-served st rs h
  on_all-served st (joint_ctrl_reader ss ∷ rs) h =
      let (done, asked_eq, commanded_eq) = on_all-served st rs h in
      let (now, silent) = handle_joint_ctrl-commanded ss in
      (
        done,
        replied-append (handle_joint_ctrl ss) _ ∙ rw silent asked_eq,
        commanded-append (handle_joint_ctrl ss) _ ∙ rw (now, commanded_eq) refl,
      )
  on_all-served st (rpc_req_reader reqs ∷ rs) h =
      let (done, asked_eq, commanded_eq) = on_all-served st rs h.1 in
      let (returned, answered) = handle_rpc_request-replied json st reqs h.0 in
      rw returned (
        done,
        replied-append (handle_rpc_request json st reqs).0 _ ∙ rw (answered, asked_eq) refl,
        commanded-append (handle_rpc_request json st reqs).0 _
            ∙ rw (handle_rpc_request-commanded st reqs) commanded_eq,
      )
