-- ===== src/Commands.antt =====
-- The way of a motor command, through three modules: the callbacks of
-- mujoco/module/SdkBridge/src/RpcServer.cpp emit messages, the reactions of
-- mujoco/module/Locomotion/src/Locomotion.cpp call the setters, and the controller's next step
-- (mujoco/module/Locomotion/src/LocomotionController.cpp) writes the torques.
use nusim.Base.{
  ℕ, ◌<◌, min, ◌≡◌, refl, sym, ap, ◌∙◌, subst, ◌≢◌, Bool, true, false, List, [], ◌∷◌, ◌++◌, arith,
  length, All, ℤ, pos,
}
use mathlib.Core.Bool.{true≢false}
use nusim.Double.{Double}
use nusim.MuJoCo.{Model, Data, Mju}
use nusim.Robot.Joints.{joint_count}
use nusim.Robot.ModelMap.{ModelMap}
use nusim.Robot.Pd.{limit}
use nusim.Robot.Pd.Written.{IsInjective}
use nusim.Message.{
  Message, LowCmdMessage, walk_command, head_command_message, mode_change_request, get_up_request,
  lie_down_request, visual_kick_request, low_cmd_message,
}
use nusim.Sdk.Json.{Json}
use nusim.Sdk.Server.{Effect, warned_api, emitted, written, DataReader, on_all}
use nusim.Sdk.Server.Callbacks.{commanded, all_commands, AllTyped, on_all-served}
use nusim.Locomotion.Controller.{
  Controller, Mailbox, Setter, MotorCmdData, custom, step_with, post, post_all,
}
use nusim.Locomotion.Controller.Session.{step_with-track}
use nusim.Locomotion.Controller.Tracking.{commanded_torque, track-at}
use nusim.Locomotion.Reactor.{Locomotion, react_all}
use nusim.Locomotion.Reactor.Ignored.{setters, react_all-post_all}

module _ {D : Type 0} where
  -- The messages that the callbacks emit.
  unfoldable pub messages : List (Effect D) → List (Message D)
  messages [] = []
  messages (emitted m ∷ es) = m ∷ messages es
  messages (_ ∷ es) = messages es

  abbrev pub changes_mode : Message D → Bool
  changes_mode (mode_change_request m) = true
  changes_mode _ = false

  -- The motor command in the mailbox.
  abbrev held : Mailbox D → LowCmdMessage D
  held b = record { cmd_type = b.low_cmd_type; motors = b.low_cmd_motors }

  abbrev latest : LowCmdMessage D → List (LowCmdMessage D) → LowCmdMessage D
  latest c [] = c
  latest c (x ∷ xs) = latest x xs

  latest-append :
      (c : LowCmdMessage D) (xs : List (LowCmdMessage D)) (x : LowCmdMessage D)
      → latest c (xs ++ (x ∷ [])) ≡ x
  latest-append c [] x = refl
  latest-append c (y ∷ ys) x = latest-append y ys x

  -- Messages that change no mode leave the number of mode requests, and the last motor command of
  -- theirs in the mailbox.
  post_all-held :
      (es : List (Effect D)) (b : Mailbox D)
      → All (λ m. changes_mode m ≡ false) (messages es)
      → ((post_all (setters (messages es)) b).mode_seq ≡ b.mode_seq)
        × (held (post_all (setters (messages es)) b) ≡ latest (held b) (commanded es))
  unfolding messages setters commanded post_all post
  post_all-held [] b h = (refl, refl)
  post_all-held (warned_api i s ∷ es) b h = post_all-held es b h
  post_all-held (written r ∷ es) b h = post_all-held es b h
  post_all-held (emitted (head_command_message m) ∷ es) b h = post_all-held es _ h.1
  post_all-held (emitted (mode_change_request m) ∷ es) b h = absurd (true≢false h.0)
  post_all-held (emitted (low_cmd_message m) ∷ es) b h = post_all-held es _ h.1
  post_all-held (emitted (walk_command m) ∷ es) b h = post_all-held es b h.1
  post_all-held (emitted (get_up_request m) ∷ es) b h = post_all-held es b h.1
  post_all-held (emitted lie_down_request ∷ es) b h = post_all-held es b h.1
  post_all-held (emitted (visual_kick_request m) ∷ es) b h = post_all-held es b h.1

module _ {D J : Type 0} ⦃f : Double D⦄ (json : Json D J) (u : Mju D) (m : Model D)
    (map : ModelMap) where
  step_with-torque :
      (motors : List (MotorCmdData D)) (between : List (Setter D)) (c : Controller D) (d : Data D)
      (k : ℕ)
      → c.fsm.state ≡ custom
      → c.fsm.custom_entry_step ≡ false
      → c.mailbox.mode_seq ≡ c.fsm.last_mode_seq
      → c.mailbox.low_cmd_type ≢ pos 0
      → c.mailbox.low_cmd_motors ≡ motors
      → k < min (length motors) joint_count
      → IsInjective map.act_id joint_count
      → (step_with u m map between c d).1.ctrl (map.act_id k)
        ≡ limit m (map.act_id k) (commanded_torque map motors d k)
  step_with-torque [] between c d k st entry seq serial motors hk inj = absurd (omega (arith, hk))
  step_with-torque (mc ∷ rest) between c d k st entry seq serial motors hk inj =
      ap (λ x. x.ctrl (map.act_id k))
        (step_with-track u m map between c d mc rest st entry seq serial motors).0
      ∙ track-at map m (mc ∷ rest) d k inj hk

  -- After the callbacks the mailbox holds the last sample's command.
  on_all-held :
      (st : ℤ) (rs : List (DataReader D)) (earlier : List (LowCmdMessage D)) (cmd : LowCmdMessage D)
      (b : Mailbox D)
      → AllTyped json rs
      → All (λ msg. changes_mode msg ≡ false) (messages (on_all json st rs).0)
      → all_commands rs ≡ earlier ++ (cmd ∷ [])
      → held (post_all (setters (messages (on_all json st rs).0)) b) ≡ cmd
  on_all-held st rs earlier cmd b typed quiet last =
      (post_all-held (on_all json st rs).0 b quiet).1
      ∙ ap (latest (held b)) ((on_all-served json st rs typed).2 ∙ last)
      ∙ latest-append (held b) earlier cmd

  -- Let the controller be in CUSTOM, past the step of its entry and with no mode request pending, and
  -- let no two joints share an actuator. Then however the bridge's callbacks follow each other, on
  -- requests whose keys hold values of the types that they are read as, of which none changes the
  -- mode: the last joint_ctrl sample with data, if it names some motor and is not of type PARALLEL,
  -- is what the next step follows. It gives each joint that the sample has a motor for the torque
  -- kp (q' - q) + kd (dq' - dq) + tau, within its actuator's range.
  pub on_all-torque :
      (st : ℤ) (rs : List (DataReader D)) (earlier : List (LowCmdMessage D)) (cmd : LowCmdMessage D)
      (l : Locomotion D) (between : List (Setter D)) (d : Data D) (k : ℕ)
      → AllTyped json rs
      → All (λ msg. changes_mode msg ≡ false) (messages (on_all json st rs).0)
      → all_commands rs ≡ earlier ++ (cmd ∷ [])
      → cmd.cmd_type ≢ pos 0
      → k < min (length cmd.motors) joint_count
      → l.controller.fsm.state ≡ custom
      → l.controller.fsm.custom_entry_step ≡ false
      → l.controller.mailbox.mode_seq ≡ l.controller.fsm.last_mode_seq
      → IsInjective map.act_id joint_count
      → let c = (react_all (messages (on_all json st rs).0) l).0.controller in
        (step_with u m map between c d).1.ctrl (map.act_id k)
        ≡ limit m (map.act_id k) (commanded_torque map cmd.motors d k)
  on_all-torque st rs earlier cmd l between d k typed quiet last serial hk st_custom entry seq inj =
      let msgs = messages (on_all json st rs).0 in
      let b = l.controller.mailbox in
      let holds = on_all-held st rs earlier cmd b typed quiet last in
      subst
        (λ c.
          (step_with u m map between c d).1.ctrl (map.act_id k)
          ≡ limit m (map.act_id k) (commanded_torque map cmd.motors d k))
        (sym (react_all-post_all msgs l))
        (step_with-torque cmd.motors between
          (record l.controller { mailbox = post_all (setters msgs) b }) d k st_custom entry
          ((post_all-held (on_all json st rs).0 b quiet).0 ∙ seq)
          (λ e. serial (sym (ap (λ c. c.cmd_type) holds) ∙ e)) (ap (λ c. c.motors) holds) hk inj)
