-- ===== src/Locomotion/Controller/Session.antt =====
-- A CUSTOM session, from its entry to the first command.
use nusim.Base.{ℕ, ◌≡◌, refl, ◌∙◌, ◌≢◌, true, false, List, [], ◌∷◌, arith, All, pos, ==ℤ-eq}
use mathlib.Core.List.{map as list_map}
use nusim.Double.{Double, nought}
use nusim.Robot.Pd.{apply}
use nusim.MuJoCo.{Model, Data, Mju}
use nusim.Robot.Booster.RobotMode
use nusim.Robot.ModelMap.{ModelMap}
use nusim.Locomotion.Controller.{
  Controller, Config, Mailbox, Setter, head_command, mode_change, low_cmd, MotorCmdData, custom,
  post_all, current_q, handle_mode_request, hold, track, follow, step_custom, update_fall_detection,
  run_mode, take_request, step_with,
}

cons-eq {ℓ} : {A : Type ℓ} {x y : A} {xs ys : List A} → x ≡ y → xs ≡ ys → (x ∷ xs) ≡ (y ∷ ys)
cons-eq p q = cc

-- A call of `step`: the setters that get the lock between its copy of the mailbox and the clearing
-- of the motors, the data, and the setters that get it from there to the next step's copy. After the
-- clearing a step does not look at the mailbox.
pub record StepCall (D : Type 0) : Type 0 where
  pub between : List (Setter D)
  pub data_ : Data D
  pub after : List (Setter D)

module _ {D : Type 0} where
  -- Setters that command neither the mode nor the motors.
  abbrev pub IsQuiet : Setter D → Type 0
  IsQuiet (head_command pitch yaw) = Unit {0}
  IsQuiet (mode_change mode) = ⊥
  IsQuiet (low_cmd type motors) = ⊥

  -- No new mode request since the last step.
  abbrev pub IsRequest : Setter D → Type 0
  IsRequest (mode_change mode) = ⊥
  IsRequest s = Unit {0}

  -- A CUSTOM session, under `cfg`, that no command has reached: it was entered at `pose`.
  pub record Waits (cfg : Config D) (pose : ℕ → D) (c : Controller D) : Type 0 where
    pub cfg_eq : c.cfg ≡ cfg
    pub state_eq : c.fsm.state ≡ custom
    pub pose_eq : c.fsm.custom_entry_pose ≡ pose
    pub unseen : c.fsm.custom_low_cmd_seen ≡ false
    pub no_motors : c.mailbox.low_cmd_motors ≡ []
    pub no_request : c.mailbox.mode_seq ≡ c.fsm.last_mode_seq

  -- What quiet setters leave of the mailbox.
  post_all-IsQuiet :
      (ss : List (Setter D)) (b : Mailbox D)
      → All IsQuiet ss
      → ((post_all ss b).low_cmd_motors ≡ b.low_cmd_motors)
        × ((post_all ss b).mode_seq ≡ b.mode_seq)
  unfolding post_all
  post_all-IsQuiet [] b h = (refl, refl)
  post_all-IsQuiet (head_command x y ∷ ss) b h =
      let (p, q) = post_all-IsQuiet ss (record b { head_pitch = x; head_yaw = y }) h.1 in (p, q)
  post_all-IsQuiet (mode_change x ∷ ss) b h = absurd h.0
  post_all-IsQuiet (low_cmd x y ∷ ss) b h = absurd h.0

  -- Without a mode request the sequence number stays.
  post_all-seq :
      (ss : List (Setter D)) (b : Mailbox D)
      → All IsRequest ss
      → (post_all ss b).mode_seq ≡ b.mode_seq
  unfolding post_all
  post_all-seq [] b h = refl
  post_all-seq (head_command x y ∷ ss) b h =
      post_all-seq ss (record b { head_pitch = x; head_yaw = y }) h.1
  post_all-seq (mode_change x ∷ ss) b h = absurd h.0
  post_all-seq (low_cmd x y ∷ ss) b h =
      post_all-seq ss (record b { low_cmd_type = x; low_cmd_motors = y }) h.1

module _ {D : Type 0} ⦃f : Double D⦄ (u : Mju D) (m : Model D) (map : ModelMap) where
  -- A PD step that holds a pose.
  abbrev pub holding : Config D → (ℕ → D) → Data D → Data D
  unfolding hold
  holding cfg pose d = apply cfg.pd m d map pose (λ i. nought) (λ i. nought)

  -- A step, and the setters that get the lock after it has last taken it.
  unfoldable pub step_call : StepCall D → Controller D → Controller D × Data D
  unfolding step_with
  step_call r c =
      let (c1, d1) = step_with u m map r.between c r.data_ in
      (record c1 { mailbox = post_all r.after c1.mailbox }, d1)

  -- Steps in a row, and the data that each leaves.
  unfoldable pub steps : List (StepCall D) → Controller D → Controller D × List (Data D)
  steps [] c = (c, [])
  steps (r ∷ rs) c = let (c1, d1) = step_call r c in let (c2, ds) = steps rs c1 in (c2, d1 ∷ ds)

  enter-Waits :
      (between : List (Setter D)) (c : Controller D) (d : Data D)
      → c.mailbox.requested_mode ≡ RobotMode.custom
      → c.mailbox.mode_seq ≢ c.fsm.last_mode_seq
      → All IsRequest between
      → let r = step_with u m map between c d in
        Waits c.cfg (current_q d map) r.0 × (r.1 ≡ holding c.cfg (current_q d map) d)
  unfolding step_with take_request handle_mode_request update_fall_detection run_mode step_custom
      hold holding
  enter-Waits between c d req seq h = ground (arith, post_all-seq between c.mailbox h)

  wait-Waits :
      (between : List (Setter D)) (c : Controller D) (d : Data D) (cfg : Config D) (pose : ℕ → D)
      → Waits cfg pose c
      → All IsQuiet between
      → let r = step_with u m map between c d in Waits cfg pose r.0 × (r.1 ≡ holding cfg pose d)
  unfolding step_with take_request update_fall_detection run_mode step_custom hold holding
  wait-Waits between c d cfg pose w h = ground (
    arith,
    w.cfg_eq,
    w.state_eq,
    w.pose_eq,
    w.unseen,
    w.no_motors,
    w.no_request,
    post_all-IsQuiet between c.mailbox h,
  )

  abbrev pub IsQuietCall : StepCall D → Type 0
  IsQuietCall r = All IsQuiet r.between × All IsQuiet r.after

  -- Quiet setters after a step.
  Waits-after :
      (after : List (Setter D)) (c : Controller D) (cfg : Config D) (pose : ℕ → D)
      → Waits cfg pose c
      → All IsQuiet after
      → Waits cfg pose (record c { mailbox = post_all after c.mailbox })
  Waits-after after c cfg pose w h =
      let (motors, seq) = post_all-IsQuiet after c.mailbox h in
      record {
        cfg_eq = w.cfg_eq;
        state_eq = w.state_eq;
        pose_eq = w.pose_eq;
        unseen = w.unseen;
        no_motors = motors ∙ w.no_motors;
        no_request = seq ∙ w.no_request;
      }

  steps-Waits :
      (rs : List (StepCall D)) (c : Controller D) (cfg : Config D) (pose : ℕ → D)
      → Waits cfg pose c
      → All IsQuietCall rs
      → Waits cfg pose (steps rs c).0
        × ((steps rs c).1 ≡ list_map (λ r. holding cfg pose r.data_) rs)
  unfolding steps step_call
  steps-Waits [] c cfg pose w h = (w, refl)
  steps-Waits (r ∷ rs) c cfg pose w h =
      let (w1, out) = wait-Waits r.between c r.data_ cfg pose w h.0.0 in
      let (w2, outs) =
        steps-Waits rs (step_call r c).0 cfg pose (Waits-after r.after _ cfg pose w1 h.0.1) h.1 in
      (w2, cons-eq out outs)

  -- Let the mailbox hold a new request for CUSTOM, and let no mode be requested from there until the
  -- step that takes it clears the motor commands. As long as no setter after that commands the motors or
  -- the mode, this step and every step after it hold the pose of this step's data by the PD
  -- controller: motor commands that were posted before the clearing reach no actuator.
  pub steps-holding_after_entry :
      (r : StepCall D) (rs : List (StepCall D)) (c : Controller D)
      → c.mailbox.requested_mode ≡ RobotMode.custom
      → c.mailbox.mode_seq ≢ c.fsm.last_mode_seq
      → All IsRequest r.between
      → All IsQuiet r.after
      → All IsQuietCall rs
      → (steps (r ∷ rs) c).1
        ≡ list_map (λ s. holding c.cfg (current_q r.data_ map) s.data_) (r ∷ rs)
  unfolding steps step_call
  steps-holding_after_entry r rs c req seq hb ha hq =
      let pose = current_q r.data_ map in
      let (w, out) = enter-Waits r.between c r.data_ req seq hb in
      cons-eq out
        (steps-Waits rs (step_call r c).0 c.cfg pose (Waits-after r.after _ c.cfg pose w ha) hq).1

  -- In CUSTOM, after the step of its entry and with no new mode request, a command in the mailbox
  -- that names some motor and is not of type PARALLEL is tracked in that very step, by its own gains
  -- and torques, and the session counts as having seen a command.
  pub step_with-track :
      (between : List (Setter D)) (c : Controller D) (d : Data D) (mc : MotorCmdData D)
      (rest : List (MotorCmdData D))
      → c.fsm.state ≡ custom
      → c.fsm.custom_entry_step ≡ false
      → c.mailbox.mode_seq ≡ c.fsm.last_mode_seq
      → c.mailbox.low_cmd_type ≢ pos 0
      → c.mailbox.low_cmd_motors ≡ mc ∷ rest
      → let r = step_with u m map between c d in
        (r.1 ≡ track m map (mc ∷ rest) d) × (r.0.fsm.custom_low_cmd_seen ≡ true)
  unfolding step_with take_request update_fall_detection run_mode step_custom follow
  step_with-track between c d mc rest st entry seq type motors =
      ground (arith, st, entry, seq, type, motors, ==ℤ-eq c.mailbox.low_cmd_type (pos 0))
