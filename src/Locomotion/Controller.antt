-- ===== src/Locomotion/Controller.antt =====
-- The mode machine: DAMPING, PREPARE and CUSTOM (mujoco/module/Locomotion/src/LocomotionController.hpp
-- and .cpp). The setters run on other threads than `step` and only write the mailbox, under its
-- lock; `step` takes a copy of it first and clears its motors when CUSTOM is entered. So a step is
-- a function of the setters that get the lock between the two, `between`. Setters that get it later
-- come after the step, which does not look at the mailbox again.
pub mod Modes
pub mod Total
pub mod Session
pub mod Safety
pub mod Tracking
use nusim.Base.{
  ℕ, ◌+◌, true, false, not, ◌&&◌, ◌||◌, Option, none, some, List, [], map, ◌==◌, if◌then◌else◌, ℤ,
  pos, negsuc, pos_part, ◌==ℤ◌,
}
pub use nusim.Locomotion.Types.{
  MotorCmdData, State, damping, prepare, custom, Config, Mailbox, Fsm, Controller, Setter,
  head_command, mode_change, low_cmd, u64,
}
unfoldable pub use nusim.Locomotion.Types.{post, post_all, current_q}
pub use nusim.Locomotion.Servo.{no_motor}
unfoldable pub use nusim.Locomotion.Servo.{
  apply_head_target, step_damping, prepare_target, hold, step_prepare, track_joint, track, follow,
  step_custom,
}
use Prim.Native.String.{String}
use text.Mathlib.Text.{◌==◌ as str_eq}
use nusim.Double.{Double, nought}
use nusim.MuJoCo.{Model, Data, Mju}
use nusim.Robot.Joints.{head_pitch, head_yaw}
use nusim.Robot.Booster.RobotMode
use nusim.Robot.Booster.FallState
use nusim.Robot.ModelMap.{ModelMap, Result, ok, ◌>>=◌, build}
use nusim.Locomotion.Math.{base_tilt}

-- The mode that a request takes effect as; `none` for one that is ignored.
unfoldable pub effective_mode : ℤ → Option ℤ
effective_mode req =
    if req ==ℤ RobotMode.damping || req ==ℤ RobotMode.prepare || req ==ℤ RobotMode.custom
    then some req
    else if req ==ℤ RobotMode.walking || req ==ℤ RobotMode.soccer
    then some RobotMode.prepare
    else none

module _ {D : Type 0} where
  unfoldable pub enter_prepare : Data D → ModelMap → Controller D → Controller D
  enter_prepare d map c = record c {
    fsm = record c.fsm {
      state = prepare;
      prepare_start_pose = current_q d map;
      prepare_start_time = d.time;
    };
  }

  unfoldable pub enter_custom : Data D → ModelMap → Controller D → Controller D
  enter_custom d map c = record c {
    fsm = record c.fsm {
      state = custom;
      custom_parallel_warned = false;
      custom_entry_pose = current_q d map;
      custom_low_cmd_seen = false;
      custom_entry_step = true;
    };
    mailbox = record c.mailbox { low_cmd_motors = [] };
  }

  unfoldable pub handle_mode_request : ℤ → Data D → ModelMap → Controller D → Controller D
  unfolding effective_mode enter_prepare enter_custom
  handle_mode_request req d map c = elim (effective_mode req) [
    | none ↦ c
    | some effective ↦
        let c' = record c { mode = effective } in
        if effective ==ℤ RobotMode.damping
        then record c' { fsm = record c'.fsm { state = damping } }
        else if effective ==ℤ RobotMode.prepare
        then enter_prepare d map c'
        else if effective ==ℤ RobotMode.custom
        then enter_custom d map c'
        else c'
  ]

module _ {D : Type 0} ⦃f : Double D⦄ where
  open f use {add, mul, lt, sqrt}

  unfoldable pub gyro_magnitude : Data D → ModelMap → D
  gyro_magnitude d map = elim map.sens_gyro [
    | negsuc _ ↦ nought
    | pos adr ↦
        let g = λ (k : ℕ). d.sensordata (adr + k) in
        sqrt (add (add (mul (g 0) (g 0)) (mul (g 1) (g 1))) (mul (g 2) (g 2)))
  ]

  -- The verdict on a tilt, an angular rate and a height.
  unfoldable pub classify_fall : Config D → D → D → D → ℤ
  classify_fall cfg tilt gyro_mag base_z =
      if lt cfg.fallen_tilt tilt || lt base_z cfg.fallen_height
      then FallState.has_fallen
      else if lt cfg.falling_tilt tilt && lt cfg.falling_gyro gyro_mag
      then FallState.is_falling
      else FallState.is_ready

  unfoldable pub update_fall_detection : Mju D → ModelMap → Data D → Controller D → Controller D
  update_fall_detection u map d c = record c {
    fall_state =
        classify_fall c.cfg (base_tilt u d map) (gyro_magnitude d map)
          (d.qpos (pos_part map.root_qpos_adr + 2));
  }

  -- The step of the mode that the machine is in.
  unfoldable pub run_mode :
      State → Model D → ModelMap → Mailbox D → Controller D → Data D → Controller D × Data D
  run_mode damping m map snap c d = (c, step_damping map d)
  run_mode prepare m map snap c d = (c, step_prepare c m map snap d)
  run_mode custom m map snap c d = step_custom m map snap c d

  -- A mode request that the snapshot holds and the machine has not seen yet.
  unfoldable pub take_request : Mailbox D → ModelMap → Data D → Controller D → Controller D
  take_request snap map d c =
      if not (snap.mode_seq == c.fsm.last_mode_seq)
      then handle_mode_request snap.requested_mode d map
          (record c { fsm = record c.fsm { last_mode_seq = snap.mode_seq } })
      else c

  -- A step on an initialized controller.
  unfoldable pub step_with :
      Mju D → Model D → ModelMap → List (Setter D) → Controller D → Data D → Controller D × Data D
  step_with u m map between c d =
      let snap = c.mailbox in
      let c1 = record c { mailbox = post_all between c.mailbox } in
      let c2 = update_fall_detection u map d (take_request snap map d c1) in
      run_mode c2.fsm.state m map snap c2 d

  unfoldable pub ensure_initialized : Model D → Controller D → Result (ModelMap × Controller D)
  ensure_initialized m c = elim c.map [
    | some map ↦ ok (map, c)
    | none ↦ build m >>= λ map. ok (map, record c { map = some map })
  ]

  unfoldable pub step :
      Mju D → Model D → List (Setter D) → Controller D → Data D → Result (Controller D × Data D)
  step u m between c d = ensure_initialized m c >>= λ (r : ModelMap × Controller D).
      ok (step_with u m r.0 between r.1 d)

  -- The object as the constructor leaves it, with the mailbox that `initial_mode` asks for.
  unfoldable pub fresh : Config D → Controller D
  fresh cfg = record {
    cfg = cfg;
    map = none;
    fsm = record {
      state = damping;
      prepare_start_pose = λ i. nought;
      prepare_start_time = nought;
      custom_parallel_warned = false;
      custom_entry_pose = λ i. nought;
      custom_low_cmd_seen = false;
      custom_entry_step = false;
      last_mode_seq = 0;
    };
    mailbox = record {
      head_pitch = nought;
      head_yaw = nought;
      mode_seq = 0;
      requested_mode = RobotMode.damping;
      low_cmd_type = pos 1;
      low_cmd_motors = [];
    };
    mode = RobotMode.damping;
    fall_state = FallState.is_ready;
  }

  -- `none`: the constructor throws, on an unknown `initial_mode`.
  unfoldable pub create : Config D → String → Option (Controller D)
  create cfg initial_mode =
      if str_eq initial_mode "prepare"
      then some (record (fresh cfg) {
        mailbox = post (mode_change RobotMode.prepare) (fresh cfg).mailbox;
      })
      else if str_eq initial_mode "damping"
      then some (fresh cfg)
      else none
