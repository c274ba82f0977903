-- ===== src/Tests/Locomotion.antt =====
-- The mode machine's theorems on a robot.
use nusim.Base.{◌+◌, ◌≡◌, refl, List, [], ◌∷◌, arith, ℤ, pos, negsuc}
use nusim.Double.Fixed.{fixed, fixed-IsDouble}
use nusim.Robot.Booster.RobotMode
use nusim.Robot.ModelMap.{ModelMap, Result, ok, err, build}
use nusim.Robot.Pd.Limits.{HasRanges}
use nusim.Locomotion.Controller.{
  Config, Controller, MotorCmdData, head_command, mode_change, low_cmd, custom, create, step,
  ensure_initialized, fresh, post, step_with, current_q,
}
use nusim.Locomotion.Controller.Modes.{
  Agrees, Event, happen, posted, stepped, history, history-Agrees_from_create,
}
use nusim.Locomotion.Controller.Safety.{AllowsRest, IsSafe, step_with-IsSafe}
use nusim.Locomotion.Controller.Session.{StepCall, holding, steps, steps-holding_after_entry}
use nusim.Locomotion.Controller.Total.{history-Returns}
use nusim.Robot.ModelMap.{Returns}
use nusim.Tests.Fixtures.{pitch, pitch-HasRobot, still, moved, vectors}

abbrev pub loco : Config ℤ
loco = record {
  prepare_blend_time = pos 1000;
  falling_tilt = pos 800;
  fallen_tilt = pos 1200;
  falling_gyro = pos 1000;
  fallen_height = pos 300;
  ready_pose = λ i. pos 100;
  pd = record { kp = λ i. pos 40000; kd = λ i. pos 1000 };
}

abbrev pub joints : ModelMap
joints = record {
  qpos_adr = λ i. 14 + i;
  dof_adr = λ i. 12 + i;
  act_id = λ i. i;
  root_qpos_adr = pos 7;
  root_dof_adr = pos 6;
  root_body_id = pos 2;
  imu_site_id = negsuc 0;
  sens_quat = negsuc 0;
  sens_gyro = negsuc 0;
  sens_acc = negsuc 0;
  sens_linvel = negsuc 0;
}

abbrev pub motor : MotorCmdData ℤ
motor = record {
  mode = 1;
  q = pos 300;
  dq = pos 0;
  tau = pos 5;
  kp = pos 20000;
  kd = pos 500;
  weight = pos 0;
}

-- CUSTOM has been asked for, with a stale command in the mailbox.
abbrev asked : Controller ℤ
asked = record (fresh loco) {
  mailbox =
      post (mode_change RobotMode.custom)
        (post (low_cmd (pos 1) (motor ∷ [])) (fresh loco).mailbox);
}

ranges : HasRanges pitch
ranges a on = ground arith

rest_allowed : AllowsRest pitch joints
rest_allowed a on = ground arith

step_with-IsSafe_example :
    IsSafe pitch joints moved
      (step_with vectors pitch joints (low_cmd (pos 1) [] ∷ []) asked moved).1
step_with-IsSafe_example =
    step_with-IsSafe pitch joints fixed-IsDouble ranges rest_allowed vectors
      (low_cmd (pos 1) [] ∷ []) asked moved

-- The step of the entry, with a command that it clears, and one more.
abbrev entry : StepCall ℤ
entry = record {
  between = low_cmd (pos 1) (motor ∷ []) ∷ [];
  data_ = moved;
  after = head_command (pos 1) (pos 2) ∷ [];
}

abbrev later : StepCall ℤ
later = record { between = head_command (pos 1) (pos 2) ∷ []; data_ = still; after = [] }

steps-holding_after_entry_example :
    (steps vectors pitch joints (entry ∷ later ∷ []) asked).1
    ≡ holding vectors pitch joints loco (current_q moved joints) moved
      ∷ holding vectors pitch joints loco (current_q moved joints) still
      ∷ []
unfolding fresh post
steps-holding_after_entry_example =
    steps-holding_after_entry vectors pitch joints entry (later ∷ []) asked refl (λ e. omega arith)
      (tt, tt) (tt, tt) (((tt, tt), tt), tt)

-- A session that waits, with a command posted.
abbrev waiting : Controller ℤ
waiting = record (fresh loco) {
  fsm = record (fresh loco).fsm { state = custom };
  mailbox = post (low_cmd (pos 1) (motor ∷ [])) (fresh loco).mailbox;
}

abbrev requested : Controller ℤ
requested = record (fresh loco) {
  mailbox = post (mode_change RobotMode.prepare) (fresh loco).mailbox;
}

abbrev events : List (Event ℤ)
events =
    posted (mode_change RobotMode.custom)
    ∷ posted (low_cmd (pos 1) (motor ∷ []))
    ∷ stepped [] moved
    ∷ []

-- The value, or a stand-in.
abbrev or_else : Result (Controller ℤ) → Controller ℤ → Controller ℤ
or_else (ok c) e = c
or_else (err x) e = e

history-Agrees_from_create_example :
    Agrees (or_else (history vectors pitch events requested) requested)
unfolding create fresh history happen step ensure_initialized build
history-Agrees_from_create_example =
    history-Agrees_from_create vectors pitch loco "prepare" events requested
      (or_else (history vectors pitch events requested) requested) refl refl

history-Returns_example : Returns (history vectors pitch events requested)
history-Returns_example = history-Returns vectors pitch events requested pitch-HasRobot
