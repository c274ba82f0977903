-- ===== src/Simulation/Loop.antt =====
-- The physics thread (`physics_loop` of mujoco/module/Simulation/src/SimCore.cpp, with the interface
-- mujoco/shared/sim/StepController.hpp). A round is what the thread does with the mutex held; the
-- pacing after it, which is in Pacing, changes neither the data nor what is published.
pub mod Publishing
pub mod Cadence
pub mod Total
use nusim.Base.{
  ℕ, ◌+◌, ◌%◌, ◌^◌, Bool, false, ◌&&◌, Option, none, some, List, [], ◌∷◌, map, ltb, ◌==◌,
  if◌then◌else◌, ℤ, pos_part,
}
use nusim.Double.{Double}
use nusim.MuJoCo.{Model, Data, Mju}
use nusim.Robot.Booster.RobotMode
use nusim.Robot.Booster.FallState
use nusim.Robot.ModelMap.{ModelMap, Result, ok, ◌>>=◌}
use nusim.Robot.Pd.{apply as pd_apply}
use nusim.Double.{nought}
use nusim.Locomotion.Controller.{Controller, Setter, step}
use nusim.Simulation.Core.{Engine, SimCore}
use nusim.Simulation.Snapshot.{SimStateUpdate, make_imu, make_base, make_head}

-- The interface: a controller's state `S`, and `I`, what reaches it from other threads meanwhile.
pub record StepController (D S I : Type 0) : Type 0 where
  pub step : Model D → I → S → Data D → Result (S × Data D)
  pub mode : S → ℤ
  pub fall_state : S → ℤ
  pub getting_up : S → Bool

-- The locomotion controller implements it.
unfoldable pub locomotion :
    {D : Type 0} ⦃f : Double D⦄ → Mju D → StepController D (Controller D) (List (Setter D))
locomotion u = record {
  step = λ m between c d. step u m between c d;
  mode = λ c. c.mode;
  fall_state = λ c. c.fall_state;
  getting_up = λ c. false;
}

-- What the thread carries from round to round: the controller, if one is set, and the snapshots
-- handed out so far, the latest first.
pub record Loop (D S : Type 0) : Type 0 where
  pub controller : Option S
  pub data_ : Data D
  pub steps : ℕ  -- uint64_t
  pub published : List (SimStateUpdate D)

-- A round: the controller that `set_controller` has set before it, if it was called, what reaches
-- the controller meanwhile, and the real-time factor measured last.
pub record Round (D S I : Type 0) : Type 0 where
  pub install : Option S
  pub input : I
  pub measured_rtf : D

module _ {D S I : Type 0} ⦃f : Double D⦄ (u : Mju D) (e : Engine D) (k : StepController D S I) where
  -- The report of the controller, or the one without a controller.
  unfoldable pub reported : Option S → ℤ × ℤ × Bool
  reported (some s) = (k.mode s, k.fall_state s, k.getting_up s)
  reported none = (RobotMode.prepare, FallState.is_ready, false)

  unfoldable pub make_snapshot : SimCore D → Option S → Data D → ℕ → D → SimStateUpdate D
  make_snapshot core ctrl d steps rtf =
      let (mode, fall_state, getting_up) = reported ctrl in
      record {
        sim_time = d.time;
        step_count = steps;
        joints = λ i. record {
          q = d.qpos (core.map.qpos_adr i);
          dq = d.qvel (core.map.dof_adr i);
          ddq = d.qacc (core.map.dof_adr i);
          tau = d.actuator_force (core.map.act_id i);
        };
        imu = make_imu u core.model d core.map;
        base = make_base u d core.map;
        head = make_head u d core.map core.head_body_id;
        mode = mode;
        fall_state = fall_state;
        getting_up = getting_up;
        measured_rtf = rtf;
      }

  -- The control of the main robot.
  unfoldable pub control : SimCore D → I → Option S → Data D → Result (Option S × Data D)
  control core input none d = ok (
    none,
    pd_apply core.cfg.pd core.model d core.map core.ready_target (λ i. nought) (λ i. nought),
  )
  control core input (some s) d =
      k.step core.model input s d >>= λ (r : S × Data D). ok (some r.0, r.1)

  -- The copies are held at the ready pose.
  unfoldable pub hold_extras : SimCore D → List ModelMap → Data D → Data D
  hold_extras core [] d = d
  hold_extras core (em ∷ ems) d =
      hold_extras core ems
        (pd_apply core.cfg.pd core.model d em core.ready_target (λ i. nought) (λ i. nought))

  -- config_.state_publish_divisor, 0 where it is not positive.
  abbrev pub publish_every : SimCore D → ℕ
  publish_every core = pos_part core.cfg.state_publish_divisor

  abbrev pub is_due : SimCore D → ℕ → Bool
  is_due core steps = ltb 0 (publish_every core) && (steps % publish_every core == 0)

  -- The rest of a round, after the control.
  unfoldable pub advance :
      SimCore D → D → ℕ → List (SimStateUpdate D) → Option S × Data D → Loop D S
  advance core rtf steps published (ctrl, d) =
      let d1 = e.mj_step core.model (hold_extras core core.extra_maps d) in
      let now = (steps + 1) % 2 ^ 64 in
      record {
        controller = ctrl;
        data_ = d1;
        steps = now;
        published =
            if is_due core now then make_snapshot core ctrl d1 now rtf ∷ published else published;
      }

  abbrev pub set_controller : Option S → Option S → Option S
  set_controller none old = old
  set_controller (some s) old = some s

  unfoldable pub run_round : SimCore D → Round D S I → Loop D S → Result (Loop D S)
  run_round core r l =
      control core r.input (set_controller r.install l.controller) l.data_
      >>= λ (x : Option S × Data D). ok (advance core r.measured_rtf l.steps l.published x)

  -- Rounds in turn; an exception of the controller ends the thread.
  unfoldable pub run_rounds : SimCore D → List (Round D S I) → Loop D S → Result (Loop D S)
  run_rounds core [] l = ok l
  run_rounds core (r ∷ rs) l = run_round core r l >>= run_rounds core rs
