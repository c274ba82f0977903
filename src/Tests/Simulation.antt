-- ===== src/Tests/Simulation.antt =====
-- The simulation's theorems on a toy engine.
use nusim.Base.{
  ◌+ℤ◌, ◌+◌, ◌≡◌, refl, inl, ◌++◌, true, false, Option, none, some, List, [], ◌∷◌, arith, All, ℤ,
  pos, negsuc,
}
use nusim.Double.Fixed.{fixed, fixed-IsSigned}
use nusim.Robot.ModelMap.{ModelMap, Result, ok, err, build}
use nusim.Locomotion.Controller.{Controller, Setter, fresh}
use nusim.Simulation.Core.{Engine, SimConfig, SimCore, find_extras, load_model, allocate, reset}
use nusim.Simulation.Core.Resetting.{IsEngine, load_model-IsResettable}
use nusim.Simulation.Core.Placing.{IsApart}
use nusim.Simulation.Pacing.{
  Reading, Pacer, start_pacer, is_free_run, pace_rounds, meet_deadline, add_seconds, period, behind,
  to_seconds, to_long,
}
use nusim.Simulation.Pacing.Punctual.{IsPunctual, pace_rounds-IsPunctual}
use nusim.Simulation.Heartbeat.{on_updates, on_update, no_heartbeat}
use nusim.Simulation.Loop.{locomotion, Loop, Round, run_rounds}
use nusim.Simulation.Core.Copies.{IsSeparate, AllApart}
use nusim.Simulation.Snapshot.{SimStateUpdate}
use nusim.Simulation.Loop.Publishing.{IsPlain, report, run_rounds-IsPlain}
use nusim.Simulation.Loop.Cadence.{IsPaced, run_rounds-IsPaced}
use nusim.Simulation.Loop.Total.{run_rounds-Returns}
use nusim.Locomotion.Controller.Modes.{Agrees}
use nusim.Robot.ModelMap.{Returns}
use nusim.Tests.Fixtures.{pitch, pitch-HasRobot, still, moved, vectors}
use nusim.Tests.Locomotion.{loco}

abbrev pub engine : Engine ℤ
engine = record {
  make_data = λ m. some still;
  reset_data = λ m d. still;
  reset_keyframe = λ m d key. still;
  forward = λ m d. d;
  mj_step = λ m d. d;
  format_02d = λ k. "01";
}

engine_ok : IsEngine engine
engine_ok = record { keyframe_forgets = λ m d d' key. refl; reset_fresh = λ m d fresh q. cc }

abbrev pub sim_config : SimConfig ℤ
sim_config = record {
  model_path = "models/k1/k1_scene_flat.xml";
  rtf = pos 1000;
  resync_threshold = pos 50;
  foot_log_path = "";
  initial_keyframe = "ready";
  robots = pos 1;
  spawns = [];
  state_publish_divisor = pos 2;
  surface = record {
    enabled = true;
    friction = pos 800;
    solref_timeconst = pos 20;
    solref_dampratio = pos 1000;
  };
  pd = record { kp = λ i. pos 40000; kd = λ i. pos 1000 };
  ready_pose_fallback = λ i. pos 0;
}

-- The value, or a stand-in.
abbrev or_core : Result (SimCore ℤ) → SimCore ℤ → SimCore ℤ
or_core (ok c) d = c
or_core (err x) d = d

abbrev pub joints : ModelMap
joints = record {
  qpos_adr = λ i. 14 + i;
  dof_adr = λ i. 12 + i;
  act_id = λ i. i;
  root_qpos_adr = pos 7;
  root_dof_adr = pos 6;
  root_body_id = pos 2;
  imu_site_id = negsuc 0;
  sens_quat = negsuc 0;
  sens_gyro = negsuc 0;
  sens_acc = negsuc 0;
  sens_linvel = negsuc 0;
}

abbrev pub core : SimCore ℤ
core = record {
  cfg = sim_config;
  model = pitch;
  data_ = still;
  reset_key = negsuc 0;
  map = joints;
  ready_target = λ i. pos 0;
  extra_maps = [];
  head_body_id = negsuc 0;
}

load_model-IsResettable_example :
    reset engine (or_core (load_model engine sim_config pitch) core) moved
    ≡ (or_core (load_model engine sim_config pitch) core).data_
unfolding load_model build find_extras allocate
load_model-IsResettable_example =
    load_model-IsResettable engine engine_ok sim_config pitch
      (or_core (load_model engine sim_config pitch) core) moved refl

-- The conditions that the placing theorems set for maps can hold: here for one copy, below for two.
joints-IsApart : IsApart 3 2 joints
joints-IsApart = record {
  root_qpos = inl (omega arith);
  root_dof = inl (omega arith);
  joints_qpos = ground arith;
  joints_dof = ground arith;
}

-- The clock reads 0.25 s, and 5000.3 s at the round after.
abbrev readings : List Reading
readings =
    record {
      now_ts = record { tv_sec = pos 0; tv_nsec = pos 250 };
      wall_now = record { tv_sec = pos 0; tv_nsec = pos 250 };
    }
    ∷ []

abbrev last_reading : Reading
last_reading = record {
  now_ts = record { tv_sec = pos 5000; tv_nsec = pos 300 };
  wall_now = record { tv_sec = pos 5000; tv_nsec = pos 300 };
}

abbrev first_pacer : Pacer ℤ
first_pacer = start_pacer (record { tv_sec = pos 0; tv_nsec = pos 0 })

paced : is_free_run sim_config ≡ false
unfolding is_free_run
paced = refl

pace_rounds-IsPunctual_example :
    IsPunctual sim_config
      (pos 2)
      last_reading
      (pace_rounds sim_config (pos 2) readings 0 first_pacer)
      (pace_rounds sim_config (pos 2) (readings ++ (last_reading ∷ [])) 0 first_pacer)
pace_rounds-IsPunctual_example =
    pace_rounds-IsPunctual sim_config (pos 2) readings last_reading 0 first_pacer fixed-IsSigned
      paced refl

-- The second deadline is given up.
resynced : (meet_deadline sim_config (pos 2) last_reading.now_ts first_pacer).dropped_deadlines ≡ 1
unfolding meet_deadline start_pacer is_free_run period add_seconds to_long behind to_seconds ◌+ℤ◌
resynced = refl

-- Updates at 0, 2, 5 and 9 s: two lines.
heartbeats :
    (on_updates (pos 0 ∷ pos 2000 ∷ pos 5000 ∷ pos 9000 ∷ []) no_heartbeat).logged
    ≡ pos 5000 ∷ pos 0 ∷ []
unfolding on_updates on_update
heartbeats = refl

-- A second copy, with its entries behind those of the first.
abbrev second : ModelMap
second = record joints {
  qpos_adr = λ i. 50 + i;
  dof_adr = λ i. 40 + i;
  root_qpos_adr = pos 43;
  root_dof_adr = pos 34;
}

joints-IsSeparate : IsSeparate joints
joints-IsSeparate = record { qpos_apart = λ k h. ground arith; dof_apart = λ l h. ground arith }

copies_apart : AllApart joints (second ∷ [])
copies_apart k l hk hl = (
  record {
    root_qpos = inl (omega arith);
    root_dof = inl (omega arith);
    joints_qpos = ground arith;
    joints_dof = ground arith;
  },
  tt,
)

abbrev begun : Loop ℤ (Controller ℤ)
begun = record { controller = none; data_ = moved; steps = 0; published = [] }

abbrev round : Option (Controller ℤ) → Round ℤ (Controller ℤ) (List (Setter ℤ))
round c = record { install = c; input = []; measured_rtf = pos 1000 }

-- One round without the controller, and two with it.
abbrev rounds : List (Round ℤ (Controller ℤ) (List (Setter ℤ)))
rounds = round none ∷ round (some (fresh loco)) ∷ round none ∷ []

abbrev or_loop : Result (Loop ℤ (Controller ℤ)) → Loop ℤ (Controller ℤ)
or_loop (ok l) = l
or_loop (err x) = begun

abbrev after : Loop ℤ (Controller ℤ)
after = or_loop (run_rounds vectors engine (locomotion vectors) core rounds begun)

or_loop-eq : (r : Result (Loop ℤ (Controller ℤ))) → Returns r → r ≡ ok (or_loop r)
or_loop-eq (ok l) h = refl
or_loop-eq (err x) h = cc

ran : run_rounds vectors engine (locomotion vectors) core rounds begun ≡ ok after
unfolding build
ran =
    or_loop-eq (run_rounds vectors engine (locomotion vectors) core rounds begun)
      (run_rounds-Returns vectors engine core rounds begun pitch-HasRobot)

fresh-Agrees : Agrees (fresh loco)
unfolding fresh
fresh-Agrees = record { mode_eq = refl; fall_known = inl refl }

run_rounds-IsPlain_example : All (λ (s : SimStateUpdate ℤ). IsPlain (report s)) after.published
run_rounds-IsPlain_example =
    run_rounds-IsPlain vectors engine core rounds begun after (tt, (fresh-Agrees, (tt, tt))) tt refl
      ran

run_rounds-IsPaced_example :
    (after.steps ≡ 3) × IsPaced vectors engine (locomotion vectors) core after
run_rounds-IsPaced_example =
    run_rounds-IsPaced vectors engine (locomotion vectors) core rounds begun after (omega arith)
      (omega arith) refl refl ran

run_rounds-Returns_example :
    Returns (run_rounds vectors engine (locomotion vectors) core rounds begun)
run_rounds-Returns_example = run_rounds-Returns vectors engine core rounds begun pitch-HasRobot
