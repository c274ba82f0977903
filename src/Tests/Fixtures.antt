-- ===== src/Tests/Fixtures.antt =====
-- A model with a ball and the robot, and data, packets and configurations for it.
use nusim.Base.{
  refl, arith, ℕ, suc, ◌+◌, ◌-◌, ◌*◌, ◌%◌, true, false, List, [], ◌∷◌, leb, ◌==◌, if◌then◌else◌,
  replicate, ℤ, pos, negsuc,
}
use Prim.Native.String.{String}
use text.Mathlib.Text.{◌==◌ as str_eq}
use nusim.Double.Fixed.{fixed}
use nusim.MuJoCo.{Model, Data, Mju, Kind, JointType}
use nusim.Robot.Joints.{joint_names}
use nusim.Robot.ModelMap.Present.{HasRobot}
use nusim.Supervisor.Packet.{Robot, Team, GameControllerPacket}
use nusim.Supervisor.Config.{Pose3, BallConfig, RobotConfig, SupervisorConfig}

abbrev pub index_of : String → List String → ℕ → ℤ
index_of s [] k = negsuc 0
index_of s (t ∷ ts) k = if str_eq s t then pos k else index_of s ts (suc k)

-- Body 1 is the ball and body 2 the robot's trunk; joints 0 and 1 are their free joints, and the
-- robot's own joints follow.
abbrev pub pitch_id : Kind → String → ℤ
pitch_id Kind.body s = index_of s ("world" ∷ "ball" ∷ "robot" ∷ []) 0
pitch_id Kind.geom s = index_of s ("ball" ∷ []) 0
pitch_id Kind.joint s = index_of s joint_names 2
pitch_id Kind.actuator s = index_of s joint_names 0
pitch_id _ s = negsuc 0

abbrev pub range_at : ℕ → ℤ
range_at k = if k % 2 == 0 then negsuc 49999 else pos 50000

abbrev pub kind_at : ℕ → JointType
kind_at j = if leb j 1 then JointType.free else JointType.hinge

abbrev pub qpos_at : ℕ → ℕ
qpos_at j = if leb j 1 then 7 * j else 12 + j

abbrev pub dof_at : ℕ → ℕ
dof_at j = if leb j 1 then 6 * j else 10 + j

abbrev pub pitch : Model ℤ
pitch = record {
  name2id = pitch_id;
  nbody = 25;
  njnt = 24;
  ngeom = 1;
  nq = 36;
  timestep = pos 2;
  gravity = λ k. if k == 2 then negsuc 9809 else pos 0;
  body_jntnum = λ b. 1;
  body_jntadr = λ b. b - 1;
  body_subtreemass = λ b. if b == 1 then pos 450 else pos 19500;
  jnt_type = kind_at;
  jnt_qposadr = qpos_at;
  jnt_dofadr = dof_at;
  jnt_bodyid = λ j. j + 1;
  geom_bodyid = λ g. 1;
  geom_pos = λ k. pos 0;
  geom_size = λ k. pos 110;
  geom_priority = λ g. 0;
  geom_friction = λ k. pos 1000;
  geom_solref = λ k. pos 20;
  actuator_forcelimited = λ a. true;
  actuator_forcerange = range_at;
  sensor_adr = λ s. s;
  key_qpos = λ k. pos 0;
}

pub pitch-HasRobot : HasRobot pitch
pitch-HasRobot = record {
  joints = (
    (omega arith, omega arith),
    (
      (omega arith, omega arith),
      (
        (omega arith, omega arith),
        (
          (omega arith, omega arith),
          (
            (omega arith, omega arith),
            (
              (omega arith, omega arith),
              (
                (omega arith, omega arith),
                (
                  (omega arith, omega arith),
                  (
                    (omega arith, omega arith),
                    (
                      (omega arith, omega arith),
                      (
                        (omega arith, omega arith),
                        (
                          (omega arith, omega arith),
                          (
                            (omega arith, omega arith),
                            (
                              (omega arith, omega arith),
                              (
                                (omega arith, omega arith),
                                (
                                  (omega arith, omega arith),
                                  (
                                    (omega arith, omega arith),
                                    (
                                      (omega arith, omega arith),
                                      (
                                        (omega arith, omega arith),
                                        (
                                          (omega arith, omega arith),
                                          (
                                            (omega arith, omega arith),
                                            ((omega arith, omega arith), tt),
                                          ),
                                        ),
                                      ),
                                    ),
                                  ),
                                ),
                              ),
                            ),
                          ),
                        ),
                      ),
                    ),
                  ),
                ),
              ),
            ),
          ),
        ),
      ),
    ),
  );
  root = 1;
  root_in = omega arith;
  root_free = refl;
}

-- The same model, without names.
abbrev pub nameless : Model ℤ
nameless = record pitch { name2id = λ k s. negsuc 0 }

abbrev pub still : Data ℤ
still = record {
  time = pos 0;
  qpos = λ k. pos 0;
  qvel = λ k. pos 0;
  qacc = λ k. pos 0;
  ctrl = λ k. pos 0;
  actuator_force = λ k. pos 0;
  sensordata = λ k. pos 0;
  xpos = λ k. pos 0;
  xquat = λ k. pos 0;
  xmat = λ k. pos 0;
  cvel = λ k. pos 0;
}

-- Everything has moved.
abbrev pub moved : Data ℤ
moved = record still { time = pos 20; qpos = λ k. pos (100 * k); qvel = λ k. pos 500 }

abbrev pub vectors : Mju ℤ
vectors = record {
  rot_vec_quat = λ v q. v;
  mul_quat = λ p q. p;
  axis_angle_quat = λ v a. v;
  mul_mat_vec = λ a v. v;
  mul_mat_t_vec = λ a v. v;
}

abbrev pub player : ℕ → Robot
player ps = record { penalty_state = ps; penalised_time_left = 0; cautions = 0 }

-- A team whose first player has a penalty state.
abbrev pub team : ℕ → ℕ → Team
team id ps = record {
  team_id = id;
  field_player_colour = 0;
  goalkeeper_colour = 1;
  goalkeeper = 1;
  score = 0;
  penalty_shot = 0;
  single_shots = 300;
  message_budget = 1200;
  players = player ps ∷ replicate 19 (player 0);
}

-- A packet with a state and the first player's penalty state.
abbrev pub packet : ℕ → ℕ → GameControllerPacket
packet st ps = record {
  header = 82 ∷ 71 ∷ 109 ∷ 101 ∷ [];
  version = 20;
  packet_number = 7;
  players_per_team = 4;
  competition_type = 0;
  stopped = 0;
  game_phase = 0;
  state = st;
  set_play = 0;
  first_half = 1;
  kicking_team = 12;
  secs_remaining = 600;
  secondary_time = 0;
  team0 = team 12 ps;
  team1 = team 13 0;
}

abbrev pub at_x : ℤ → Pose3 ℤ
at_x v = record { x = v; y = pos 0; z = pos 550; yaw = pos 0 }

abbrev pub ball : BallConfig ℤ
ball = record { enabled = true; body = "ball"; geom = "ball"; x = pos 0; y = pos 0; z = negsuc 0 }

abbrev pub robot : RobotConfig ℤ
robot = record {
  body = "robot";
  team_id = pos 12;
  team_index = pos 0;
  player_id = pos 1;
  home_pose = at_x (negsuc 999);
  penalty_pose = at_x (pos 2000);
}

abbrev pub config : SupervisorConfig ℤ
config = record {
  enabled = true;
  gc_port = pos 3838;
  reset_ball_on_finished = true;
  reset_ball_on_goal = true;
  reset_ball_on_half_change = false;
  ball = ball;
  robots = robot ∷ [];
}
