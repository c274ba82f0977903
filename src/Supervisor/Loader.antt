-- ===== src/Supervisor/Loader.antt =====
-- Reading config/supervisor.yaml (`load_pose` and `load_config` of
-- mujoco/module/Supervisor/src/SupervisorConfig.hpp). A document is given as its values: an entry
-- that is missing, or that does not convert, is `none`. `none` as a result is yaml-cpp's exception.
pub mod Written
use nusim.Base.{Bool, true, Option, none, some, List, [], ◌∷◌, or_default, ℤ, pos, negsuc}
use Prim.Native.String.{String}
use nusim.Double.{Double, nought}
use nusim.Supervisor.Config.{Pose3, BallConfig, RobotConfig, SupervisorConfig}

infixl 5 ◌>>=◌
abbrev pub ◌>>=◌ {ℓ ℓ'} : {A : Type ℓ} {B : Type ℓ'} → Option A → (A → Option B) → Option B
none >>= g = none
some a >>= g = g a

pub record PoseYaml (D : Type 0) : Type 0 where
  pub x : Option D
  pub y : Option D
  pub z : Option D
  pub yaw : Option D

pub record ResetYaml : Type 0 where
  pub finished : Option Bool
  pub goal : Option Bool
  pub half_change : Option Bool

pub record BallYaml (D : Type 0) : Type 0 where
  pub enabled : Option Bool
  pub body : Option String
  pub geom : Option String
  pub x : Option D
  pub y : Option D
  pub z : Option D

pub record RobotYaml (D : Type 0) : Type 0 where
  pub body : Option String
  pub team_id : Option ℤ
  pub team_index : Option ℤ
  pub player_id : Option ℤ
  pub home_pose : Option (PoseYaml D)
  pub penalty_pose : Option (PoseYaml D)

pub record SupervisorYaml (D : Type 0) : Type 0 where
  pub enabled : Option Bool
  pub gc_port : Option ℤ
  pub reset_ball_on : Option ResetYaml
  pub ball : Option (BallYaml D)
  pub robots : Option (List (RobotYaml D))

-- The switches for a finished game, a goal and the second half.
unfoldable pub load_reset : Option ResetYaml → Bool × Bool × Bool
load_reset none = (true, true, true)
load_reset (some reset) =
    (or_default reset.finished true, or_default reset.goal true, or_default reset.half_change true)

module _ {D : Type 0} ⦃f : Double D⦄ where
  open f use {dec}

  abbrev pub no_pose : Pose3 D
  no_pose = record { x = nought; y = nought; z = nought; yaw = nought }

  abbrev pub default_ball : BallConfig D
  default_ball = record {
    enabled = true;
    body = "ball";
    geom = "ball";
    x = nought;
    y = nought;
    z = dec (negsuc 0) 0;
  }

  unfoldable pub load_pose : Option (PoseYaml D) → Pose3 D → Pose3 D
  load_pose none fallback = fallback
  load_pose (some node) fallback = record {
    x = or_default node.x fallback.x;
    y = or_default node.y fallback.y;
    z = or_default node.z fallback.z;
    yaw = or_default node.yaw fallback.yaw;
  }

  unfoldable pub load_ball : Option (BallYaml D) → BallConfig D
  load_ball none = default_ball
  load_ball (some ball) = record {
    enabled = or_default ball.enabled default_ball.enabled;
    body = or_default ball.body default_ball.body;
    geom = or_default ball.geom default_ball.geom;
    x = or_default ball.x default_ball.x;
    y = or_default ball.y default_ball.y;
    z = or_default ball.z default_ball.z;
  }

  unfoldable pub load_robot : RobotYaml D → Option (RobotConfig D)
  load_robot r = do
    body ← r.body
    some (record {
      body = body;
      team_id = or_default r.team_id (negsuc 0);
      team_index = or_default r.team_index (pos 0);
      player_id = or_default r.player_id (pos 1);
      home_pose = load_pose r.home_pose no_pose;
      penalty_pose = load_pose r.penalty_pose no_pose;
    })

  unfoldable pub load_robots : List (RobotYaml D) → Option (List (RobotConfig D))
  load_robots [] = some []
  load_robots (r ∷ rs) = do rc ← load_robot r; rest ← load_robots rs; some (rc ∷ rest)

  unfoldable pub load_config : SupervisorYaml D → Option (SupervisorConfig D)
  load_config root = do
    let (finished, goal, half_change) = load_reset root.reset_ball_on
    robots ← load_robots (or_default root.robots [])
    some (record {
      enabled = or_default root.enabled true;
      gc_port = or_default root.gc_port (pos 3838);
      reset_ball_on_finished = finished;
      reset_ball_on_goal = goal;
      reset_ball_on_half_change = half_change;
      ball = load_ball root.ball;
      robots = robots;
    })
