-- ===== src/Supervisor/Loader/Written.antt =====
-- What the supervisor's loader makes of a document that states every value, and when it fails.
use nusim.Base.{
  ◌≡◌, refl, sym, ◌↔◌, ◌⊎◌, inl, inr, none, some, List, [], ◌∷◌, or_default, Option-cases,
}
use mathlib.Core.List.{map as list_map}
use mathlib.Core.Option.{none-ne-some}
use nusim.Double.{Double}
use nusim.Supervisor.Config.{Pose3, RobotConfig, SupervisorConfig}
use nusim.Supervisor.Loader.{
  PoseYaml, RobotYaml, SupervisorYaml, load_pose, load_reset, load_ball, load_robot, load_robots,
  load_config,
}

module _ {D : Type 0} ⦃f : Double D⦄ where
  unfoldable pub pose_yaml : Pose3 D → PoseYaml D
  pose_yaml p = record { x = some p.x; y = some p.y; z = some p.z; yaw = some p.yaw }

  unfoldable pub robot_yaml : RobotConfig D → RobotYaml D
  robot_yaml r = record {
    body = some r.body;
    team_id = some r.team_id;
    team_index = some r.team_index;
    player_id = some r.player_id;
    home_pose = some (pose_yaml r.home_pose);
    penalty_pose = some (pose_yaml r.penalty_pose);
  }

  -- The document that states every value of a configuration.
  unfoldable pub config_yaml : SupervisorConfig D → SupervisorYaml D
  config_yaml c = record {
    enabled = some c.enabled;
    gc_port = some c.gc_port;
    reset_ball_on = some (record {
      finished = some c.reset_ball_on_finished;
      goal = some c.reset_ball_on_goal;
      half_change = some c.reset_ball_on_half_change;
    });
    ball = some (record {
      enabled = some c.ball.enabled;
      body = some c.ball.body;
      geom = some c.ball.geom;
      x = some c.ball.x;
      y = some c.ball.y;
      z = some c.ball.z;
    });
    robots = some (list_map robot_yaml c.robots);
  }

  load_robots-written : (rs : List (RobotConfig D)) → load_robots (list_map robot_yaml rs) ≡ some rs
  unfolding load_robots load_robot load_pose robot_yaml pose_yaml
  load_robots-written [] = refl
  load_robots-written (r ∷ rs) = rw (load_robots-written rs) refl

  -- The document that states every value of a configuration is read as that configuration.
  pub load_config-written : (c : SupervisorConfig D) → load_config (config_yaml c) ≡ some c
  unfolding load_config load_reset load_ball config_yaml
  load_config-written c = rw (load_robots-written c.robots) refl

  unfoldable pub Missing : List (RobotYaml D) → Type 0
  Missing [] = ⊥
  Missing (r ∷ rs) = (r.body ≡ none) ⊎ Missing rs

  load_robots-fails : (rs : List (RobotYaml D)) → Missing rs → load_robots rs ≡ none
  unfolding load_robots load_robot Missing
  load_robots-fails [] m = elim m [ ]
  load_robots-fails (r ∷ rs) (inl e) = rw e refl
  load_robots-fails (r ∷ rs) (inr m) = elim (Option-cases r.body) [
    | inl e ↦ rw e refl
    | inr (b, e) ↦ rw (e, load_robots-fails rs m) refl
  ]

  load_robots-Missing : (rs : List (RobotYaml D)) → load_robots rs ≡ none → Missing rs
  unfolding load_robots load_robot Missing
  load_robots-Missing [] e = elim (none-ne-some [] (sym e)) [ ]
  load_robots-Missing (r ∷ rs) e = elim (Option-cases r.body) [
    | inl n ↦ inl n
    | inr (b, s) ↦ inr (elim (Option-cases (load_robots rs)) [
      | inl n ↦ load_robots-Missing rs n
      | inr (loaded, l) ↦ cc
    ])
  ]

  -- Reading fails if and only if the document has a robot without a body.
  pub load_config_iff :
      (root : SupervisorYaml D) → (load_config root ≡ none) ↔ Missing (or_default root.robots [])
  unfolding load_config
  load_config_iff root = (
    λ e.
        load_robots-Missing robots
          (elim (Option-cases (load_robots robots)) [ inl n ↦ n | inr (loaded, l) ↦ cc ]),
    λ m. rw (load_robots-fails robots m) refl,
  )
    where
      robots : List (RobotYaml D)
      robots = or_default root.robots []
