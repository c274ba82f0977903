-- ===== src/Startup/Settings.antt =====
-- From the command line and the configuration files to the simulation's configuration: `config_dir`
-- and `field_scene` of mujoco/shared/util/Config.hpp, and `build_sim_config` of
-- mujoco/module/Simulation/src/Simulation.cpp. What simulation.yaml and gains.yaml hold is a record;
-- `none` is a key that is absent where the code gives a default.
pub mod Consistent
use nusim.Base.{
  ℕ, Bool, false, not, Option, none, some, List, [], ◌∷◌, if◌then◌else◌, or_default, length, ℤ, pos,
  pos_part, ltb_ℤ,
}
use Prim.Native.String.{String}
use text.Mathlib.Text.{◌==◌ as str_eq}
use nusim.Double.{Double, nought, unit}
use nusim.Simulation.Core.{Spawn, SimConfig}
use nusim.Startup.Cli.{CliOptions, Outcome, returned, exited, failure, ◌>>=◌}
use nusim.Startup.Game.{GameConfig, Game, game}

pub record SimYaml (D : Type 0) : Type 0 where
  pub field : String
  pub fields : List (String × String)
  pub game : GameConfig D
  pub initial_keyframe : Option String
  pub real_time_factor : Option D
  pub state_publish_divisor : Option ℤ
  pub resync_threshold : Option D
  pub surface_enabled : Option Bool
  pub surface_friction : Option D
  pub surface_solref_timeconst : Option D
  pub surface_solref_dampratio : Option D
  pub foot_log : Option String

pub record GainsYaml (D : Type 0) : Type 0 where
  pub kp : ℕ → D
  pub kd : ℕ → D
  pub ready_pose : ℕ → D

-- fields[field]
unfoldable pub lookup_field : List (String × String) → String → Option String
lookup_field [] name = none
lookup_field ((field, scene) ∷ fields) name =
    if str_eq field name then some scene else lookup_field fields name

abbrev pub or_exit {ℓ} : {A : Type ℓ} → Option A → Outcome A
or_exit none = exited failure
or_exit (some a) = returned a

-- The directory of the configuration: --config-dir, or the environment's, or that of the source.
unfoldable pub config_dir : {D : Type 0} → CliOptions D → Option String → String → String
config_dir cli environment source_config =
    if not (str_eq cli.config_dir "") then cli.config_dir else or_default environment source_config

module _ {D : Type 0} ⦃f : Double D⦄ where
  unfoldable pub field_scene : SimYaml D → String → Outcome String
  unfolding lookup_field
  field_scene sim_cfg field =
      or_exit (lookup_field sim_cfg.fields (if str_eq field "" then sim_cfg.field else field))

  -- The configuration for a scene, a number of robots and their spawns.
  unfoldable pub sim_config :
      SimYaml D → GainsYaml D → CliOptions D → ℤ → List (Spawn D) → String → SimConfig D
  sim_config sim_cfg gains_cfg cli robots spawns scene = record {
    model_path = scene;
    initial_keyframe =
        if not (str_eq cli.keyframe "")
        then cli.keyframe
        else or_default sim_cfg.initial_keyframe "ready";
    robots = robots;
    spawns = spawns;
    rtf = if f.le nought cli.rtf then cli.rtf else or_default sim_cfg.real_time_factor unit;
    state_publish_divisor = or_default sim_cfg.state_publish_divisor (pos 20);
    resync_threshold = or_default sim_cfg.resync_threshold (f.dec (pos 5) 2);
    foot_log_path = or_default sim_cfg.foot_log "";
    surface = record {
      enabled = or_default sim_cfg.surface_enabled false;
      friction = or_default sim_cfg.surface_friction (f.dec (pos 8) 1);
      solref_timeconst = or_default sim_cfg.surface_solref_timeconst (f.dec (pos 2) 2);
      solref_dampratio = or_default sim_cfg.surface_solref_dampratio unit;
    };
    pd = record { kp = gains_cfg.kp; kd = gains_cfg.kd };
    ready_pose_fallback = gains_cfg.ready_pose;
  }

  -- For a match; `none` where `game` does not return.
  unfoldable pub config_of_game :
      SimYaml D → GainsYaml D → CliOptions D → Option (Game D) → Option (Outcome (SimConfig D))
  config_of_game sim_cfg gains_cfg cli none = none
  config_of_game sim_cfg gains_cfg cli (some g) = some (
      field_scene sim_cfg g.field >>= λ scene.
      returned (sim_config sim_cfg gains_cfg cli (pos (length g.spawns)) g.spawns scene))

  unfoldable pub build_sim_config :
      ℕ → SimYaml D → GainsYaml D → CliOptions D → Option (Outcome (SimConfig D))
  unfolding config_of_game
  build_sim_config fuel sim_cfg gains_cfg cli =
      if ltb_ℤ (pos 0) cli.game
      then config_of_game sim_cfg gains_cfg cli
          (game fuel sim_cfg.game (pos_part cli.game) cli.on_field_positions)
      else some (
          field_scene sim_cfg cli.field >>= λ scene.
          returned (sim_config sim_cfg gains_cfg cli cli.robots [] scene))
