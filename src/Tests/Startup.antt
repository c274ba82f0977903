-- ===== src/Tests/Startup.antt =====
-- The theorems on the command line and the line-up, on toy numbers.
use nusim.Base.{
  ◌≡◌, refl, true, false, Option, none, some, List, [], ◌∷◌, arith, if◌then◌else◌, length,
  get_elem?, All, ℤ, pos, negsuc,
}
use Prim.Native.String.{String}
use text.Mathlib.Text.{◌==◌ as str_eq}
use nusim.Double.Fixed.{fixed, fixed-IsSigned}
use nusim.Simulation.Core.{Spawn, SimConfig}
use nusim.Startup.Cli.{CliOptions, returned, Numbers, parse_cli}
use nusim.Startup.Cli.Valid.{IsValid, parse_cli-IsValid}
use nusim.Startup.Spread.{Point, spread_in_half}
use nusim.Startup.Spread.InHalf.{InHalf, spread_in_half-InHalf}
use nusim.Startup.Spread.Ends.{spread_in_half-length}
use nusim.Startup.Game.{GameConfig, Game, game, sideline_team}
use nusim.Startup.Game.Mirror.{game-mirrored}
use nusim.Startup.Settings.{SimYaml, GainsYaml, build_sim_config, field_scene, sim_config}
use nusim.Startup.Settings.Consistent.{IsConsistent, build_sim_config-IsConsistent}

-- "4" is the only number.
abbrev numbers : Numbers ℤ
numbers = record { stoi = λ s. if str_eq s "4" then some (pos 4) else none; stod = λ s. none }

abbrev match_args : List String
match_args = "--headless" ∷ "--game" ∷ "4" ∷ []

abbrev match_options : CliOptions ℤ
match_options = record {
  headless = true;
  field = "";
  game = pos 4;
  on_field_positions = false;
  config_dir = "";
  keyframe = "";
  rtf = negsuc 999;
  robots = pos 1;
}

parsed : parse_cli numbers match_args ≡ returned match_options
unfolding parse_cli
parsed = refl

parse_cli-IsValid_example : IsValid match_options
parse_cli-IsValid_example = parse_cli-IsValid numbers match_args match_options parsed

-- A half of two samples, and its points.
abbrev or_points : Option (List (Point ℤ)) → List (Point ℤ)
or_points none = []
or_points (some ps) = ps

or_points-eq :
    (o : Option (List (Point ℤ))) → (ps : List (Point ℤ)) → o ≡ some ps → o ≡ some (or_points o)
or_points-eq none ps e = cc
or_points-eq (some qs) ps e = refl

abbrev keeper : Point ℤ
keeper = record { x = negsuc 49; y = pos 50 }

spread_in_half-length_example :
    (ps : List (Point ℤ)) × (spread_in_half 5 (keeper ∷ []) 2 (pos 200) (pos 200) (pos 50)
      ≡ some ps)
    × (length ps ≡ 2)
spread_in_half-length_example =
    spread_in_half-length 5 1 2 (keeper ∷ []) 2 (pos 200) (pos 200) (pos 50) (omega arith) refl refl
      refl refl refl

abbrev spread : Option (List (Point ℤ))
spread = spread_in_half 5 (keeper ∷ []) 2 (pos 200) (pos 200) (pos 50)

spread_returns : spread ≡ some (or_points spread)
spread_returns =
    let (ps, e, _) =
      spread_in_half-length 5 1 2 (keeper ∷ []) 2 (pos 200) (pos 200) (pos 50) (omega arith) refl
        refl refl refl refl in
    or_points-eq spread ps e

spread_in_half-InHalf_example : All InHalf (or_points spread)
spread_in_half-InHalf_example =
    spread_in_half-InHalf fixed-IsSigned 5 (keeper ∷ []) 2 (pos 200) (pos 200) (pos 50)
      (or_points spread) spread_returns

abbrev game_config : GameConfig ℤ
game_config = record {
  field = "middle";
  length_ = pos 14000;
  width = pos 9000;
  centre_circle_radius = pos 1500;
  penalty_mark_distance = pos 2000;
  sideline_offset = pos 300;
  sideline_spacing = pos 800;
  attacker = record { x = negsuc 1999; y = pos 0 };
  goalkeeper = record { x = negsuc 6499; y = pos 0 };
  wings = [];
}

abbrev or_game : Option (Game ℤ) → Game ℤ
or_game none = record { field = ""; spawns = [] }
or_game (some g) = g

abbrev the_game : Game ℤ
the_game = or_game (game 0 game_config 4 false)

game-mirrored_example :
    (s : Spawn ℤ) × (get_elem? the_game.spawns 1 ≡ some s)
    × (get_elem? the_game.spawns 5
        ≡ some (record { x = fixed.neg s.x; y = fixed.neg s.y; yaw = fixed.add s.yaw fixed.pi }))
unfolding game
game-mirrored_example = game-mirrored 0 game_config 4 false the_game 1 refl (omega arith)

abbrev sim_yaml : SimYaml ℤ
sim_yaml = record {
  field = "middle";
  fields = ("flat", "models/k1/k1_scene_flat.xml") ∷ ("middle", "models/k1/k1_scene.xml") ∷ [];
  game = game_config;
  initial_keyframe = none;
  real_time_factor = none;
  state_publish_divisor = none;
  resync_threshold = none;
  surface_enabled = none;
  surface_friction = none;
  surface_solref_timeconst = none;
  surface_solref_dampratio = none;
  foot_log = none;
}

abbrev gains_yaml : GainsYaml ℤ
gains_yaml = record { kp = λ i. pos 0; kd = λ i. pos 0; ready_pose = λ i. pos 0 }

abbrev built : SimConfig ℤ
built =
    sim_config sim_yaml gains_yaml match_options (pos 8) the_game.spawns "models/k1/k1_scene.xml"

built_returns : build_sim_config 0 sim_yaml gains_yaml match_options ≡ some (returned built)
unfolding build_sim_config field_scene game sideline_team
built_returns = refl

build_sim_config-IsConsistent_example : IsConsistent built
build_sim_config-IsConsistent_example =
    build_sim_config-IsConsistent numbers match_args match_options 0 sim_yaml gains_yaml built
      parsed built_returns
