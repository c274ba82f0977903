-- ===== src/Startup/Game.antt =====
-- The line-up of a match: `game` of mujoco/shared/util/Config.hpp. The keys that it reads from
-- simulation.yaml are the fields of a record; a key that is absent makes yaml-cpp throw.
pub mod Mirror
pub mod Places
use nusim.Base.{
  ℕ, ◌+◌, ◌-◌, ◌*◌, ◌/◌, ◌%◌, min, Bool, Option, some, List, ◌∷◌, ◌++◌, map, ◌==◌, if◌then◌else◌,
  length, take, count_up, pos, negsuc,
}
use Prim.Native.String.{String}
use nusim.Double.{Double, nought, unit, two}
use nusim.Simulation.Core.{Spawn}
use nusim.Startup.Spread.{Point, spread_in_half, ◌>>=◌}

-- simulation.yaml's `game`
pub record GameConfig (D : Type 0) : Type 0 where
  pub field : String
  pub length_ : D
  pub width : D
  pub centre_circle_radius : D
  pub penalty_mark_distance : D
  pub sideline_offset : D
  pub sideline_spacing : D
  pub attacker : Point D
  pub goalkeeper : Point D
  pub wings : List (Point D)

pub record Game (D : Type 0) : Type 0 where
  pub field : String
  pub spawns : List (Spawn D)

-- The place along a side of the i-th robot, and whether the side is the -y one.
unfoldable pub slot : ℕ → ℕ
slot i = (i / 4) * 2 + i % 2

unfoldable pub is_right_side : ℕ → Bool
is_right_side i = (i / 2) % 2 == 0

module _ {D : Type 0} ⦃f : Double D⦄ where
  open f use {add, mul, div, neg, of_int, pi}

  -- Facing +x.
  abbrev pub facing_on : Point D → Spawn D
  facing_on p = record { x = p.x; y = p.y; yaw = nought }

  -- The robots with a fixed position, in order, as many of them as play.
  unfoldable pub fixed_robots : GameConfig D → ℕ → List (Point D)
  fixed_robots cfg n =
      let all_fixed = cfg.attacker ∷ cfg.goalkeeper ∷ cfg.wings in
      take (min (length all_fixed) n) all_fixed

  -- A team in its kickoff positions.
  unfoldable pub kickoff_team : ℕ → GameConfig D → ℕ → Option (List (Spawn D))
  unfolding fixed_robots
  kickoff_team fuel cfg n =
      let fixed = fixed_robots cfg n in
      spread_in_half fuel fixed (n - length fixed) cfg.length_ cfg.width cfg.centre_circle_radius
      >>= λ (rest : List (Point D)). some (map facing_on fixed ++ map facing_on rest)

  -- The i-th robot off the touchline.
  unfoldable pub sideline_spawn : GameConfig D → ℕ → Spawn D
  unfolding slot is_right_side
  sideline_spawn cfg i =
      let first_x = add (div (neg cfg.length_) two) cfg.penalty_mark_distance in
      let side_y = add (div cfg.width two) cfg.sideline_offset in
      let side = if is_right_side i then f.dec (negsuc 0) 0 else unit in
      record {
        x = add first_x (mul (of_int (pos (slot i))) cfg.sideline_spacing);
        y = mul side side_y;
        yaw = div (mul (neg side) pi) two;
      }

  unfoldable pub sideline_team : GameConfig D → ℕ → List (Spawn D)
  unfolding sideline_spawn
  sideline_team cfg n = map (sideline_spawn cfg) (count_up 0 n)

  -- The robot opposite, mirrored through the centre spot.
  abbrev pub mirrored : Spawn D → Spawn D
  mirrored p = record { x = neg p.x; y = neg p.y; yaw = add p.yaw pi }

  unfoldable pub both_teams : GameConfig D → List (Spawn D) → Game D
  both_teams cfg team = record { field = cfg.field; spawns = team ++ map mirrored team }

  unfoldable pub game : ℕ → GameConfig D → ℕ → Bool → Option (Game D)
  unfolding both_teams
  game fuel cfg n on_field =
      (if on_field then kickoff_team fuel cfg n else some (sideline_team cfg n))
      >>= λ (team : List (Spawn D)). some (both_teams cfg team)
