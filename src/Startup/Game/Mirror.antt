-- ===== src/Startup/Game/Mirror.antt =====
-- The two teams of a match are equally large, and one is the other turned by half a turn.
use nusim.Base.{
  ℕ, zero, suc, ◌+◌, ◌-◌, ◌*◌, ◌≤◌, ◌<◌, min, ◌≡◌, refl, sym, ap, ◌∙◌, Bool, true, false, some,
  List, [], ◌∷◌, ◌++◌, map, arith, length, get_elem?, length-append, length-map, length-take,
  count_up, length-count_up,
}
use nusim.Double.{Double}
use nusim.Simulation.Core.{Spawn}
use nusim.Startup.Spread.{spread_in_half}
use nusim.Startup.Spread.InHalf.{some-inj, >>=-some}
use nusim.Startup.Spread.Ends.{length-spread_in_half}
use nusim.Startup.Game.{
  GameConfig, Game, facing_on, fixed_robots, kickoff_team, sideline_team, mirrored, both_teams,
  game,
}

-- An index into the second of two lists, and into a mapped list.
module _ {A : Type 0} where
  get_elem?-append_left :
      (xs ys : List A) (k : ℕ) → k < length xs → get_elem? (xs ++ ys) k ≡ get_elem? xs k
  get_elem?-append_left [] ys k h = elim h [ ]
  get_elem?-append_left (x ∷ xs) ys zero h = refl
  get_elem?-append_left (x ∷ xs) ys (suc k) h = get_elem?-append_left xs ys k (omega arith)

  get_elem?-append_right :
      (xs ys : List A) (k n : ℕ) → length xs ≡ n → get_elem? (xs ++ ys) (n + k) ≡ get_elem? ys k
  get_elem?-append_right [] ys k n h = ap (get_elem? ys) (omega arith)
  get_elem?-append_right (x ∷ xs) ys k n h =
      ap (get_elem? (x ∷ (xs ++ ys))) next ∙ get_elem?-append_right xs ys k (length xs) refl
    where
      next : n + k ≡ suc (length xs + k)
      next = omega arith

  get_elem?-mapped :
      {B : Type 0} (g : A → B) (xs : List A) (k : ℕ)
      → k < length xs
      → (a : A) × (get_elem? xs k ≡ some a) × (get_elem? (map g xs) k ≡ some (g a))
  get_elem?-mapped g [] k h = elim h [ ]
  get_elem?-mapped g (x ∷ xs) zero h = (x, refl, refl)
  get_elem?-mapped g (x ∷ xs) (suc k) h = get_elem?-mapped g xs k (omega arith)

module _ {D : Type 0} ⦃f : Double D⦄ where
  length-fixed_robots : (cfg : GameConfig D) (n : ℕ) → length (fixed_robots cfg n) ≤ n
  unfolding fixed_robots
  length-fixed_robots cfg n =
      let all_fixed = cfg.attacker ∷ cfg.goalkeeper ∷ cfg.wings in
      omega (arith, length-take (min (length all_fixed) n) all_fixed)

  length-kickoff_team :
      (fuel : ℕ) (cfg : GameConfig D) (n : ℕ) (team : List (Spawn D))
      → kickoff_team fuel cfg n ≡ some team
      → length team ≡ n
  unfolding kickoff_team
  length-kickoff_team fuel cfg n team e =
      let fixed = fixed_robots cfg n in
      let (rest, spread, out) =
        >>=-some
          (spread_in_half fuel fixed (n - length fixed) cfg.length_ cfg.width
            cfg.centre_circle_radius)
          _ e in
      let same : length (map facing_on fixed ++ map facing_on rest) ≡ length team =
        ap length (some-inj out) in
      omega (
        arith,
        same,
        length-append (map facing_on fixed) (map facing_on rest),
        length-map facing_on fixed,
        length-map facing_on rest,
        length-fixed_robots cfg n,
        length-spread_in_half fuel fixed (n - length fixed) cfg.length_ cfg.width
            cfg.centre_circle_radius rest spread,
      )

  length-sideline_team : (cfg : GameConfig D) (n : ℕ) → length (sideline_team cfg n) ≡ n
  unfolding sideline_team
  length-sideline_team cfg n = length-map _ (count_up 0 n) ∙ length-count_up 0 n

  game-eq :
      (fuel : ℕ) (cfg : GameConfig D) (n : ℕ) (on_field : Bool) (g : Game D)
      → game fuel cfg n on_field ≡ some g
      → (team : List (Spawn D)) × (length team ≡ n) × (g ≡ both_teams cfg team)
  unfolding game
  game-eq fuel cfg n true g e =
      let (team, made, out) = >>=-some (kickoff_team fuel cfg n) _ e in
      (team, length-kickoff_team fuel cfg n team made, sym (some-inj out))
  game-eq fuel cfg n false g e = (sideline_team cfg n, length-sideline_team cfg n, sym (some-inj e))

  -- If `game` returns for n robots a side, on the field or off it: there are 2 n spawns.
  pub length-game :
      (fuel : ℕ) (cfg : GameConfig D) (n : ℕ) (on_field : Bool) (g : Game D)
      → game fuel cfg n on_field ≡ some g
      → length g.spawns ≡ 2 * n
  unfolding both_teams
  length-game fuel cfg n on_field g e =
      let (team, size, out) = game-eq fuel cfg n on_field g e in
      let same : length g.spawns ≡ length (team ++ map mirrored team) =
        ap (λ (g : Game D). length g.spawns) out in
      omega (arith, same, length-append team (map mirrored team), length-map mirrored team)

  -- If `game` returns for n robots a side: for every k below n, robot k has a spawn, and the spawn
  -- of robot n + k has its x and its y negated, and pi added to its yaw: it is turned about the
  -- centre spot by half a turn.
  pub game-mirrored :
      (fuel : ℕ) (cfg : GameConfig D) (n : ℕ) (on_field : Bool) (g : Game D) (k : ℕ)
      → game fuel cfg n on_field ≡ some g
      → k < n
      → (s : Spawn D) × (get_elem? g.spawns k ≡ some s)
        × (get_elem? g.spawns (n + k)
            ≡ some (record { x = f.neg s.x; y = f.neg s.y; yaw = f.add s.yaw f.pi }))
  unfolding both_teams
  game-mirrored fuel cfg n on_field g k e h =
      let (team, size, out) = game-eq fuel cfg n on_field g e in
      let (s, here, opposite) = get_elem?-mapped mirrored team k (omega arith) in
      let same : g.spawns ≡ team ++ map mirrored team = ap (λ (g : Game D). g.spawns) out in
      (
        s,
        ap (λ (ss : List (Spawn D)). get_elem? ss k) same
            ∙ (get_elem?-append_left team (map mirrored team) k (omega arith) ∙ here),
        ap (λ (ss : List (Spawn D)). get_elem? ss (n + k)) same
            ∙ (get_elem?-append_right team (map mirrored team) k n size ∙ opposite),
      )
