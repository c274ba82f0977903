-- ===== src/Startup/Settings/Consistent.antt =====
-- The command line and the simulation's configuration agree on the number of robots, as the comment
-- on `spawns` in mujoco/module/Simulation/src/SimCore.hpp asks.
use nusim.Base.{
  ℕ, ◌*◌, ◌≤◌, ◌≡◌, refl, subst, ◌⊎◌, inl, inr, true, Option, none, some, List, [], arith, if-cases,
  length, ℤ, pos, negsuc, pos_part, ◌≤ℤ◌, ltb_ℤ,
}
use Prim.Native.String.{String}
use nusim.Double.{Double}
use nusim.Simulation.Core.{SimConfig}
use nusim.Startup.Cli.{CliOptions, Outcome, returned, exited, thrown, Numbers, parse_cli, ◌>>=◌}
use nusim.Startup.Cli.Valid.{IsValid, parse_cli-IsValid}
use nusim.Startup.Game.{Game, game}
use nusim.Startup.Spread.InHalf.{some-inj}
use nusim.Startup.Game.Mirror.{length-game}
use nusim.Startup.Settings.{
  SimYaml, GainsYaml, field_scene, sim_config, build_sim_config, config_of_game,
}

-- The number of robots is in range, and every robot of a game has a spawn of its own.
pub record IsConsistent {D : Type 0} ⦃f : Double D⦄ (cfg : SimConfig D) : Type 0 where
  pub robots_low : pos 1 ≤ℤ cfg.robots
  pub robots_high : cfg.robots ≤ℤ pos 22
  pub spawned : (cfg.spawns ≡ []) ⊎ (cfg.robots ≡ pos (length cfg.spawns))

module _ {D : Type 0} ⦃f : Double D⦄ where
  of_game :
      (sim_cfg : SimYaml D) (gains_cfg : GainsYaml D) (o : CliOptions D) (g : Game D) (s : String)
      → IsValid o
      → length g.spawns ≡ 2 * pos_part o.game
      → pos 1 ≤ℤ o.game
      → IsConsistent (sim_config sim_cfg gains_cfg o (pos (length g.spawns)) g.spawns s)
  unfolding sim_config
  of_game sim_cfg gains_cfg o g s v size h = record {
    robots_low = omega arith;
    robots_high = omega (arith, bound o.game v.game_high size);
    spawned = inr refl;
  }
    where
      bound : (n : ℤ) → n ≤ℤ pos 11 → length g.spawns ≡ 2 * pos_part n → length g.spawns ≤ 22
      bound (pos n) h e = omega arith
      bound (negsuc n) h e = omega arith

  of_robots :
      (sim_cfg : SimYaml D) (gains_cfg : GainsYaml D) (o : CliOptions D) (s : String)
      → IsValid o
      → IsConsistent (sim_config sim_cfg gains_cfg o o.robots [] s)
  unfolding sim_config
  of_robots sim_cfg gains_cfg o s v = record {
    robots_low = v.robots_low;
    robots_high = omega (arith, v.robots_high);
    spawned = inl refl;
  }

  >>=-returned :
      (scene : Outcome String) (g : String → SimConfig D) (cfg : SimConfig D)
      → ((s : String) → IsConsistent (g s))
      → (scene >>= λ s. returned (g s)) ≡ returned cfg
      → IsConsistent cfg
  >>=-returned (returned s) g cfg h e = subst IsConsistent (returned-inj e) (h s)
    where
      returned-inj : returned (g s) ≡ returned cfg → g s ≡ cfg
      returned-inj e = cc
  >>=-returned (exited c) g cfg h e = cc
  >>=-returned thrown g cfg h e = cc

  of_config :
      (sim_cfg : SimYaml D) (gains_cfg : GainsYaml D) (o : CliOptions D) (r : Option (Game D))
      (cfg : SimConfig D)
      → IsValid o
      → ltb_ℤ (pos 0) o.game ≡ true
      → ((g : Game D) → r ≡ some g → length g.spawns ≡ 2 * pos_part o.game)
      → config_of_game sim_cfg gains_cfg o r ≡ some (returned cfg)
      → IsConsistent cfg
  unfolding config_of_game
  of_config sim_cfg gains_cfg o none cfg v h size e = cc
  of_config sim_cfg gains_cfg o (some g) cfg v h size e =
      >>=-returned (field_scene sim_cfg g.field) _ cfg
        (λ s. of_game sim_cfg gains_cfg o g s v (size g refl) (positive o.game h)) (some-inj e)
    where
      positive : (n : ℤ) → ltb_ℤ (pos 0) n ≡ true → pos 1 ≤ℤ n
      positive n h = ground arith

  -- If `parse_cli` returns options and `build_sim_config` returns a configuration for them: there
  -- are 1 to 22 robots, and with spawns there are as many spawns as robots.
  pub build_sim_config-IsConsistent :
      (nums : Numbers D) (args : List String) (o : CliOptions D) (fuel : ℕ) (sim_cfg : SimYaml D)
      (gains_cfg : GainsYaml D) (cfg : SimConfig D)
      → parse_cli nums args ≡ returned o
      → build_sim_config fuel sim_cfg gains_cfg o ≡ some (returned cfg)
      → IsConsistent cfg
  unfolding build_sim_config
  build_sim_config-IsConsistent nums args o fuel sim_cfg gains_cfg cfg p e =
      let v = parse_cli-IsValid nums args o p in
      elim (if-cases (ltb_ℤ (pos 0) o.game) _ _ _ e) [
        | inl (h, made) ↦
            of_config sim_cfg gains_cfg o
              (game fuel sim_cfg.game (pos_part o.game) o.on_field_positions) cfg v h
              (length-game fuel sim_cfg.game (pos_part o.game) o.on_field_positions) made
        | inr (_, made) ↦
            >>=-returned (field_scene sim_cfg o.field) _ cfg
              (λ s. of_robots sim_cfg gains_cfg o s v) (some-inj made)
      ]
