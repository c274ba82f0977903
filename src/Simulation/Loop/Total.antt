-- ===== src/Simulation/Loop/Total.antt =====
-- The physics thread goes on.
use nusim.Base.{◌≡◌, refl, Option, none, some, List, [], ◌∷◌, map}
use nusim.Double.{Double}
use nusim.MuJoCo.{Data, Mju}
use nusim.Robot.ModelMap.{ModelMap, ok, Returns, >>=-Returns, build}
use nusim.Robot.ModelMap.Present.{HasRobot, build-Returns}
use nusim.Locomotion.Controller.{Controller, Setter, step}
use nusim.Locomotion.Controller.Total.{step-Returns}
use nusim.Simulation.Core.{Engine, SimCore}
use nusim.Simulation.Loop.{
  locomotion, Loop, Round, control, advance, set_controller, run_round, run_rounds,
}

module _ {D : Type 0} ⦃f : Double D⦄ (u : Mju D) (e : Engine D) (core : SimCore D) where
  abbrev LocoRound : Type 0
  LocoRound = Round D (Controller D) (List (Setter D))

  control-Returns :
      (input : List (Setter D)) (c : Option (Controller D)) (d : Data D) (map : ModelMap)
      → build core.model ≡ ok map
      → Returns (control u e (locomotion u) core input c d)
  unfolding control locomotion
  control-Returns input none d map h = (_, refl)
  control-Returns input (some s) d map h =
      >>=-Returns (step u core.model input s d) (λ (r : Controller D × Data D). ok (some r.0, r.1))
        (step-Returns u core.model map input s d h) (λ r. ((some r.0, r.1), refl))

  run_rounds-Returns_with :
      (rs : List (Round D (Controller D) (List (Setter D)))) (l : Loop D (Controller D))
      (map : ModelMap)
      → build core.model ≡ ok map
      → Returns (run_rounds u e (locomotion u) core rs l)
  unfolding run_rounds run_round
  run_rounds-Returns_with [] l map h = (l, refl)
  run_rounds-Returns_with (r ∷ rs) l map h =
      let k = locomotion u in
      >>=-Returns (run_round u e k core r l) (run_rounds u e k core rs)
        (>>=-Returns
          (control u e k core r.input (set_controller u e k r.install l.controller) l.data_)
          (λ (x : Option (Controller D) × Data D).
            ok (advance u e k core r.measured_rtf l.steps l.published x))
          (control-Returns r.input (set_controller u e k r.install l.controller) l.data_ map h)
          (λ x. (_, refl)))
        (λ l1. run_rounds-Returns_with rs l1 map h)

  -- On a model that has a joint and an actuator under each of the robot's joint names, and a free
  -- joint, the thread makes all its rounds with the locomotion controller: whatever arrives, and
  -- whichever controllers are set, before their first step or after it, none of them throws.
  pub run_rounds-Returns :
      (rs : List (Round D (Controller D) (List (Setter D)))) (l : Loop D (Controller D))
      → HasRobot core.model
      → Returns (run_rounds u e (locomotion u) core rs l)
  run_rounds-Returns rs l h =
      let (map, built) = build-Returns core.model h in run_rounds-Returns_with rs l map built
