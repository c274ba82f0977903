-- ===== src/Locomotion/Controller/Total.antt =====
-- The controller does not throw on a model of the robot.
use nusim.Base.{◌≡◌, refl, Option, none, some, List, [], ◌∷◌, arith}
use nusim.Double.{Double}
use nusim.MuJoCo.{Model, Data, Mju}
use nusim.Robot.ModelMap.{ModelMap, ok, Returns, >>=-Returns, build}
use nusim.Robot.ModelMap.Present.{HasRobot, build-Returns}
use nusim.Locomotion.Controller.{Controller, Setter, step_with, ensure_initialized, step}
use nusim.Locomotion.Controller.Modes.{Event, posted, stepped, happen, history}

module _ {D : Type 0} ⦃f : Double D⦄ (u : Mju D) (m : Model D) (map : ModelMap) where
  ensure-Returns :
      (c : Controller D) (o : Option ModelMap)
      → c.map ≡ o
      → build m ≡ ok map
      → Returns (ensure_initialized m c)
  unfolding ensure_initialized
  ensure-Returns c (some mp) q h = ((mp, c), ground (arith, q))
  ensure-Returns c none q h =
      rw (q, ensure_initialized)
        (>>=-Returns (build m) (λ (mp : ModelMap). ok (mp, record c { map = some mp })) (map, h)
          (λ mp. ((mp, record c { map = some mp }), refl)))

  pub step-Returns :
      (between : List (Setter D)) (c : Controller D) (d : Data D)
      → build m ≡ ok map
      → Returns (step u m between c d)
  unfolding step
  step-Returns between c d h =
      >>=-Returns (ensure_initialized m c)
        (λ (r : ModelMap × Controller D). ok (step_with u m r.0 between r.1 d))
        (ensure-Returns c c.map refl h) (λ r. (step_with u m r.0 between r.1 d, refl))

  happen-Returns : (ev : Event D) (c : Controller D) → build m ≡ ok map → Returns (happen u m ev c)
  unfolding happen
  happen-Returns (posted s) c h = (_, refl)
  happen-Returns (stepped between d) c h =
      >>=-Returns (step u m between c d) (λ (r : Controller D × Data D). ok r.0)
        (step-Returns between c d h) (λ r. (r.0, refl))

  history-Returns_with :
      (evs : List (Event D)) (c : Controller D) → build m ≡ ok map → Returns (history u m evs c)
  unfolding history
  history-Returns_with [] c h = (c, refl)
  history-Returns_with (ev ∷ evs) c h =
      >>=-Returns (happen u m ev c) (history u m evs) (happen-Returns ev c h)
        (λ c1. history-Returns_with evs c1 h)

module _ {D : Type 0} ⦃f : Double D⦄ (u : Mju D) (m : Model D) where
  -- On a model that has a joint and an actuator under each of the robot's joint names, and a free
  -- joint, no history of calls and steps makes the controller throw.
  pub history-Returns :
      (evs : List (Event D)) (c : Controller D) → HasRobot m → Returns (history u m evs c)
  history-Returns evs c h =
      let (map, built) = build-Returns m h in history-Returns_with u m map evs c built
