-- ===== src/Locomotion/Loader.antt =====
-- Reading config/locomotion.yaml and config/gains.yaml (`load_array` and the constructor of
-- mujoco/module/Locomotion/src/LocomotionController.cpp). A document is given as its values, and
-- has the section `fall`; an entry that is missing, or that does not convert, is `none`. With the
-- reaction of mujoco/module/Locomotion/src/Locomotion.cpp to startup.
use nusim.Base.{ℕ, ◌≡◌, sym, ◌≢◌, Option, none, some, List, [], ◌∷◌, or_default, take, pos}
use mathlib.Core.Option.{none-ne-some}
use Prim.Native.String.{String}
use nusim.Double.{Double, nought, unit}
use nusim.MuJoCo.{write_all}
use nusim.Robot.Joints.{joint_count}
use nusim.Robot.Pd.{PdController}
use nusim.Locomotion.Types.{Config}
use nusim.Locomotion.Controller.{Controller, create}

pub record LocomotionYaml (D : Type 0) : Type 0 where
  pub prepare_blend_time : Option D
  pub falling_tilt : Option D
  pub fallen_tilt : Option D
  pub falling_gyro : Option D
  pub fallen_height : Option D
  pub initial_mode : Option String

pub record ArraysYaml (D : Type 0) : Type 0 where
  pub ready_pose : Option (List D)
  pub kp : Option (List D)
  pub kd : Option (List D)

-- Two log lines, and the message with the controller.
pub data StartupEffect : Type 0 where
  failed_to_build handle_emitted locomotion_ready : StartupEffect

module _ {D : Type 0} ⦃f : Double D⦄ where
  open f use {dec}

  unfoldable pub load_array : Option (List D) → ℕ → D
  load_array none = λ i. nought
  load_array (some values) = write_all (λ i. nought) 0 (take joint_count values)

  unfoldable pub load_gains : ArraysYaml D → PdController D
  load_gains gains_cfg = record { kp = load_array gains_cfg.kp; kd = load_array gains_cfg.kd }

  unfoldable pub load_settings : LocomotionYaml D → ArraysYaml D → Config D
  load_settings locomotion_cfg gains_cfg = record {
    prepare_blend_time = or_default locomotion_cfg.prepare_blend_time unit;
    falling_tilt = or_default locomotion_cfg.falling_tilt (dec (pos 35) 2);
    fallen_tilt = or_default locomotion_cfg.fallen_tilt unit;
    falling_gyro = or_default locomotion_cfg.falling_gyro unit;
    fallen_height = or_default locomotion_cfg.fallen_height (dec (pos 35) 2);
    ready_pose = load_array gains_cfg.ready_pose;
    pd = load_gains gains_cfg;
  }

  -- The constructor, `none` for its exception.
  unfoldable pub construct : LocomotionYaml D → ArraysYaml D → Option (Controller D)
  construct locomotion_cfg gains_cfg =
      create (load_settings locomotion_cfg gains_cfg)
        (or_default locomotion_cfg.initial_mode "prepare")

  -- on<Startup>: the controller, if any, and what the others learn of it.
  unfoldable pub start_locomotion :
      LocomotionYaml D → ArraysYaml D → Option (Controller D) × List StartupEffect
  start_locomotion locomotion_cfg gains_cfg = elim (construct locomotion_cfg gains_cfg) [
    | none ↦ (none, failed_to_build ∷ [])
    | some c ↦ (some c, handle_emitted ∷ locomotion_ready ∷ [])
  ]

  -- Without an initial mode in the document the controller is built.
  pub construct-default :
      (y : LocomotionYaml D) (g : ArraysYaml D) → y.initial_mode ≡ none → construct y g ≢ none
  unfolding construct create
  construct-default y g h = rw h (λ e. none-ne-some _ (sym e))
