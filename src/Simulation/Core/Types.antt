-- ===== src/Simulation/Core/Types.antt =====
-- The configuration and the state of a core (mujoco/module/Simulation/src/SimCore.hpp), and MuJoCo's
-- functions on data.
use nusim.Base.{ℕ, Bool, Option, List, ℤ}
use Prim.Native.String.{String}
use nusim.MuJoCo.{Model, Data}
use nusim.Robot.ModelMap.{ModelMap}
use nusim.Robot.Pd.{PdController}

pub record Engine (D : Type 0) : Type 0 where
  -- mj_makeData, `none` for a null pointer
  pub make_data : Model D → Option (Data D)
  pub reset_data : Model D → Data D → Data D
  pub reset_keyframe : Model D → Data D → ℕ → Data D
  pub forward : Model D → Data D → Data D
  pub mj_step : Model D → Data D → Data D
  -- snprintf's "%02d"
  pub format_02d : ℕ → String

pub record Surface (D : Type 0) : Type 0 where
  pub enabled : Bool
  pub friction : D
  pub solref_timeconst : D
  pub solref_dampratio : D

pub record Spawn (D : Type 0) : Type 0 where
  pub x : D
  pub y : D
  pub yaw : D

pub record SimConfig (D : Type 0) : Type 0 where
  pub model_path : String
  pub initial_keyframe : String
  pub robots : ℤ
  pub spawns : List (Spawn D)
  pub rtf : D
  pub state_publish_divisor : ℤ
  pub resync_threshold : D
  pub foot_log_path : String
  pub surface : Surface D
  pub pd : PdController D
  pub ready_pose_fallback : ℕ → D

-- A core whose model is loaded.
pub record SimCore (D : Type 0) : Type 0 where
  pub cfg : SimConfig D
  pub model : Model D
  pub data_ : Data D
  pub reset_key : ℤ
  pub map : ModelMap
  pub ready_target : ℕ → D
  pub extra_maps : List ModelMap
  pub head_body_id : ℤ

pub record SpawnPose (D : Type 0) : Type 0 where
  pub x : D
  pub y : D
  pub z : D
  pub yaw : D
