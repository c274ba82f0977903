-- ===== src/Camera/PoseWriter.antt =====
-- The shared-memory head pose (mujoco/module/Camera/src/SharedPoseWriter.hpp and .cpp). Writer and
-- reader hold its mutex, so a publication is one step.
use nusim.Base.{ℕ, ◌+◌, ◌%◌, ◌^◌, [], ◌∷◌, get_or}
use nusim.Double.{Double, nought, unit}

-- SharedPoseHeader, without the mutex and the condition; the orientation is x, y, z, w.
pub record SharedPose (D : Type 0) : Type 0 where
  pub magic : ℕ
  pub version : ℕ
  pub sequence : ℕ
  pub position : ℕ → D
  pub orientation : ℕ → D

-- "NBPO"
abbrev pub magic_number : ℕ
magic_number = 0x4E42504F

module _ {D : Type 0} ⦃f : Double D⦄ where
  -- As the constructor leaves it.
  unfoldable pub new_pose : SharedPose D
  new_pose = record {
    magic = magic_number;
    version = 1;
    sequence = 0;
    position = λ i. nought;
    orientation = λ i. get_or (nought ∷ nought ∷ nought ∷ unit ∷ []) i nought;
  }

  unfoldable pub publish_pose : (ℕ → D) → (ℕ → D) → SharedPose D → SharedPose D
  publish_pose position orientation_xyzw header = record header {
    position = position;
    orientation = orientation_xyzw;
    sequence = (header.sequence + 1) % 2 ^ 64;
  }
