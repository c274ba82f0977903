-- ===== src/Locomotion/Math.antt =====
-- The blend and the base's tilt (mujoco/module/Locomotion/src/LocoMath.hpp).
use nusim.Base.{ℕ, ◌+◌, [], ◌∷◌, map, get_or, pos, negsuc, pos_part}
use nusim.Double.{Double, clamp, nought, unit}
use nusim.MuJoCo.{Data, Mju}
use nusim.Robot.ModelMap.{ModelMap}

module _ {D : Type 0} ⦃f : Double D⦄ where
  open f use {add, sub, mul, dec}

  unfoldable pub smoothstep : D → D
  smoothstep t =
      let t' = clamp t nought unit in mul (mul t' t') (sub (dec (pos 3) 0) (mul (dec (pos 2) 0) t'))

  unfoldable pub lerp : D → D → D → D
  lerp a b t = add a (mul (sub b a) t)

  -- The base's z axis in the world, from its quaternion.
  unfoldable pub base_up_vector : Mju D → Data D → ModelMap → ℕ → D
  base_up_vector u d map =
      let quat = λ (k : ℕ). d.qpos (pos_part map.root_qpos_adr + 3 + k) in
      u.rot_vec_quat (λ k. get_or (nought ∷ nought ∷ unit ∷ []) k nought) quat

  unfoldable pub base_tilt : Mju D → Data D → ModelMap → D
  unfolding base_up_vector
  base_tilt u d map = f.acos (clamp (base_up_vector u d map 2) (dec (negsuc 0) 0) unit)
