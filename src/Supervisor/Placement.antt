-- ===== src/Supervisor/Placement.antt =====
-- Moving a free-jointed body (mujoco/module/Supervisor/src/SupervisorPlacement.hpp). A call gives
-- the data afterwards and what it returns. The model and the data are values here, so the tests
-- for a null pointer have no counterpart: `Supervisor` makes them before it calls.
use nusim.Base.{
  ℕ, ◌+◌, ◌*◌, Bool, true, false, not, List, [], ◌∷◌, leb, ◌==◌, if◌then◌else◌, replicate, ℤ, pos,
  negsuc, ◌==ℤ◌,
}
use nusim.Double.{Double, nought}
use nusim.MuJoCo.{Model, Data, JointType, write_all}

unfoldable pub is_free : JointType → Bool
is_free JointType.free = true
is_free _ = false

module _ {D : Type 0} ⦃f : Double D⦄ where
  open f use {mul, sub, cos, sin, dec}

  unfoldable pub yaw_to_quat : D → List D
  yaw_to_quat yaw = let half = mul (dec (pos 5) 1) yaw in cos half ∷ nought ∷ nought ∷ sin half ∷ []

  -- The write of the pose, once the body's joint is known.
  unfoldable pub set_pose : Model D → Data D → ℕ → D → D → D → D → Data D
  unfolding yaw_to_quat
  set_pose m d jnt x y z yaw = record d {
    qpos = write_all d.qpos (m.jnt_qposadr jnt) (x ∷ y ∷ z ∷ yaw_to_quat yaw);
    qvel = write_all d.qvel (m.jnt_dofadr jnt) (replicate 6 nought);
  }

  unfoldable pub place_free_body : Model D → Data D → ℤ → D → D → D → D → Data D × Bool
  place_free_body m d (negsuc _) x y z yaw = (d, false)
  place_free_body m d (pos body_id) x y z yaw =
      if leb m.nbody body_id
      then (d, false)
      else if not (m.body_jntnum body_id == 1)
      then (d, false)
      else let jnt = m.body_jntadr body_id in
        if not (is_free (m.jnt_type jnt)) then (d, false) else (set_pose m d jnt x y z yaw, true)

  unfoldable pub place_free_body_by_geom_center :
      Model D → Data D → ℤ → ℤ → D → D → D → Data D × Bool
  place_free_body_by_geom_center m d body_id (negsuc _) x y z = (d, false)
  place_free_body_by_geom_center m d body_id (pos geom_id) x y z =
      if leb m.ngeom geom_id
      then (d, false)
      else if not (pos (m.geom_bodyid geom_id) ==ℤ body_id)
      then (d, false)
      else let ox = m.geom_pos (3 * geom_id + 0) in
        let oy = m.geom_pos (3 * geom_id + 1) in
        let oz = m.geom_pos (3 * geom_id + 2) in
        place_free_body m d body_id (sub x ox) (sub y oy) (sub z oz) nought
