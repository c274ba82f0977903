-- ===== src/Simulation/Core/Placing.antt =====
-- What a placement changes, and what it leaves.
use nusim.Base.{
  ℕ, suc, ◌≡◌, refl, ap, ◌∙◌, ◌≢◌, List, [], ◌∷◌, map, arith, replicate, All, count_up, pos_part,
}
use mathlib.Core.List.{map as list_map}
use nusim.Double.{Double, nought, two}
use nusim.MuJoCo.{Model, Data, write, Outside, write_all-Outside}
use nusim.Robot.Joints.{joint_count}
use nusim.Robot.ModelMap.{ModelMap}
use nusim.Robot.Pd.{for_joints}
use nusim.Simulation.Core.{
  SimConfig, SpawnPose, spawn_pose, place_extra, place_extras, place_game, place_robots,
}

-- `qpos[i]` and `qvel[j]` are none of a copy's entries.
pub record IsApart (i j : ℕ) (em : ModelMap) : Type 0 where
  pub root_qpos : Outside (pos_part em.root_qpos_adr) 7 i
  pub root_dof : Outside (pos_part em.root_dof_adr) 6 j
  pub joints_qpos : All (λ n. em.qpos_adr n ≢ i) (count_up 0 joint_count)
  pub joints_dof : All (λ n. em.dof_adr n ≢ j) (count_up 0 joint_count)

module _ {D : Type 0} ⦃f : Double D⦄ (i j : ℕ) where
  abbrev pub Same : Data D → Data D → Type 0
  Same d d' = (d'.qpos i ≡ d.qpos i) × (d'.qvel j ≡ d.qvel j)

  pub joints-Same :
      (ready : ℕ → D) (em : ModelMap) (ns : List ℕ) (d : Data D)
      → All (λ n. em.qpos_adr n ≢ i) ns
      → All (λ n. em.dof_adr n ≢ j) ns
      → Same d (
          for_joints ns
            (λ n e. record e {
              qpos = write e.qpos (em.qpos_adr n) (ready n);
              qvel = write e.qvel (em.dof_adr n) nought;
            })
            d)
  unfolding for_joints
  joints-Same ready em [] d h k = (refl, refl)
  joints-Same ready em (n ∷ ns) d h k =
      let e : Data D = record d {
        qpos = write d.qpos (em.qpos_adr n) (ready n);
        qvel = write d.qvel (em.dof_adr n) nought;
      } in
      let (q, v) = joints-Same ready em ns e h.1 k.1 in
      (q ∙ ground (arith, h.0), v ∙ ground (arith, k.0))

  place_extra-Same :
      (ready : ℕ → D) (pose : SpawnPose D) (em : ModelMap) (d : Data D)
      → IsApart i j em
      → Same d (place_extra ready pose em d)
  unfolding place_extra
  place_extra-Same ready pose em d h =
      let (q, v) = joints-Same ready em (count_up 0 joint_count) _ h.joints_qpos h.joints_dof in
      (
        q
            ∙ write_all-Outside d.qpos (pos_part em.root_qpos_adr)
                (pose.x
                  ∷ pose.y
                  ∷ pose.z
                  ∷ f.cos (f.div pose.yaw two)
                  ∷ nought
                  ∷ nought
                  ∷ f.sin (f.div pose.yaw two)
                  ∷ [])
                i h.root_qpos,
        v ∙ write_all-Outside d.qvel (pos_part em.root_dof_adr) (replicate 6 nought) j h.root_dof,
      )

  pub place_extras-Same :
      (cfg : SimConfig D) (ready : ℕ → D) (k : ℕ) (ems : List ModelMap) (d : Data D)
      → All (IsApart i j) ems
      → Same d (place_extras cfg ready k ems d)
  unfolding place_extras
  place_extras-Same cfg ready k [] d h = (refl, refl)
  place_extras-Same cfg ready k (em ∷ ems) d h =
      let (q, v) = place_extra-Same ready (spawn_pose cfg k) em d h.0 in
      let (q1, v1) = place_extras-Same cfg ready (suc k) ems _ h.1 in (q1 ∙ q, v1 ∙ v)

  -- Without a game, placing moves the copies only: an entry of `qpos` and one of `qvel` that belong
  -- to no copy keep their values, the main robot's and the ball's among them.
  pub place_robots-Same :
      (m : Model D) (cfg : SimConfig D) (map : ModelMap) (ready : ℕ → D) (ems : List ModelMap)
      (d : Data D)
      → cfg.spawns ≡ []
      → All (IsApart i j) ems
      → Same d (place_robots m cfg map ready ems d)
  unfolding place_robots place_game
  place_robots-Same m cfg map ready ems d none_given h =
      let (q, v) = place_extras-Same cfg ready 1 ems (place_game m cfg map d) h in
      (q ∙ ap (λ (x : Data D). x.qpos i) no_game, v ∙ ap (λ (x : Data D). x.qvel j) no_game)
    where
      no_game : place_game m cfg map d ≡ d
      no_game = rw (none_given, place_game) refl
