-- ===== src/Simulation/Core/Copies.antt =====
-- Where the copies of the robot end up.
use nusim.Base.{
  ℕ, zero, suc, ◌+◌, ◌<◌, ◌≡◌, refl, ◌∙◌, subst, ◌≢◌, some, List, [], ◌∷◌, ◌++◌, arith, length,
  get_elem?, replicate, All, count_up, pos_part,
}
use nusim.Double.{Double, nought, two}
use nusim.MuJoCo.{Data, write_all-at}
use nusim.Robot.Joints.{joint_count}
use nusim.Robot.ModelMap.{ModelMap}
use nusim.Simulation.Core.{SimConfig, SpawnPose, spawn_pose, place_extra, place_extras}
use nusim.Simulation.Core.Placing.{IsApart, joints-Same, place_extras-Same}

-- The copy's joints have their entries elsewhere than its root.
pub record IsSeparate (em : ModelMap) : Type 0 where
  pub qpos_apart :
      (k : ℕ)
      → k < 7
      → All (λ n. em.qpos_adr n ≢ pos_part em.root_qpos_adr + k) (count_up 0 joint_count)
  pub dof_apart :
      (l : ℕ)
      → l < 6
      → All (λ n. em.dof_adr n ≢ pos_part em.root_dof_adr + l) (count_up 0 joint_count)

-- The other copies do not touch a copy's root.
abbrev pub AllApart : ModelMap → List ModelMap → Type 0
AllApart em ems =
    (k l : ℕ)
    → k < 7
    → l < 6
    → All (IsApart (pos_part em.root_qpos_adr + k) (pos_part em.root_dof_adr + l)) ems

module _ {D : Type 0} ⦃f : Double D⦄ where
  -- The seven entries of a free joint in a pose: position, then the yaw as a quaternion.
  abbrev pub pose_entries : SpawnPose D → List D
  pose_entries p =
      p.x ∷ p.y ∷ p.z ∷ f.cos (f.div p.yaw two) ∷ nought ∷ nought ∷ f.sin (f.div p.yaw two) ∷ []

  -- A copy's root at rest in a pose.
  pub record Stands (em : ModelMap) (p : SpawnPose D) (d : Data D) : Type 0 where
    pub pose :
        (k : ℕ) (v : D)
        → get_elem? (pose_entries p) k ≡ some v
        → d.qpos (pos_part em.root_qpos_adr + k) ≡ v
    pub rest : (l : ℕ) → l < 6 → d.qvel (pos_part em.root_dof_adr + l) ≡ nought

  replicate-at : (n l : ℕ) (v : D) → l < n → get_elem? (replicate n v) l ≡ some v
  replicate-at zero l v h = elim h [ ]
  replicate-at (suc n) zero v h = refl
  replicate-at (suc n) (suc l) v h = replicate-at n l v (omega arith)

  seven : (p : SpawnPose D) (k : ℕ) (v : D) → get_elem? (pose_entries p) k ≡ some v → k < 7
  seven p zero v e = omega arith
  seven p (suc zero) v e = omega arith
  seven p (suc (suc zero)) v e = omega arith
  seven p (suc (suc (suc zero))) v e = omega arith
  seven p (suc (suc (suc (suc zero)))) v e = omega arith
  seven p (suc (suc (suc (suc (suc zero))))) v e = omega arith
  seven p (suc (suc (suc (suc (suc (suc zero)))))) v e = omega arith
  seven p (suc (suc (suc (suc (suc (suc (suc k))))))) v e = cc

  place_extra-Stands :
      (ready : ℕ → D) (p : SpawnPose D) (em : ModelMap) (d : Data D)
      → IsSeparate em
      → Stands em p (place_extra ready p em d)
  unfolding place_extra
  place_extra-Stands ready p em d h = record {
    pose = λ k v e.
        (joints-Same (pos_part em.root_qpos_adr + k) (pos_part em.root_dof_adr + 0) ready em
          (count_up 0 joint_count) _ (h.qpos_apart k (seven p k v e))
          (h.dof_apart 0 (omega arith))).0
        ∙ write_all-at d.qpos (pos_part em.root_qpos_adr) (pose_entries p) k v e;
    rest = λ l lt.
        (joints-Same (pos_part em.root_qpos_adr + 0) (pos_part em.root_dof_adr + l) ready em
          (count_up 0 joint_count) _ (h.qpos_apart 0 (omega arith)) (h.dof_apart l lt)).1
        ∙ write_all-at d.qvel (pos_part em.root_dof_adr) (replicate 6 nought) l nought
            (replicate-at 6 l nought lt);
  }

  later-Stands :
      (cfg : SimConfig D) (ready : ℕ → D) (k : ℕ) (em : ModelMap) (ems : List ModelMap)
      (p : SpawnPose D) (d : Data D)
      → AllApart em ems
      → Stands em p d
      → Stands em p (place_extras cfg ready k ems d)
  later-Stands cfg ready k em ems p d apart h = record {
    pose = λ n v e.
        (place_extras-Same (pos_part em.root_qpos_adr + n) (pos_part em.root_dof_adr + 0) cfg ready
          k ems d (apart n 0 (seven p n v e) (omega arith))).0
        ∙ h.pose n v e;
    rest = λ l lt.
        (place_extras-Same (pos_part em.root_qpos_adr + 0) (pos_part em.root_dof_adr + l) cfg ready
          k ems d (apart 0 l (omega arith) lt)).1
        ∙ h.rest l lt;
  }

  -- Placing the copies puts each of them at rest at the spawn pose of its own number, if its joints'
  -- entries and those of the copies after it are none of its root's.
  pub place_extras-Stands :
      (cfg : SimConfig D) (ready : ℕ → D) (k : ℕ) (before : List ModelMap) (em : ModelMap)
      (after : List ModelMap) (d : Data D)
      → IsSeparate em
      → AllApart em after
      → Stands em
          (spawn_pose cfg (length before + k))
          (place_extras cfg ready k (before ++ (em ∷ after)) d)
  unfolding place_extras
  place_extras-Stands cfg ready k [] em after d h apart =
      subst
        (λ n.
          Stands em (spawn_pose cfg n)
            (place_extras cfg ready (suc k) after (place_extra ready (spawn_pose cfg k) em d)))
        (omega arith)
        (later-Stands cfg ready (suc k) em after (spawn_pose cfg k)
          (place_extra ready (spawn_pose cfg k) em d) apart
          (place_extra-Stands ready (spawn_pose cfg k) em d h))
  place_extras-Stands cfg ready k (other ∷ before) em after d h apart =
      let d1 = place_extra ready (spawn_pose cfg k) other d in
      subst
        (λ n.
          Stands em (spawn_pose cfg n) (place_extras cfg ready (suc k) (before ++ (em ∷ after)) d1))
        (omega arith) (place_extras-Stands cfg ready (suc k) before em after d1 h apart)
