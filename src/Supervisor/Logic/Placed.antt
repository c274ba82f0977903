-- ===== src/Supervisor/Logic/Placed.antt =====
-- Where the supervisor puts the robots.
use nusim.Base.{
  ℕ, zero, suc, ◌+◌, ◌<◌, ◌≡◌, refl, ap, inl, inr, true, Option, some, List, [], ◌∷◌, ◌++◌, arith,
  ◌==◌, if◌then◌else◌, Bool-cases, get_elem?, replicate, pos,
}
use nusim.Double.{Double, nought}
use nusim.MuJoCo.{Model, Data, Kind, JointType, write_all-at}
use nusim.Supervisor.Packet.{GameControllerPacket, unpenalised}
use nusim.Supervisor.Placement.{set_pose, yaw_to_quat, is_free, place_free_body}
use nusim.Supervisor.Config.{Pose3, RobotConfig}
use nusim.Supervisor.Logic.{
  Work, info, penalised, returned, push, move_robot, penalty_change, apply_robot,
}

module _ {D : Type 0} ⦃f : Double D⦄ (m : Model D) where
  -- A body of the model with one joint, which is free.
  pub record IsFreeBody (b : ℕ) : Type 0 where
    pub exists : b < m.nbody
    pub one_joint : m.body_jntnum b ≡ 1
    pub joint_free : m.jnt_type (m.body_jntadr b) ≡ JointType.free

  -- A position, and half the yaw as the quaternion w, x, y, z of a turn about the z axis.
  abbrev pub entries_of : D → D → D → D → List D
  entries_of x y z yaw =
      let half = f.mul (f.dec (pos 5) 1) yaw in
      x ∷ y ∷ z ∷ f.cos half ∷ nought ∷ nought ∷ f.sin half ∷ []

  -- At rest in a pose: the seven entries of `qpos` are its position and its yaw as a quaternion,
  -- the six of `qvel` are zero.
  pub record StandsAt (d : Data D) (b : ℕ) (x y z yaw : D) : Type 0 where
    pub pose :
        (k : ℕ) (v : D)
        → get_elem? (entries_of x y z yaw) k ≡ some v
        → d.qpos (m.jnt_qposadr (m.body_jntadr b) + k) ≡ v
    pub rest : (k : ℕ) → k < 6 → d.qvel (m.jnt_dofadr (m.body_jntadr b) + k) ≡ nought

  get_elem?-replicate : (n k : ℕ) (v : D) → k < n → get_elem? (replicate n v) k ≡ some v
  get_elem?-replicate zero k v h = elim h [ ]
  get_elem?-replicate (suc n) zero v h = refl
  get_elem?-replicate (suc n) (suc k) v h = get_elem?-replicate n k v (omega arith)

  pub place_free_body-set_pose :
      (d : Data D) (b : ℕ) (x y z yaw : D)
      → IsFreeBody b
      → place_free_body m d (pos b) x y z yaw ≡ (set_pose m d (m.body_jntadr b) x y z yaw, true)
  unfolding place_free_body is_free
  place_free_body-set_pose d b x y z yaw h = ground (arith, h.exists)

  pub set_pose-StandsAt :
      (d : Data D) (b : ℕ) (x y z yaw : D)
      → StandsAt (set_pose m d (m.body_jntadr b) x y z yaw) b x y z yaw
  unfolding set_pose yaw_to_quat
  set_pose-StandsAt d b x y z yaw = record {
    pose =
        λ k v e. write_all-at d.qpos (m.jnt_qposadr (m.body_jntadr b)) (entries_of x y z yaw) k v e;
    rest = λ k h.
        write_all-at d.qvel (m.jnt_dofadr (m.body_jntadr b)) (replicate 6 nought) k nought
          (get_elem?-replicate 6 k nought h);
  }

  -- Home for a robot that is back in play, the side line for any other.
  abbrev pub target : RobotConfig D → ℕ → Pose3 D
  target rc ps = if ps == unpenalised then rc.home_pose else rc.penalty_pose

  move_robot-set_pose :
      (rc : RobotConfig D) (w : Work D) (b ps : ℕ)
      → m.name2id Kind.body rc.body ≡ pos b
      → IsFreeBody b
      → let at = target rc ps in
        move_robot m rc ps w
        ≡ push
            (info (if ps == unpenalised then returned rc.body else penalised rc.body ps))
            (record w { sim = set_pose m w.sim (m.body_jntadr b) at.x at.y at.z at.yaw })
  unfolding move_robot
  move_robot-set_pose rc w b ps n free = elim (Bool-cases (ps == unpenalised)) [
    | inl back ↦
        rw (n, move_robot)
          (rw back (
            ap (λ r. push (info (returned rc.body)) (record w { sim = r.0 }))
              (place_free_body-set_pose w.sim b rc.home_pose.x rc.home_pose.y rc.home_pose.z
                rc.home_pose.yaw free)))
    | inr out ↦
        rw (n, move_robot)
          (rw out (
            ap (λ r. push (info (penalised rc.body ps)) (record w { sim = r.0 }))
              (place_free_body-set_pose w.sim b rc.penalty_pose.x rc.penalty_pose.y
                rc.penalty_pose.z rc.penalty_pose.yaw free)))
  ]

  -- Let a managed robot's body be in the model, with one joint, which is free. A packet that changes
  -- its penalty state leaves it at rest, in its home pose if it is unpenalised now and in its penalty
  -- pose otherwise, and the move is logged.
  pub apply_robot-StandsAt :
      (prev : Option GameControllerPacket) (p : GameControllerPacket) (rc : RobotConfig D)
      (w : Work D) (b ps : ℕ)
      → m.name2id Kind.body rc.body ≡ pos b
      → IsFreeBody b
      → penalty_change prev p rc ≡ some ps
      → let w' = apply_robot m prev p rc w in
        let at = target rc ps in
        StandsAt w'.sim b at.x at.y at.z at.yaw
        × (w'.actions
            ≡ w.actions
              ++ (info (if ps == unpenalised then returned rc.body else penalised rc.body ps) ∷ []))
  unfolding apply_robot push
  apply_robot-StandsAt prev p rc w b ps n free e =
      rw (e, apply_robot)
        (rw (move_robot-set_pose rc w b ps n free) (
          set_pose-StandsAt w.sim b (target rc ps).x (target rc ps).y (target rc ps).z
              (target rc ps).yaw,
          refl,
        ))
