-- ===== src/Supervisor/Logic/Frame.antt =====
-- What the supervisor may move: the free joints of the ball and of the managed robots.
use nusim.Base.{
  ℕ, ◌+◌, ◌*◌, ◌≡◌, refl, ◌∙◌, Bool, true, false, ◌&&◌, Option, none, some, List, [], ◌∷◌, arith,
  if◌then◌else◌, replicate, All, ℤ, pos, negsuc, pos_part,
}
use Prim.Native.String.{String}
use nusim.Double.{Double, nought}
use nusim.MuJoCo.{Model, Data, Kind, Outside, write_all-Outside}
use nusim.Supervisor.Packet.{GameControllerPacket}
use nusim.Supervisor.Placement.{
  set_pose, yaw_to_quat, place_free_body, place_free_body_by_geom_center,
}
use nusim.Supervisor.Config.{BallConfig, RobotConfig, SupervisorConfig}
use nusim.Supervisor.Logic.{
  SupervisorLogic, Work, push, warn_once, place_ball, ball_height, move_robot, penalty_change,
  apply_robot, apply_robots, center_ball, moves, process, process_all,
}

module _ {D : Type 0} (m : Model D) (i j : ℕ) where
  -- `qpos[i]` and `qvel[j]` belong to no joint of the body: its entries are seven and six.
  abbrev pub FarFrom : ℤ → Type 0
  FarFrom (negsuc _) = Unit {0}
  FarFrom (pos b) =
      Outside (m.jnt_qposadr (m.body_jntadr b)) 7 i × Outside (m.jnt_dofadr (m.body_jntadr b)) 6 j

  abbrev pub FarFromNamed : String → Type 0
  FarFromNamed name = FarFrom (m.name2id Kind.body name)

  -- They belong neither to the ball nor to a managed robot.
  abbrev pub Unmanaged : SupervisorConfig D → Type 0
  Unmanaged cfg =
      FarFromNamed cfg.ball.body × All (λ (rc : RobotConfig D). FarFromNamed rc.body) cfg.robots

  abbrev pub Kept : Data D → Data D → Type 0
  Kept d d' = (d'.qpos i ≡ d.qpos i) × (d'.qvel j ≡ d.qvel j)

module _ {D : Type 0} ⦃f : Double D⦄ (m : Model D) (i j : ℕ) where
  set_pose-Kept :
      (d : Data D) (b : ℕ) (x y z yaw : D)
      → FarFrom m i j (pos b)
      → Kept m i j d (set_pose m d (m.body_jntadr b) x y z yaw)
  unfolding set_pose yaw_to_quat
  set_pose-Kept d b x y z yaw h = (
    write_all-Outside d.qpos (m.jnt_qposadr (m.body_jntadr b)) (x ∷ y ∷ z ∷ yaw_to_quat yaw) i h.0,
    write_all-Outside d.qvel (m.jnt_dofadr (m.body_jntadr b)) (replicate 6 nought) j h.1,
  )

  pub place_free_body-Kept :
      (d : Data D) (b : ℤ) (x y z yaw : D)
      → FarFrom m i j b
      → Kept m i j d (place_free_body m d b x y z yaw).0
  unfolding place_free_body
  place_free_body-Kept d (negsuc _) x y z yaw h = (refl, refl)
  place_free_body-Kept d (pos b) x y z yaw h = ground (arith, set_pose-Kept d b x y z yaw h)

  place_by_geom-Kept :
      (d : Data D) (b g : ℤ) (x y z : D)
      → FarFrom m i j b
      → Kept m i j d (place_free_body_by_geom_center m d b g x y z).0
  unfolding place_free_body_by_geom_center
  place_by_geom-Kept d b (negsuc _) x y z h = (refl, refl)
  place_by_geom-Kept d b (pos g) x y z h = ground (
    arith,
    place_free_body-Kept d b (f.sub x (m.geom_pos (3 * g + 0))) (f.sub y (m.geom_pos (3 * g + 1)))
        (f.sub z (m.geom_pos (3 * g + 2))) nought h,
  )

  move_robot-Kept :
      (rc : RobotConfig D) (ps : ℕ) (w : Work D)
      → FarFromNamed m i j rc.body
      → Kept m i j w.sim (move_robot m rc ps w).sim
  unfolding move_robot push warn_once
  move_robot-Kept rc ps w h =
      let b = m.name2id Kind.body rc.body in
      let home = rc.home_pose in
      let side = rc.penalty_pose in
      ground (
        arith,
        place_free_body-Kept w.sim b home.x home.y home.z home.yaw h,
        place_free_body-Kept w.sim b side.x side.y side.z side.yaw h,
      )

  pub apply_robots-Kept :
      (prev : Option GameControllerPacket) (p : GameControllerPacket) (rcs : List (RobotConfig D))
      (w : Work D)
      → All (λ (rc : RobotConfig D). FarFromNamed m i j rc.body) rcs
      → Kept m i j w.sim (apply_robots m prev p rcs w).sim
  unfolding apply_robots apply_robot
  apply_robots-Kept prev p [] w h = (refl, refl)
  apply_robots-Kept prev p (rc ∷ rcs) w h =
      let w' = apply_robot m prev p rc w in
      let (q, v) = apply_robots-Kept prev p rcs w' h.1 in
      let (q1, v1) = one (penalty_change prev p rc) refl in (q ∙ q1, v ∙ v1)
    where
      one :
          (c : Option ℕ)
          → penalty_change prev p rc ≡ c
          → Kept m i j w.sim (apply_robot m prev p rc w).sim
      one none e = rw (e, apply_robot) (refl, refl)
      one (some ps) e = rw (e, apply_robot) (move_robot-Kept rc ps w h.0)

  pub place_ball-Kept :
      (ball : BallConfig D) (w : Work D)
      → FarFromNamed m i j ball.body
      → Kept m i j w.sim (place_ball m ball w).sim
  unfolding place_ball push warn_once
  place_ball-Kept ball w h =
      let b = m.name2id Kind.body ball.body in
      let g = m.name2id Kind.geom ball.geom in
      ground (arith, place_by_geom-Kept w.sim b g ball.x ball.y (ball_height m ball (pos_part g)) h)

  moves-Kept :
      (cfg : SupervisorConfig D) (prev : Option GameControllerPacket) (p : GameControllerPacket)
      (w : Work D)
      → Unmanaged m i j cfg
      → Kept m i j w.sim (moves m cfg prev p w).sim
  unfolding moves
  moves-Kept cfg prev p w h = go (center_ball cfg prev p && cfg.ball.enabled)
    where
      go :
          (b : Bool)
          → Kept m i j w.sim
              (apply_robots m prev p cfg.robots (if b then place_ball m cfg.ball w else w)).sim
      go true =
          let (q, v) = apply_robots-Kept prev p cfg.robots (place_ball m cfg.ball w) h.1 in
          let (q1, v1) = place_ball-Kept cfg.ball w h.0 in (q ∙ q1, v ∙ v1)
      go false = apply_robots-Kept prev p cfg.robots w h.1

  -- No sequence of packets moves anything but the ball and the managed robots: an entry of `qpos`
  -- and one of `qvel` that belong to none of their joints keep their values.
  pub process_all-Kept :
      (s : SupervisorLogic D) (d : Data D) (ps : List GameControllerPacket)
      → Unmanaged m i j s.cfg
      → Kept m i j d (process_all s m d ps).1
  unfolding process_all process
  process_all-Kept s d [] h = (refl, refl)
  process_all-Kept s d (p ∷ ps) h =
      let r = process s m d p in
      let (q, v) = process_all-Kept r.0 r.1 ps h in
      let (q1, v1) = moves-Kept s.cfg s.prev p _ h in (q ∙ q1, v ∙ v1)
