-- ===== src/Supervisor/Logic/Ball.antt =====
-- Where the supervisor puts the ball.
use nusim.Base.{
  ℕ, zero, suc, ◌+◌, ◌*◌, ◌<◌, ◌≡◌, ◌∙◌, Bool, true, false, ◌&&◌, Option, some, List, [], ◌∷◌,
  arith, if◌then◌else◌, length, get_elem?, All, pos,
}
use nusim.Double.{Double, nought}
use nusim.MuJoCo.{Model, Data, Kind}
use nusim.Supervisor.Packet.{GameControllerPacket}
use nusim.Supervisor.Placement.{set_pose, place_free_body_by_geom_center}
use nusim.Supervisor.Config.{BallConfig, RobotConfig, SupervisorConfig}
use nusim.Supervisor.Logic.{
  SupervisorLogic, Work, push, place_ball, ball_height, apply_robots, center_ball, moves, process,
}
use nusim.Supervisor.Logic.Frame.{FarFromNamed, Kept, apply_robots-Kept}
use nusim.Supervisor.Logic.Placed.{
  IsFreeBody, StandsAt, entries_of, set_pose-StandsAt, place_free_body-set_pose,
}

module _ {D : Type 0} ⦃f : Double D⦄ (m : Model D) where
  -- The ball and its geom, as the configuration names them.
  pub record IsBall (ball : BallConfig D) (b g : ℕ) : Type 0 where
    pub body_named : m.name2id Kind.body ball.body ≡ pos b
    pub geom_named : m.name2id Kind.geom ball.geom ≡ pos g
    pub free : IsFreeBody m b
    pub geom_exists : g < m.ngeom
    pub geom_of : m.geom_bodyid g ≡ b

  -- Where the ball's body goes: its geom's centre is then at the configured spot.
  abbrev pub BallStands : BallConfig D → Data D → ℕ → ℕ → Type 0
  BallStands ball d b g =
      StandsAt m d b (f.sub ball.x (m.geom_pos (3 * g + 0))) (f.sub ball.y (m.geom_pos (3 * g + 1)))
        (f.sub (if f.lt ball.z nought then m.geom_size (3 * g + 0) else ball.z)
          (m.geom_pos (3 * g + 2)))
        nought

  place_by_geom-set_pose :
      (d : Data D) (b g : ℕ) (x y z : D)
      → IsFreeBody m b
      → g < m.ngeom
      → m.geom_bodyid g ≡ b
      → place_free_body_by_geom_center m d (pos b) (pos g) x y z ≡ (
        set_pose m d
            (m.body_jntadr b)
            (f.sub x (m.geom_pos (3 * g + 0)))
            (f.sub y (m.geom_pos (3 * g + 1)))
            (f.sub z (m.geom_pos (3 * g + 2)))
            nought,
        true,
      )
  unfolding place_free_body_by_geom_center
  place_by_geom-set_pose d b g x y z free e o = ground (
    arith,
    place_free_body-set_pose m d b (f.sub x (m.geom_pos (3 * g + 0)))
        (f.sub y (m.geom_pos (3 * g + 1))) (f.sub z (m.geom_pos (3 * g + 2))) nought free,
  )

  place_ball-StandsAt :
      (ball : BallConfig D) (w : Work D) (b g : ℕ)
      → IsBall ball b g
      → BallStands ball (place_ball m ball w).sim b g
  unfolding place_ball push ball_height
  place_ball-StandsAt ball w b g h =
      rw (h.body_named, place_ball)
        (rw h.geom_named (
          rw
            (place_by_geom-set_pose w.sim b g ball.x ball.y (ball_height m ball g) h.free
              h.geom_exists h.geom_of)
            (set_pose-StandsAt m w.sim b (f.sub ball.x (m.geom_pos (3 * g + 0)))
              (f.sub ball.y (m.geom_pos (3 * g + 1)))
              (f.sub (ball_height m ball g) (m.geom_pos (3 * g + 2))) nought)))

  get_elem?-lt :
      {A : Type 0} (xs : List A) (k : ℕ) (v : A) → get_elem? xs k ≡ some v → k < length xs
  get_elem?-lt [] k v e = cc
  get_elem?-lt (x ∷ xs) zero v e = omega arith
  get_elem?-lt (x ∷ xs) (suc k) v e = omega (arith, get_elem?-lt xs k v e)

  -- None of these robots shares the entries of body `b`.
  abbrev pub AllApart : List (RobotConfig D) → ℕ → Type 0
  AllApart rcs b =
      (k l : ℕ)
      → k < 7
      → l < 6
      → All
          (λ (rc : RobotConfig D).
            FarFromNamed m (m.jnt_qposadr (m.body_jntadr b) + k)
              (m.jnt_dofadr (m.body_jntadr b) + l) rc.body)
          rcs

  -- No managed robot does.
  abbrev pub RobotsApart : SupervisorConfig D → ℕ → Type 0
  RobotsApart cfg b = AllApart cfg.robots b

  pub apply_robots-StandsAt :
      (prev : Option GameControllerPacket) (p : GameControllerPacket) (rcs : List (RobotConfig D))
      (w : Work D) (b : ℕ) (x y z yaw : D)
      → AllApart rcs b
      → StandsAt m w.sim b x y z yaw
      → StandsAt m (apply_robots m prev p rcs w).sim b x y z yaw
  apply_robots-StandsAt prev p rcs w b x y z yaw apart h = record {
    pose = λ k v e.
        (apply_robots-Kept m (m.jnt_qposadr (m.body_jntadr b) + k)
          (m.jnt_dofadr (m.body_jntadr b) + 0) prev p rcs w
          (apart k 0 (get_elem?-lt (entries_of m x y z yaw) k v e) (omega arith))).0
        ∙ h.pose k v e;
    rest = λ l lt.
        (apply_robots-Kept m (m.jnt_qposadr (m.body_jntadr b) + 0)
          (m.jnt_dofadr (m.body_jntadr b) + l) prev p rcs w (apart 0 l (omega arith) lt)).1
        ∙ h.rest l lt;
  }

  moves-BallStands :
      (cfg : SupervisorConfig D) (prev : Option GameControllerPacket) (p : GameControllerPacket)
      (w : Work D) (b g : ℕ) (t : Bool)
      → IsBall cfg.ball b g
      → RobotsApart cfg b
      → t ≡ true
      → BallStands cfg.ball
          (apply_robots m prev p cfg.robots (if t then place_ball m cfg.ball w else w)).sim
          b
          g
  moves-BallStands cfg prev p w b g true ball apart e =
      apply_robots-StandsAt prev p cfg.robots (place_ball m cfg.ball w) b _ _ _ _ apart
        (place_ball-StandsAt cfg.ball w b g ball)
  moves-BallStands cfg prev p w b g false ball apart e = cc

  pub process-BallStands :
      (s : SupervisorLogic D) (d : Data D) (p : GameControllerPacket) (b g : ℕ)
      → IsBall s.cfg.ball b g
      → s.cfg.ball.enabled ≡ true
      → RobotsApart s.cfg b
      → center_ball s.cfg s.prev p ≡ true
      → BallStands s.cfg.ball (process s m d p).1 b g
  unfolding process moves
  process-BallStands s d p b g ball on apart c =
      moves-BallStands s.cfg s.prev p _ b g _ ball apart
        (centred (center_ball s.cfg s.prev p) s.cfg.ball.enabled c on)
    where
      centred : (x y : Bool) → x ≡ true → y ≡ true → (x && y) ≡ true
      centred x y h k = ground arith

  -- A packet that does not call for an enabled ball to be centred leaves the seven position and six velocity
  -- entries of its joint as they are, if it shares none of them with a managed robot.
  pub process-BallKept :
      (s : SupervisorLogic D) (d : Data D) (p : GameControllerPacket) (b k l : ℕ)
      → RobotsApart s.cfg b
      → (center_ball s.cfg s.prev p && s.cfg.ball.enabled) ≡ false
      → k < 7
      → l < 6
      → Kept m
          (m.jnt_qposadr (m.body_jntadr b) + k)
          (m.jnt_dofadr (m.body_jntadr b) + l)
          d
          (process s m d p).1
  unfolding process moves
  process-BallKept s d p b k l apart c hk hl =
      rw c (apply_robots-Kept m _ _ s.prev p s.cfg.robots _ (apart k l hk hl))
