-- ===== src/Supervisor/Logic/Moved.antt =====
-- The moves of the robots, in a whole packet.
use nusim.Base.{
  ℕ, ◌+◌, ◌<◌, ◌≡◌, refl, sym, ap, ◌∙◌, subst, ◌⊎◌, inl, inr, Bool, true, false, ◌&&◌, Option, none,
  List, [], ◌∷◌, ◌++◌, Option-cases, if◌then◌else◌, pos,
}
use mathlib.Core.Option.{none-ne-some}
use nusim.Double.{Double}
use nusim.MuJoCo.{Model, Data, Kind}
use nusim.Supervisor.Packet.{GameControllerPacket}
use nusim.Supervisor.Config.{RobotConfig, SupervisorConfig}
use nusim.Supervisor.Logic.{
  SupervisorLogic, Work, penalty_change, apply_robot, apply_robots, place_ball, center_ball,
  announcements, moves, process,
}
use nusim.Supervisor.Logic.Frame.{FarFromNamed, apply_robots-Kept, place_ball-Kept}
use nusim.Supervisor.Logic.Placed.{IsFreeBody, StandsAt, target, apply_robot-StandsAt}
use nusim.Supervisor.Logic.Ball.{AllApart, apply_robots-StandsAt}
use nusim.Supervisor.Logic.Centred.{JointKept}
use nusim.Supervisor.Logic.Penalties.{Changed, penalty_change-Changed, Changed-penalty_change}

module _ {D : Type 0} ⦃f : Double D⦄ (m : Model D) where
  apply_robots-append :
      (prev : Option GameControllerPacket) (p : GameControllerPacket) (xs ys : List (RobotConfig D))
      (w : Work D)
      → apply_robots m prev p (xs ++ ys) w ≡ apply_robots m prev p ys (apply_robots m prev p xs w)
  unfolding apply_robots
  apply_robots-append prev p [] ys w = refl
  apply_robots-append prev p (x ∷ xs) ys w =
      apply_robots-append prev p xs ys (apply_robot m prev p x w)

  -- The ball shares no entry with body `b`.
  abbrev pub BallApart : SupervisorConfig D → ℕ → Type 0
  BallApart cfg b =
      (k l : ℕ)
      → k < 7
      → l < 6
      → FarFromNamed m (m.jnt_qposadr (m.body_jntadr b) + k) (m.jnt_dofadr (m.body_jntadr b) + l)
          cfg.ball.body

  -- What may become of a robot in a packet: it stands in its home pose if it is unpenalised now and
  -- in its penalty pose otherwise, or it is left alone.
  abbrev pub Moved :
      Option GameControllerPacket
      → GameControllerPacket
      → RobotConfig D
      → ℕ
      → Data D
      → Data D
      → Type 0
  Moved prev p rc b d d' =
      ((ps : ℕ) × Changed prev p rc ps
        × StandsAt m d' b (target m rc ps).x (target m rc ps).y (target m rc ps).z
            (target m rc ps).yaw)
      ⊎ (((ps : ℕ) → ¬ Changed prev p rc ps) × JointKept m b d d')

  apply_robots-JointKept :
      (prev : Option GameControllerPacket) (p : GameControllerPacket) (rcs : List (RobotConfig D))
      (w : Work D) (b : ℕ)
      → AllApart m rcs b
      → JointKept m b w.sim (apply_robots m prev p rcs w).sim
  apply_robots-JointKept prev p rcs w b apart k l hk hl =
      apply_robots-Kept m _ _ prev p rcs w (apart k l hk hl)

  JointKept-trans :
      (b : ℕ) (d1 d2 d3 : Data D) → JointKept m b d1 d2 → JointKept m b d2 d3 → JointKept m b d1 d3
  JointKept-trans b d1 d2 d3 h h' k l hk hl =
      let (q, v) = h k l hk hl in let (q', v') = h' k l hk hl in (q' ∙ q, v' ∙ v)

  apply_robot-unmoved :
      (prev : Option GameControllerPacket) (p : GameControllerPacket) (rc : RobotConfig D)
      (w : Work D)
      → penalty_change prev p rc ≡ none
      → apply_robot m prev p rc w ≡ w
  unfolding apply_robot
  apply_robot-unmoved prev p rc w e = rw (e, apply_robot) refl

  -- A robot and those after it.
  rest-Moved :
      (prev : Option GameControllerPacket) (p : GameControllerPacket) (rc : RobotConfig D)
      (later : List (RobotConfig D)) (w : Work D) (b : ℕ)
      → m.name2id Kind.body rc.body ≡ pos b
      → IsFreeBody m b
      → AllApart m later b
      → Moved prev p rc b w.sim (apply_robots m prev p (rc ∷ later) w).sim
  unfolding apply_robots
  rest-Moved prev p rc later w b named free apart = elim (Option-cases (penalty_change prev p rc)) [
    | inl e ↦ inr (
      λ ps c. none-ne-some ps (sym e ∙ Changed-penalty_change prev p rc ps c),
      subst (λ w'. JointKept m b w.sim (apply_robots m prev p later w').sim)
          (sym (apply_robot-unmoved prev p rc w e)) (apply_robots-JointKept prev p later w b apart),
    )
    | inr (ps, e) ↦ inl (
      ps,
      penalty_change-Changed prev p rc ps e,
      apply_robots-StandsAt m prev p later (apply_robot m prev p rc w) b _ _ _ _ apart
          (apply_robot-StandsAt m prev p rc w b ps named free e).0,
    )
  ]

  Moved-after :
      (prev : Option GameControllerPacket) (p : GameControllerPacket) (rc : RobotConfig D) (b : ℕ)
      (d1 d2 d3 : Data D)
      → JointKept m b d1 d2
      → Moved prev p rc b d2 d3
      → Moved prev p rc b d1 d3
  Moved-after prev p rc b d1 d2 d3 h (inl x) = inl x
  Moved-after prev p rc b d1 d2 d3 h (inr x) = inr (x.0, JointKept-trans b d1 d2 d3 h x.1)

  ball-JointKept :
      (cfg : SupervisorConfig D) (t : Bool) (w : Work D) (b : ℕ)
      → BallApart cfg b
      → JointKept m b w.sim (if t then place_ball m cfg.ball w else w).sim
  ball-JointKept cfg true w b apart k l hk hl = place_ball-Kept m _ _ cfg.ball w (apart k l hk hl)
  ball-JointKept cfg false w b apart k l hk hl = (refl, refl)

  -- Let a managed robot's body be in the model, with one joint, which is free and shares no entry
  -- with the ball or another managed robot. If the packet gives the robot a penalty state that is not
  -- the one before, then it leaves it at rest, in its home pose if it is unpenalised now and in its
  -- penalty pose otherwise. Before the first packet, and where the packet before does not have its
  -- team, the robot counts as unpenalised. In every other case, so also where the packet does not have the robot's
  -- team or the robot's number is not one of 1 to 20, it leaves the entries of its joint as they are.
  pub process-Moved :
      (s : SupervisorLogic D) (d : Data D) (p : GameControllerPacket)
      (earlier : List (RobotConfig D)) (rc : RobotConfig D) (later : List (RobotConfig D)) (b : ℕ)
      → s.cfg.robots ≡ earlier ++ (rc ∷ later)
      → m.name2id Kind.body rc.body ≡ pos b
      → IsFreeBody m b
      → AllApart m earlier b
      → AllApart m later b
      → BallApart s.cfg b
      → Moved s.prev p rc b d (process s m d p).1
  unfolding process moves
  process-Moved s d p earlier rc later b same named free before after ball =
      let w : Work D = record {
        warned = s.warned;
        sim = d;
        actions = announcements s.cfg s.prev p;
      } in
      let t = center_ball s.cfg s.prev p && s.cfg.ball.enabled in
      let w0 = if t then place_ball m s.cfg.ball w else w in
      let w1 = apply_robots m s.prev p earlier w0 in
      subst (λ w'. Moved s.prev p rc b d w'.sim)
        (sym (
          ap (λ rcs. apply_robots m s.prev p rcs w0) same
          ∙ apply_robots-append s.prev p earlier (rc ∷ later) w0))
        (Moved-after s.prev p rc b d w1.sim _
          (JointKept-trans b d w0.sim w1.sim (ball-JointKept s.cfg t w b ball)
            (apply_robots-JointKept s.prev p earlier w0 b before))
          (rest-Moved s.prev p rc later w1 b named free after))
