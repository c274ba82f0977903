-- ===== src/Supervisor/Logic/Warnings.antt =====
-- A warning is given once, however often its cause recurs.
use nusim.Base.{
  ℕ, suc, ◌+◌, ◌≤◌, ◌≡◌, refl, ap, inl, inr, Bool, true, false, ◌&&◌, Option, List, [], ◌∷◌, ◌++◌,
  arith, if◌then◌else◌, Bool-cases, Option-cases, pos_part,
}
use nusim.MuJoCo.{Model, Data, Kind}
use text.Mathlib.TextEquality.{eq_iff}
use nusim.Double.{Double}
use nusim.Supervisor.Packet.{GameControllerPacket}
use nusim.Supervisor.Config.{SupervisorConfig, BallConfig, RobotConfig}
use nusim.Supervisor.Placement.{place_free_body, place_free_body_by_geom_center}
use nusim.Supervisor.Logic.{
  Action, Info, SupervisorLogic, Warning, Work, announcements, apply_robot, apply_robots,
  ball_height, ball_not_in_model, ball_placed, ball_placement_failed, center_ball, contains, info,
  move_robot, moves, penalised, place_ball, process, process_all, push, returned,
  robot_not_in_model, same_warning, start, warn, warn_once, when, penalty_change,
}

-- How often a warning stands among the actions.
pub count : {D : Type 0} → Warning → List (Action D) → ℕ
count w [] = 0
count w (info i ∷ acts) = count w acts
count w (warn v ∷ acts) = if same_warning v w then suc (count w acts) else count w acts

count-append :
    {D : Type 0} (w : Warning) (acts bs : List (Action D))
    → count w (acts ++ bs) ≡ count w acts + count w bs
unfolding count
count-append w [] bs = omega arith
count-append w (info i ∷ acts) bs = count-append w acts bs
count-append w (warn v ∷ acts) bs = ground (arith, count-append w acts bs)

same_warning-eq : (v w : Warning) → same_warning v w ≡ true → v ≡ w
same_warning-eq (robot_not_in_model a) (robot_not_in_model b) h =
    ap robot_not_in_model ((eq_iff a b).0 h)
same_warning-eq ball_not_in_model ball_not_in_model h = refl
same_warning-eq ball_placement_failed ball_placement_failed h = refl
same_warning-eq v w h = cc

abbrev pub at_most : Bool → ℕ
at_most true = 1
at_most false = 0

-- With `n` of each warning given before the packet: what `warned` holds has been given at most
-- once, and what it does not hold, not at all.
abbrev Recorded : {D : Type 0} → (Warning → ℕ) → Work D → Type 0
Recorded n w = (v : Warning) → n v + count v w.actions ≤ at_most (contains w.warned v)

module _ {D : Type 0} ⦃f : Double D⦄ where
  push_info-Recorded :
      (n : Warning → ℕ) (i : Info D) (w : Work D) → Recorded n w → Recorded n (push (info i) w)
  unfolding push count
  push_info-Recorded n i w h v = omega (arith, count-append v w.actions (info i ∷ []), h v)

  warn_once-Recorded :
      (n : Warning → ℕ) (msg : Warning) (w : Work D) → Recorded n w → Recorded n (warn_once msg w)
  unfolding warn_once push count
  warn_once-Recorded n msg w h v = elim (Bool-cases (contains w.warned msg)) [
    | inl old ↦ rw (old, warn_once) (h v)
    | inr new ↦
        rw (new, warn_once)
          (elim (Bool-cases (same_warning msg v)) [
            | inl same ↦ ground (
              arith,
              count-append v w.actions (warn msg ∷ []),
              h v,
              same_warning-eq msg v same,
              new,
            )
            | inr other ↦ ground (arith, count-append v w.actions (warn msg ∷ []), h v)
          ])
  ]

  place_ball-Recorded :
      (n : Warning → ℕ) (m : Model D) (ball : BallConfig D) (w : Work D)
      → Recorded n w
      → Recorded n (place_ball m ball w)
  unfolding place_ball
  place_ball-Recorded n m ball w h v =
      let z = ball_height m ball (pos_part (m.name2id Kind.geom ball.geom)) in
      let r =
        place_free_body_by_geom_center m w.sim (m.name2id Kind.body ball.body)
          (m.name2id Kind.geom ball.geom) ball.x ball.y z in
      let w' : Work D = record w { sim = r.0 } in
      ground (
        arith,
        warn_once-Recorded n ball_not_in_model w h v,
        warn_once-Recorded n ball_placement_failed w' h v,
        push_info-Recorded n (ball_placed ball.x ball.y z) w' h v,
      )

  move_robot-Recorded :
      (n : Warning → ℕ) (m : Model D) (rc : RobotConfig D) (ps : ℕ) (w : Work D)
      → Recorded n w
      → Recorded n (move_robot m rc ps w)
  unfolding move_robot
  move_robot-Recorded n m rc ps w h v =
      let home =
        place_free_body m w.sim (m.name2id Kind.body rc.body) rc.home_pose.x rc.home_pose.y
          rc.home_pose.z rc.home_pose.yaw in
      let side =
        place_free_body m w.sim (m.name2id Kind.body rc.body) rc.penalty_pose.x rc.penalty_pose.y
          rc.penalty_pose.z rc.penalty_pose.yaw in
      ground (
        arith,
        warn_once-Recorded n (robot_not_in_model rc.body) w h v,
        push_info-Recorded n (penalised rc.body ps) (record w { sim = side.0 }) h v,
        push_info-Recorded n (returned rc.body) (record w { sim = home.0 }) h v,
      )

  -- An operation that keeps the record keeps it through every robot.
  apply_robot-Recorded :
      (n : Warning → ℕ) (m : Model D) (prev : Option GameControllerPacket)
      (p : GameControllerPacket) (rc : RobotConfig D) (w : Work D)
      → Recorded n w
      → Recorded n (apply_robot m prev p rc w)
  unfolding apply_robot
  apply_robot-Recorded n m prev p rc w h v = elim (Option-cases (penalty_change prev p rc)) [
    | inl e ↦ rw (e, apply_robot) (h v)
    | inr (ps, e) ↦ rw (e, apply_robot) (move_robot-Recorded n m rc ps w h v)
  ]

  apply_robots-Recorded :
      (n : Warning → ℕ) (m : Model D) (prev : Option GameControllerPacket)
      (p : GameControllerPacket) (rcs : List (RobotConfig D)) (w : Work D)
      → Recorded n w
      → Recorded n (apply_robots m prev p rcs w)
  unfolding apply_robots
  apply_robots-Recorded n m prev p [] w h = h
  apply_robots-Recorded n m prev p (rc ∷ rcs) w h =
      apply_robots-Recorded n m prev p rcs _ (apply_robot-Recorded n m prev p rc w h)

  count-when : (v : Warning) (b : Bool) (i : Info D) → count v (when b (info i)) ≡ 0
  unfolding count
  count-when v true i = refl
  count-when v false i = refl

  count-announcements :
      (v : Warning) (cfg : SupervisorConfig D) (prev : Option GameControllerPacket)
      (p : GameControllerPacket)
      → count v (announcements cfg prev p) ≡ 0
  unfolding announcements
  count-announcements v cfg prev p = simp (count-append, count-when)

  moves-Recorded :
      (n : Warning → ℕ) (m : Model D) (cfg : SupervisorConfig D)
      (prev : Option GameControllerPacket) (p : GameControllerPacket) (w : Work D)
      → Recorded n w
      → Recorded n (moves m cfg prev p w)
  unfolding moves
  moves-Recorded n m cfg prev p w h =
      apply_robots-Recorded n m prev p cfg.robots _
        (ball (center_ball cfg prev p && cfg.ball.enabled))
    where
      ball : (b : Bool) → Recorded n (if b then place_ball m cfg.ball w else w)
      ball true = place_ball-Recorded n m cfg.ball w h
      ball false = h

  -- One packet.
  process-Recorded :
      (n : Warning → ℕ) (s : SupervisorLogic D) (m : Model D) (d : Data D)
      (p : GameControllerPacket)
      → ((v : Warning) → n v ≤ at_most (contains s.warned v))
      → (v : Warning)
      → n v + count v (process s m d p).2 ≤ at_most (contains (process s m d p).0.warned v)
  unfolding process
  process-Recorded n s m d p h =
      moves-Recorded n m s.cfg s.prev p
        (record { warned = s.warned; sim = d; actions = announcements s.cfg s.prev p })
        (λ v. omega (arith, h v, count-announcements v s.cfg s.prev p))

  process_all_record :
      (n : Warning → ℕ) (s : SupervisorLogic D) (m : Model D) (d : Data D)
      (ps : List GameControllerPacket)
      → ((v : Warning) → n v ≤ at_most (contains s.warned v))
      → (v : Warning) → n v + count v (process_all s m d ps).2 ≤ 1
  unfolding process_all count
  process_all_record n s m d [] h v = ground (arith, h v)
  process_all_record n s m d (p ∷ ps) h v =
      let (s1, d1, a1) = process s m d p in
      omega (
        arith,
        count-append v a1 (process_all s1 m d1 ps).2,
        process_all_record (λ w. n w + count w a1) s1 m d1 ps (process-Recorded n s m d p h) v,
      )

  -- However many packets arrive, whatever they say, and whatever the model lacks: no warning is
  -- given twice.
  pub warned_once :
      (cfg : SupervisorConfig D) (m : Model D) (d : Data D) (ps : List GameControllerPacket)
      (v : Warning)
      → count v (process_all (start cfg) m d ps).2 ≤ 1
  warned_once cfg m d ps v =
      omega (arith, process_all_record (λ w. 0) (start cfg) m d ps (λ w. omega arith) v)
