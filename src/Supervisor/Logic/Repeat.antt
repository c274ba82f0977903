-- ===== src/Supervisor/Logic/Repeat.antt =====
-- A packet that says nothing new.
use nusim.Base.{◌≡◌, refl, false, some, List, [], ◌∷◌, arith}
use nusim.Double.{Double}
use nusim.MuJoCo.{Model, Data}
use nusim.Supervisor.Packet.{GameControllerPacket, Team, teams}
use nusim.Supervisor.Transitions.{score_increased, state_changed}
use nusim.Supervisor.Config.{RobotConfig, SupervisorConfig}
use nusim.Supervisor.Logic.{
  SupervisorLogic, Work, old_penalty, apply_robot, penalty_change, apply_robots, is_goal,
  is_half_change, center_ball, announcements, moves, process,
}

score_increased_self : (ts : List Team) → score_increased ts ts ≡ false
unfolding score_increased
score_increased_self [] = refl
score_increased_self (t ∷ ts) = ground (arith, score_increased_self ts)

state_changed_self : (p : GameControllerPacket) → state_changed (some p) p ≡ false
unfolding state_changed
state_changed_self p = ground arith

module _ {D : Type 0} ⦃f : Double D⦄ where
  no_goal : (cfg : SupervisorConfig D) (p : GameControllerPacket) → is_goal cfg (some p) p ≡ false
  unfolding is_goal
  no_goal cfg p = rw (score_increased_self (teams p)) (ground arith)

  no_half_change :
      (cfg : SupervisorConfig D) (p : GameControllerPacket) → is_half_change cfg (some p) p ≡ false
  unfolding is_half_change
  no_half_change cfg p = ground arith

  announcements_self :
      (cfg : SupervisorConfig D) (p : GameControllerPacket) → announcements cfg (some p) p ≡ []
  unfolding announcements
  announcements_self cfg p =
      rw (state_changed_self p, no_goal cfg p, no_half_change cfg p) (ground arith)

  pub center_ball_self :
      (cfg : SupervisorConfig D) (p : GameControllerPacket) → center_ball cfg (some p) p ≡ false
  unfolding center_ball
  center_ball_self cfg p =
      rw (state_changed_self p, no_goal cfg p, no_half_change cfg p) (ground arith)

  apply_robot_self :
      (m : Model D) (p : GameControllerPacket) (rc : RobotConfig D) (w : Work D)
      → apply_robot m (some p) p rc w ≡ w
  unfolding apply_robot penalty_change old_penalty
  apply_robot_self m p rc w = ground arith

  apply_robots_self :
      (m : Model D) (p : GameControllerPacket) (rcs : List (RobotConfig D)) (w : Work D)
      → apply_robots m (some p) p rcs w ≡ w
  unfolding apply_robots
  apply_robots_self m p [] w = refl
  apply_robots_self m p (rc ∷ rcs) w = rw (apply_robot_self m p rc w) (apply_robots_self m p rcs w)

  process_seen :
      (s : SupervisorLogic D) (m : Model D) (d : Data D) (p : GameControllerPacket)
      → s.prev ≡ some p
      → process s m d p ≡ (s, d, [])
  unfolding process moves
  process_seen s m d p e =
      rw
        (
          e,
          announcements_self s.cfg p,
          center_ball_self s.cfg p,
          apply_robots_self m p s.cfg.robots (record { warned = s.warned; sim = d; actions = [] }),
        )
        (cc)

  -- GameController repeats its packet several times a second. After a packet, the same packet again
  -- changes nothing: the object and the data stay as they are and nothing is logged, whatever has
  -- become of the data in between.
  pub process_again :
      (s : SupervisorLogic D) (m : Model D) (d d' : Data D) (p : GameControllerPacket)
      → let s' = (process s m d p).0 in process s' m d' p ≡ (s', d', [])
  unfolding process
  process_again s m d d' p = process_seen (process s m d p).0 m d' p refl
