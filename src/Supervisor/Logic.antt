-- ===== src/Supervisor/Logic.antt =====
-- The supervisor's decisions (mujoco/module/Supervisor/src/SupervisorLogic.hpp). A log line is its
-- kind with the values that the text shows; its level is the constructor, `info` or `warn`.
pub mod Placed
pub mod Ball
pub mod Rules
pub mod Centred
pub mod Penalties
pub mod Moved
pub mod Repeat
pub mod Frame
pub mod Warnings
use nusim.Base.{
  ℕ, ◌+◌, ◌*◌, ◌%◌, Bool, true, false, not, ◌&&◌, ◌||◌, Option, none, some, List, [], ◌∷◌, ◌++◌,
  ltb, ◌==◌, if◌then◌else◌, pos, negsuc, ◌==ℤ◌,
}
use Prim.Native.String.{String}
use text.Mathlib.Text.{◌==◌ as str_eq}
use nusim.Double.{Double, nought}
use nusim.MuJoCo.{Model, Data, Kind}
use nusim.Supervisor.Packet.{GameControllerPacket, Team, teams, max_num_players, unpenalised}
use nusim.Supervisor.Packet.State
use nusim.Supervisor.Transitions.{
  score_increased, find_team, penalty_of, state_changed, kickoff_changed,
}
use nusim.Supervisor.Placement.{place_free_body, place_free_body_by_geom_center}
use nusim.Supervisor.Config.{Pose3, BallConfig, RobotConfig, SupervisorConfig}

pub data Info (D : Type 0) : Type 0 where
  state_entered : ℕ → Info D
  kickoff_team : ℕ → Info D
  goal_detected half_changed : Info D
  ball_placed : D → D → D → Info D
  penalised : String → ℕ → Info D
  returned : String → Info D

-- The texts that `warn_once` is called with: of the ball's, one each, as its names are fixed.
pub data Warning : Type 0 where
  ball_not_in_model ball_placement_failed : Warning
  robot_not_in_model : String → Warning

pub data Action (D : Type 0) : Type 0 where
  info : Info D → Action D
  warn : Warning → Action D

abbrev pub same_warning : Warning → Warning → Bool
same_warning ball_not_in_model ball_not_in_model = true
same_warning ball_placement_failed ball_placement_failed = true
same_warning (robot_not_in_model a) (robot_not_in_model b) = str_eq a b
same_warning _ _ = false

abbrev pub contains : List Warning → Warning → Bool
contains [] w = false
contains (v ∷ vs) w = same_warning v w || contains vs w

pub record SupervisorLogic (D : Type 0) : Type 0 where
  pub cfg : SupervisorConfig D
  pub prev : Option GameControllerPacket
  pub warned : List Warning

-- What a call of `process` changes on its way: the warnings given, the data, and the actions so
-- far, oldest first.
pub record Work (D : Type 0) : Type 0 where
  pub warned : List Warning
  pub sim : Data D
  pub actions : List (Action D)

module _ {D : Type 0} ⦃f : Double D⦄ where
  open f use {lt}

  unfoldable pub resolve_team : GameControllerPacket → RobotConfig D → Option Team
  unfolding find_team
  resolve_team pkt rc = elim rc.team_id [
    | pos id ↦ find_team (id % 256) (teams pkt)
    | negsuc _ ↦
        if rc.team_index ==ℤ pos 0
        then some pkt.team0
        else if rc.team_index ==ℤ pos 1
        then some pkt.team1
        else none
  ]

  unfoldable pub push : Action D → Work D → Work D
  push a w = record w { actions = w.actions ++ (a ∷ []) }

  unfoldable pub warn_once : Warning → Work D → Work D
  unfolding push
  warn_once msg w =
      if contains w.warned msg then w else push (warn msg) (record w { warned = msg ∷ w.warned })

  -- `ball.z`, or the sphere's radius where that is negative.
  unfoldable pub ball_height : Model D → BallConfig D → ℕ → D
  ball_height m ball geom_id = if lt ball.z nought then m.geom_size (3 * geom_id + 0) else ball.z

  unfoldable pub place_ball : Model D → BallConfig D → Work D → Work D
  place_ball m ball w = elim (m.name2id Kind.body ball.body) [
    | negsuc _ ↦ warn_once ball_not_in_model w
    | pos body_id ↦ elim (m.name2id Kind.geom ball.geom) [
      | negsuc _ ↦ warn_once ball_not_in_model w
      | pos geom_id ↦
          let z = ball_height m ball geom_id in
          let (d, done) =
            place_free_body_by_geom_center m w.sim (pos body_id) (pos geom_id) ball.x ball.y z in
          let w' = record w { sim = d } in
          if done
          then push (info (ball_placed ball.x ball.y z)) w'
          else warn_once ball_placement_failed w'
    ]
  ]

  unfoldable pub old_penalty : Option GameControllerPacket → RobotConfig D → ℕ → ℕ
  unfolding resolve_team
  old_penalty none rc id = unpenalised
  old_penalty (some prev) rc id = elim (resolve_team prev rc) [
    | none ↦ unpenalised
    | some old_team ↦ penalty_of old_team id
  ]

  -- The move of a robot whose penalty state has changed to `new_ps`.
  unfoldable pub move_robot : Model D → RobotConfig D → ℕ → Work D → Work D
  move_robot m rc new_ps w = elim (m.name2id Kind.body rc.body) [
    | negsuc _ ↦ warn_once (robot_not_in_model rc.body) w
    | pos body_id ↦
        if not (new_ps == unpenalised)
        then push (info (penalised rc.body new_ps))
            (record w { sim = (place rc.penalty_pose body_id).0 })
        else push (info (returned rc.body)) (record w { sim = (place rc.home_pose body_id).0 })
  ]
    where
      place : Pose3 D → ℕ → Data D × Bool
      place p body_id = place_free_body m w.sim (pos body_id) p.x p.y p.z p.yaw

  -- The penalty state that a packet moves the robot for: its new one, where it is managed and
  -- differs from the old one.
  unfoldable pub penalty_change :
      Option GameControllerPacket → GameControllerPacket → RobotConfig D → Option ℕ
  penalty_change prev pkt rc = elim (resolve_team pkt rc) [
    | none ↦ none
    | some new_team ↦ elim rc.player_id [
      | negsuc _ ↦ none
      | pos id ↦
          if ltb id 1 || ltb max_num_players id
          then none
          else let new_ps = penalty_of new_team id in
            if new_ps == old_penalty prev rc id then none else some new_ps
    ]
  ]

  unfoldable pub apply_robot :
      Model D → Option GameControllerPacket → GameControllerPacket → RobotConfig D → Work D → Work D
  apply_robot m prev pkt rc w = elim (penalty_change prev pkt rc) [
    | none ↦ w
    | some new_ps ↦ move_robot m rc new_ps w
  ]

  unfoldable pub apply_robots :
      Model D
      → Option GameControllerPacket
      → GameControllerPacket
      → List (RobotConfig D)
      → Work D
      → Work D
  apply_robots m prev pkt [] w = w
  apply_robots m prev pkt (rc ∷ rcs) w = apply_robots m prev pkt rcs (apply_robot m prev pkt rc w)

  unfoldable pub is_goal :
      SupervisorConfig D → Option GameControllerPacket → GameControllerPacket → Bool
  unfolding score_increased
  is_goal cfg none pkt = false
  is_goal cfg (some prev) pkt = cfg.reset_ball_on_goal && score_increased (teams prev) (teams pkt)

  unfoldable pub is_half_change :
      SupervisorConfig D → Option GameControllerPacket → GameControllerPacket → Bool
  is_half_change cfg none pkt = false
  is_half_change cfg (some prev) pkt =
      cfg.reset_ball_on_half_change && not (prev.first_half == pkt.first_half)

  unfoldable pub center_ball :
      SupervisorConfig D → Option GameControllerPacket → GameControllerPacket → Bool
  unfolding state_changed is_goal is_half_change
  center_ball cfg prev pkt =
      (state_changed prev pkt && (pkt.state == State.ready || pkt.state == State.playing))
      || (cfg.reset_ball_on_finished && state_changed prev pkt && pkt.state == State.finished)
      || is_goal cfg prev pkt
      || is_half_change cfg prev pkt

  abbrev pub when : Bool → Action D → List (Action D)
  when true a = a ∷ []
  when false a = []

  -- The log lines that stand before the moves, in the order in which they are pushed.
  unfoldable pub announcements :
      SupervisorConfig D → Option GameControllerPacket → GameControllerPacket → List (Action D)
  unfolding state_changed kickoff_changed is_goal is_half_change
  announcements cfg prev pkt =
      when (state_changed prev pkt) (info (state_entered pkt.state))
      ++ (when (kickoff_changed prev pkt) (info (kickoff_team pkt.kicking_team))
          ++ (when (is_goal cfg prev pkt) (info goal_detected)
              ++ when (is_half_change cfg prev pkt) (info half_changed)))

  unfoldable pub moves :
      Model D
      → SupervisorConfig D
      → Option GameControllerPacket
      → GameControllerPacket
      → Work D
      → Work D
  moves m cfg prev pkt w =
      apply_robots m prev pkt cfg.robots
        (if center_ball cfg prev pkt && cfg.ball.enabled then place_ball m cfg.ball w else w)

  -- The object, the data and the actions after a packet.
  unfoldable pub process :
      SupervisorLogic D
      → Model D
      → Data D
      → GameControllerPacket
      → SupervisorLogic D × Data D × List (Action D)
  process s m d pkt =
      let w =
        moves m s.cfg s.prev pkt
          (record { warned = s.warned; sim = d; actions = announcements s.cfg s.prev pkt }) in
      (record s { prev = some pkt; warned = w.warned }, w.sim, w.actions)

  -- A fresh object, before any packet.
  unfoldable pub start : SupervisorConfig D → SupervisorLogic D
  start cfg = record { cfg = cfg; prev = none; warned = [] }

  -- The packets of a match in turn: the object, the data and all actions.
  unfoldable pub process_all :
      SupervisorLogic D
      → Model D
      → Data D
      → List GameControllerPacket
      → SupervisorLogic D × Data D × List (Action D)
  process_all s m d [] = (s, d, [])
  process_all s m d (p ∷ ps) =
      let (s1, d1, a1) = process s m d p in
      let (s2, d2, a2) = process_all s1 m d1 ps in (s2, d2, a1 ++ a2)
