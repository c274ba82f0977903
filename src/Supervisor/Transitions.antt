-- ===== src/Supervisor/Transitions.antt =====
-- What two packets in a row say: the parts of `SupervisorLogic` that read packets only
-- (mujoco/module/Supervisor/src/SupervisorLogic.hpp). No packet before is `none`.
use nusim.Base.{
  ℕ, ◌-◌, Bool, true, false, not, ◌||◌, Option, none, some, List, [], ◌∷◌, ltb, ◌==◌, if◌then◌else◌,
  get_or,
}
use nusim.Supervisor.Packet.{Team, GameControllerPacket, unknown_state}

unfoldable pub score_increased : List Team → List Team → Bool
score_increased (o ∷ os) (n ∷ ns) = ltb o.score n.score || score_increased os ns
score_increased _ _ = false

unfoldable pub find_team : ℕ → List Team → Option Team
find_team id [] = none
find_team id (t ∷ ts) = if t.team_id == id then some t else find_team id ts

-- team->players[player_id - 1].penalty_state
unfoldable pub penalty_of : Team → ℕ → ℕ
penalty_of t player_id =
    (get_or t.players (player_id - 1)
      (record { penalty_state = 0; penalised_time_left = 0; cautions = 0 })).penalty_state

unfoldable pub old_state : Option GameControllerPacket → ℕ
old_state none = unknown_state
old_state (some prev) = prev.state

unfoldable pub state_changed : Option GameControllerPacket → GameControllerPacket → Bool
unfolding old_state
state_changed prev pkt = not (pkt.state == old_state prev)

unfoldable pub kickoff_changed : Option GameControllerPacket → GameControllerPacket → Bool
kickoff_changed none pkt = true
kickoff_changed (some prev) pkt = not (prev.kicking_team == pkt.kicking_team)
