-- ===== src/Supervisor/Logic/Rules.antt =====
-- When the supervisor moves the ball.
use nusim.Base.{ℕ, ◌<◌, ◌≡◌, ◌≢◌, ◌↔◌, ◌⊎◌, true, Option, none, some, arith}
use nusim.Double.{Double}
use nusim.Supervisor.Packet.{GameControllerPacket, unknown_state}
use nusim.Supervisor.Transitions.{state_changed}
use nusim.Supervisor.Packet.State
use nusim.Supervisor.Transitions.{state_changed}
use nusim.Supervisor.Config.{SupervisorConfig}
use nusim.Supervisor.Logic.{center_ball, is_goal, is_half_change}

module _ {D : Type 0} ⦃f : Double D⦄ (cfg : SupervisorConfig D) (p : GameControllerPacket) where
  -- The rules of the ball: play is set up or begins, or an optional reset applies.
  abbrev pub Entered : Option GameControllerPacket → ℕ → Type 0
  Entered none st = (p.state ≡ st) × (p.state ≢ unknown_state)
  Entered (some q) st = (p.state ≡ st) × (q.state ≢ st)

  abbrev pub Reset : Option GameControllerPacket → Type 0
  Reset none = ⊥
  Reset (some q) =
      ((cfg.reset_ball_on_goal ≡ true)
        × ((q.team0.score < p.team0.score) ⊎ (q.team1.score < p.team1.score)))
      ⊎ ((cfg.reset_ball_on_half_change ≡ true) × (q.first_half ≢ p.first_half))

  abbrev pub Wanted : Option GameControllerPacket → Type 0
  Wanted prev =
      Entered prev State.ready
      ⊎ Entered prev State.playing
      ⊎ ((cfg.reset_ball_on_finished ≡ true) × Entered prev State.finished)
      ⊎ Reset prev

  -- The ball is centred exactly when the state becomes READY or PLAYING, or, where the
  -- configuration says so, becomes FINISHED, a score has risen or the half has changed. The first
  -- packet counts as a change of state, and neither as a goal nor as a new half.
  pub center_ball_iff :
      (prev : Option GameControllerPacket) → (center_ball cfg prev p ≡ true) ↔ Wanted prev
  unfolding center_ball state_changed is_goal is_half_change
  center_ball_iff none = ((λ h. ground arith), (λ h. ground arith))
  center_ball_iff (some q) = ((λ h. ground arith), (λ h. ground arith))
