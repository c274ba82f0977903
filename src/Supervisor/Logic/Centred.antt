-- ===== src/Supervisor/Logic/Centred.antt =====
-- When the ball is put on its spot, and when it is left alone.
use nusim.Base.{ℕ, ◌+◌, ◌<◌, ◌≡◌, sym, ◌∙◌, ◌⊎◌, true, inl, inr, arith, Bool-cases}
use mathlib.Core.Bool.{true≢false}
use nusim.Double.{Double}
use nusim.MuJoCo.{Model, Data}
use nusim.Supervisor.Packet.{GameControllerPacket}
use nusim.Supervisor.Logic.{SupervisorLogic, center_ball, process}
use nusim.Supervisor.Logic.Rules.{Wanted, center_ball_iff}
use nusim.Supervisor.Logic.Frame.{Kept}
use nusim.Supervisor.Logic.Ball.{
  IsBall, BallStands, RobotsApart, process-BallStands, process-BallKept,
}

module _ {D : Type 0} ⦃f : Double D⦄ (m : Model D) where
  -- The seven position and six velocity entries of the body's joint are kept.
  abbrev pub JointKept : ℕ → Data D → Data D → Type 0
  JointKept b d d' =
      (k l : ℕ)
      → k < 7
      → l < 6
      → Kept m (m.jnt_qposadr (m.body_jntadr b) + k) (m.jnt_dofadr (m.body_jntadr b) + l) d d'

  -- Let the ball's body have one joint, which is free, and the configured geom, and let it share no
  -- entry with a managed robot. If the ball is enabled and the state becomes READY or PLAYING, or,
  -- where the configuration says so, becomes FINISHED, a score has risen or the half has changed,
  -- then a packet puts the ball at rest with its geom's centre on the configured spot, wherever it
  -- was. In every other case it leaves the entries of the ball's joint as they are. The first packet
  -- counts as a change of state, and neither as a goal nor as a new half.
  pub process-centred :
      (s : SupervisorLogic D) (d : Data D) (p : GameControllerPacket) (b g : ℕ)
      → IsBall m s.cfg.ball b g
      → RobotsApart m s.cfg b
      → let d' = (process s m d p).1 in
        ((s.cfg.ball.enabled ≡ true) × Wanted s.cfg p s.prev × BallStands m s.cfg.ball d' b g)
        ⊎ ((¬ ((s.cfg.ball.enabled ≡ true) × Wanted s.cfg p s.prev)) × JointKept b d d')
  process-centred s d p b g ball apart = elim (Bool-cases s.cfg.ball.enabled) [
    | inl on ↦ elim (Bool-cases (center_ball s.cfg s.prev p)) [
      | inl called ↦ inl (
        on,
        (center_ball_iff s.cfg p s.prev).0 called,
        process-BallStands m s d p b g ball on apart called,
      )
      | inr uncalled ↦ inr (
        λ h. true≢false (sym ((center_ball_iff s.cfg p s.prev).1 h.1) ∙ uncalled),
        λ k l hk hl. process-BallKept m s d p b k l apart (ground (arith, uncalled)) hk hl,
      )
    ]
    | inr off ↦ inr (
      λ h. true≢false (sym h.0 ∙ off),
      λ k l hk hl. process-BallKept m s d p b k l apart (ground (arith, off)) hk hl,
    )
  ]
