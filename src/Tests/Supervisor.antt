-- ===== src/Tests/Supervisor.antt =====
-- The supervisor's theorems on a match of one robot.
use nusim.Base.{◌≤◌, ◌≡◌, refl, ◌⊎◌, inl, inr, true, none, some, [], ◌∷◌, ◌++◌, arith, ℤ}
use nusim.Double.Fixed.{fixed}
use nusim.Supervisor.Packet.State
use nusim.Supervisor.Packet.Layout.{packet_bytes}
use nusim.Supervisor.Packet.RoundTrip.{IsSpoken}
use nusim.Supervisor.Logic.{start, process, process_all, ball_not_in_model}
use nusim.Supervisor.Logic.Repeat.{process_again}
use nusim.Supervisor.Logic.Warnings.{count, warned_once}
use nusim.Supervisor.Logic.Frame.{Kept, process_all-Kept}
use nusim.Supervisor.Logic.Ball.{IsBall, BallStands, RobotsApart}
use nusim.Supervisor.Logic.Rules.{Wanted}
use nusim.Supervisor.Logic.Centred.{JointKept, process-centred}
use nusim.Supervisor.Logic.Moved.{BallApart, Moved, process-Moved}
use nusim.Supervisor.Logic.Placed.{IsFreeBody}
use nusim.Supervisor.Reaction.{Supervisor, on_packet, on_udp}
use nusim.Supervisor.Reaction.Datagrams.{on_udp-on_packet}
use nusim.Supervisor.Reactor.{
  SupervisorEvent, startup, shutdown, sim_handles, udp, simulated, bound, construct_supervisor,
  supervise_all,
}
use nusim.Supervisor.Reactor.Followed.{
  brings_handles, outcome, after_lines, unready, followed, run_logic, heard,
  supervise_all-run_logic,
}
use nusim.Tests.Fixtures.{pitch, nameless, still, moved, packet, config, robot, ball}

process_again_example :
    let s' = (process (start config) pitch still (packet State.ready 1)).0 in
    process s' pitch moved (packet State.ready 1) ≡ (s', moved, [])
process_again_example = process_again (start config) pitch still moved (packet State.ready 1)

warned_once_example :
    count ball_not_in_model
      (process_all
        (start config)
        nameless
        still
        (packet State.ready 0 ∷ packet State.set 0 ∷ packet State.playing 0 ∷ [])).2
    ≤ 1
warned_once_example =
    warned_once config nameless still
      (packet State.ready 0 ∷ packet State.set 0 ∷ packet State.playing 0 ∷ []) ball_not_in_model

process_all-Kept_example :
    Kept pitch 14 12 moved
      (process_all (start config) pitch moved (packet State.ready 1 ∷ packet State.set 0 ∷ [])).1
unfolding start
process_all-Kept_example =
    process_all-Kept pitch 14 12 (start config) moved
      (packet State.ready 1 ∷ packet State.set 0 ∷ [])
      ((inr (omega arith), inr (omega arith)), ((inr (omega arith), inr (omega arith)), tt))

trunk_free : IsFreeBody pitch 2
trunk_free = record { exists = omega arith; one_joint = refl; joint_free = refl }

ball_apart : BallApart pitch config 2
ball_apart k l hk hl = (inr (omega arith), inr (omega arith))

process-Moved_example :
    Moved pitch none
      (packet State.playing 1)
      robot
      2
      moved
      (process (start config) pitch moved (packet State.playing 1)).1
unfolding start
process-Moved_example =
    process-Moved pitch (start config) moved (packet State.playing 1) [] robot [] 2 refl refl
      trunk_free (λ k l hk hl. tt) (λ k l hk hl. tt) ball_apart

the_ball : IsBall pitch ball 1 0
the_ball = record {
  body_named = refl;
  geom_named = refl;
  free = record { exists = omega arith; one_joint = refl; joint_free = refl };
  geom_exists = omega arith;
  geom_of = refl;
}

apart : RobotsApart pitch config 1
apart k l hk hl = ((inl (omega arith), inl (omega arith)), tt)

process-centred_example :
    let d = (process (start config) pitch moved (packet State.ready 1)).1 in
    ((config.ball.enabled ≡ true)
      × Wanted config (packet State.ready 1) none
      × BallStands pitch config.ball d 1 0)
    ⊎ ((¬ ((config.ball.enabled ≡ true) × Wanted config (packet State.ready 1) none))
        × JointKept pitch 1 moved d)
unfolding start
process-centred_example =
    process-centred pitch (start config) moved (packet State.ready 1) 1 0 the_ball apart

packet-IsSpoken : IsSpoken (packet State.ready 1)
packet-IsSpoken = record { header_eq = refl; version_eq = refl; players0 = refl; players1 = refl }

abbrev waiting : Supervisor ℤ
waiting = record { logic = start config; handles = some (record { model = pitch; data_ = moved }) }

on_udp-on_packet_example :
    on_udp (packet_bytes (packet State.ready 1) (9 ∷ [])) waiting
    ≡ on_packet (packet State.ready 1) waiting
on_udp-on_packet_example = on_udp-on_packet (packet State.ready 1) (9 ∷ []) waiting packet-IsSpoken

-- Twice the same datagram, before and after the model is ready; then one that is no packet.
abbrev datagram : SupervisorEvent ℤ
datagram = udp (packet_bytes (packet State.ready 1) [])

supervise_all-run_logic_example :
    let early = startup ∷ datagram ∷ [] in
    let late = datagram ∷ udp [] ∷ simulated still ∷ shutdown ∷ [] in
    outcome (
      supervise_all
        (early ++ (sim_handles (record { model = pitch; data_ = moved }) ∷ late))
        (construct_supervisor config true).0)
    ≡ after_lines
        (unready (heard true early))
        (followed bound pitch (run_logic pitch (heard true late) (start config) moved))
unfolding construct_supervisor brings_handles
supervise_all-run_logic_example =
    supervise_all-run_logic config true (startup ∷ datagram ∷ [])
      (datagram ∷ udp [] ∷ simulated still ∷ shutdown ∷ [])
      (record { model = pitch; data_ = moved }) (refl, (refl, tt))
      (refl, (refl, (refl, (refl, tt))))
