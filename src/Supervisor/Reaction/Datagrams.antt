-- ===== src/Supervisor/Reaction/Datagrams.antt =====
-- From the wire to the simulation.
use nusim.Base.{ℕ, ◌<◌, ◌≡◌, ap, ◌≢◌, ◌⊎◌, inl, inr, List, [], arith, length}
use nusim.Double.{Double}
use nusim.Supervisor.Packet.{
  GameControllerPacket, packet_at, packet_size, receive_header, supported_version,
}
use nusim.Supervisor.Packet.Layout.{packet_bytes}
use nusim.Supervisor.Packet.RoundTrip.{IsSpoken, try_parse-packet_bytes, try_parse-cases}
use nusim.Supervisor.Reaction.{Supervisor, on_packet, if_accepted, on_udp, zero_packet}

module _ {D : Type 0} ⦃f : Double D⦄ where
  -- A datagram that begins with a packet, one with the right header and version and with twenty
  -- players in each team, has the effect of that packet, whatever stands behind it: the supervisor
  -- processes it if the model is ready, and forgets it with a warning if it is not.
  pub on_udp-on_packet :
      (p : GameControllerPacket) (rest : List ℕ) (s : Supervisor D)
      → IsSpoken p
      → on_udp (packet_bytes p rest) s ≡ on_packet p s
  unfolding on_udp
  on_udp-on_packet p rest s h =
      ap (λ r. if_accepted r s) (try_parse-packet_bytes p zero_packet rest h)

  -- Any other datagram is ignored without a word: too short, or of another header or version.
  pub on_udp-ignored :
      (payload : List ℕ) (s : Supervisor D)
      → (length payload < packet_size)
        ⊎ ((packet_at payload).header ≢ receive_header)
        ⊎ ((packet_at payload).version ≢ supported_version)
      → on_udp payload s ≡ (s, [])
  unfolding on_udp
  on_udp-ignored payload s h = elim (try_parse-cases payload (length payload) zero_packet) [
    | inl (accepted, e) ↦ absurd (ground (arith, accepted.0, accepted.1, accepted.2, h))
    | inr (refused, e) ↦ ap (λ r. if_accepted r s) e
  ]
