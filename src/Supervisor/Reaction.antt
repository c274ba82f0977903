-- ===== src/Supervisor/Reaction.antt =====
-- The reaction to a datagram (mujoco/module/Supervisor/src/Supervisor.cpp). The pointers to the
-- model, the data and the mutex are set together, by one message; `none` is the time before that.
pub mod Datagrams
use nusim.Base.{ℕ, Bool, true, false, Option, none, some, List, [], ◌∷◌, length}
use nusim.Double.{Double}
use nusim.MuJoCo.{Model, Data}
use nusim.Supervisor.Packet.{GameControllerPacket, packet_at, try_parse}
use nusim.Supervisor.Logic.{Action, SupervisorLogic, process}

pub record Handles (D : Type 0) : Type 0 where
  pub model : Model D
  pub data_ : Data D

pub record Supervisor (D : Type 0) : Type 0 where
  pub logic : SupervisorLogic D
  pub handles : Option (Handles D)

pub data LogLine (D : Type 0) : Type 0 where
  not_ready : LogLine D
  action : Action D → LogLine D

abbrev pub log_actions : {D : Type 0} → List (Action D) → List (LogLine D)
log_actions [] = []
log_actions (a ∷ acts) = action a ∷ log_actions acts

-- A packet as `gc::GameControllerPacket parsed{}` leaves it.
abbrev pub zero_packet : GameControllerPacket
zero_packet = packet_at []

module _ {D : Type 0} ⦃f : Double D⦄ where
  -- The rest of the reaction, for a packet.
  unfoldable pub on_packet : GameControllerPacket → Supervisor D → Supervisor D × List (LogLine D)
  on_packet parsed s = elim s.handles [
    | none ↦ (s, not_ready ∷ [])
    | some h ↦
        let (logic, d, actions) = process s.logic h.model h.data_ parsed in
        (record { logic = logic; handles = some (record h { data_ = d }) }, log_actions actions)
  ]

  abbrev pub if_accepted :
      GameControllerPacket × Bool → Supervisor D → Supervisor D × List (LogLine D)
  if_accepted (parsed, true) s = on_packet parsed s
  if_accepted (parsed, false) s = (s, [])

  -- on<UDP>
  unfoldable pub on_udp : List ℕ → Supervisor D → Supervisor D × List (LogLine D)
  on_udp payload s = if_accepted (try_parse (some payload) (length payload) zero_packet) s
