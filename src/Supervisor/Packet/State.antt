-- ===== src/Supervisor/Packet/State.antt =====
-- `enum class State` of GameControllerPacket.hpp.
use nusim.Base.{ℕ}

abbrev pub initial : ℕ
initial = 0

abbrev pub ready : ℕ
ready = 1

abbrev pub set : ℕ
set = 2

abbrev pub playing : ℕ
playing = 3

abbrev pub finished : ℕ
finished = 4
