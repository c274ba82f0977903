-- ===== src/Simulation/Reactor.antt =====
-- The reactions of mujoco/module/Simulation/src/Simulation.cpp that call the core: what each calls,
-- in its order. The heartbeat is in Heartbeat.
pub mod Protocol
use nusim.Base.{List, [], ◌∷◌, ◌++◌}

pub data SimEvent (C : Type 0) : Type 0 where
  startup : SimEvent C
  controller_handle : C → SimEvent C
  sim_reset_request : SimEvent C
  shutdown : SimEvent C

pub data SimCall (C : Type 0) : Type 0 where
  load_model emit_handles start reset stop unload : SimCall C
  set_controller : C → SimCall C

unfoldable pub sim_react : {C : Type 0} → SimEvent C → List (SimCall C)
sim_react startup = load_model ∷ emit_handles ∷ start ∷ []
sim_react (controller_handle c) = set_controller c ∷ []
sim_react sim_reset_request = reset ∷ []
sim_react shutdown = stop ∷ unload ∷ []

unfoldable pub sim_react_all : {C : Type 0} → List (SimEvent C) → List (SimCall C)
sim_react_all [] = []
sim_react_all (e ∷ es) = sim_react e ++ sim_react_all es

-- ~SimCore
unfoldable pub destroy : {C : Type 0} → List (SimCall C)
destroy = stop ∷ unload ∷ []
