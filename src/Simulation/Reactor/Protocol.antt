-- ===== src/Simulation/Reactor/Protocol.antt =====
-- The order of calls that mujoco/module/Simulation/src/SimCore.hpp asks for.
use nusim.Base.{◌≡◌, refl, Bool, true, false, Option, none, some, List, [], ◌∷◌, ◌++◌, All}
use nusim.Simulation.Reactor.{
  SimEvent, startup, controller_handle, sim_reset_request, shutdown, SimCall, load_model,
  emit_handles, start, reset, stop, unload, set_controller, sim_react, sim_react_all, destroy,
}

-- Before `load_model`; loaded, with the physics thread or without it; after `unload`.
pub data Phase : Type 0 where
  fresh loaded running unloaded : Phase

-- `load_model` comes once and before `start`; the handles and a reset want the data; `unload` comes
-- after `stop`; `stop` and `unload` may be repeated, and a controller may be set at any time.
unfoldable pub obey : {C : Type 0} → SimCall C → Phase → Option Phase
obey load_model Phase.fresh = some Phase.loaded
obey emit_handles Phase.loaded = some Phase.loaded
obey emit_handles Phase.running = some Phase.running
obey start Phase.loaded = some Phase.running
obey start Phase.running = some Phase.running
obey reset Phase.loaded = some Phase.loaded
obey reset Phase.running = some Phase.running
obey stop Phase.running = some Phase.loaded
obey stop p = some p
obey unload Phase.running = none
obey unload p = some Phase.unloaded
obey (set_controller c) p = some p
obey call p = none

unfoldable pub obey_all : {C : Type 0} → List (SimCall C) → Phase → Option Phase
obey_all [] p = some p
obey_all (c ∷ cs) p = elim (obey c p) [ none ↦ none | some p' ↦ obey_all cs p' ]

-- What may come between startup and shutdown.
abbrev pub is_midway : {C : Type 0} → SimEvent C → Bool
is_midway (controller_handle c) = true
is_midway sim_reset_request = true
is_midway _ = false

midway-obeys :
    {C : Type 0} (es : List (SimEvent C)) (rest : List (SimCall C))
    → All (λ e. is_midway e ≡ true) es
    → obey_all (sim_react_all es ++ rest) Phase.running ≡ obey_all rest Phase.running
unfolding sim_react_all sim_react obey_all obey
midway-obeys [] rest h = refl
midway-obeys (controller_handle c ∷ es) rest h = midway-obeys es rest h.1
midway-obeys (sim_reset_request ∷ es) rest h = midway-obeys es rest h.1
midway-obeys (startup ∷ es) rest h = cc (h.0)
midway-obeys (shutdown ∷ es) rest h = cc (h.0)

-- From startup over any controllers and resets to shutdown and the core's destructor, the core's
-- functions are called in the order that its header asks for.
pub sim_react_all-obeys :
    {C : Type 0} (es : List (SimEvent C))
    → All (λ e. is_midway e ≡ true) es
    → obey_all
        (sim_react startup ++ (sim_react_all es ++ (sim_react shutdown ++ destroy)))
        Phase.fresh
      ≡ some Phase.unloaded
unfolding sim_react obey_all obey destroy
sim_react_all-obeys es h = midway-obeys es (stop ∷ unload ∷ stop ∷ unload ∷ []) h
