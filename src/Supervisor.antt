-- ===== src/Supervisor.antt =====
-- The GameController supervisor (mujoco/module/Supervisor/src).
pub mod Packet
pub mod Placement
pub mod Config
pub mod Loader
pub mod Names
pub mod Transitions
pub mod Logic
pub mod Reaction
pub mod Reactor
