-- ===== src/Simulation.antt =====
-- The simulation itself (mujoco/module/Simulation/src).
pub mod Core
pub mod Snapshot
pub mod Loop
pub mod Pacing
pub mod Sleep
pub mod Scene
pub mod Threads
pub mod Heartbeat
pub mod Reactor
pub mod FootLog
