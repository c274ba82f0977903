-- ===== src/Tests.antt =====
-- Concrete runs of the theorems, and tests of single functions.
mod Fixtures
mod Supervisor
mod Locomotion
mod Sdk
mod Simulation
mod Camera
mod Startup
mod Threads
mod Bridge
mod Commands
mod Viewer
