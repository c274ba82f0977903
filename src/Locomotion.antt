-- ===== src/Locomotion.antt =====
-- The mode controller and its reactor (mujoco/module/Locomotion/src).
pub mod Math
pub mod Types
pub mod Servo
pub mod Controller
pub mod Reactor
pub mod Loader
