-- ===== src/Robot.antt =====
-- What the modules share of the robot (mujoco/shared/k1, mujoco/shared/sim).
pub mod Joints
pub mod Booster
pub mod ModelMap
pub mod Pd
