-- ===== src/Sdk.antt =====
-- The Booster SDK's side of the simulator (mujoco/module/SdkBridge/src).
pub mod Json
pub mod Dispatch
pub mod Server
pub mod Odometry
pub mod Publisher
pub mod Bridge
pub mod Participant
pub mod Synthetic
