-- ===== src/Robot/Booster.antt =====
-- The constants of the Booster protocol (mujoco/shared/k1/BoosterApi.hpp). They are `int`s.
pub mod ApiId
pub mod RobotMode
pub mod FallState
pub mod Topic
