-- ===== src/Camera.antt =====
-- The camera (mujoco/module/Camera/src).
pub mod ImageWriter
pub mod PoseWriter
pub mod Rows
pub mod Context
pub mod Renderer
pub mod Thread
