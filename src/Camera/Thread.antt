-- ===== src/Camera/Thread.antt =====
-- The render thread's life (`Camera` and the loops of `render_loop` in
-- mujoco/module/Camera/src/Camera.cpp): start and end, the wait for the handles, the rounds and their
-- pacing. Times are in ticks of the steady clock.
pub mod Paced
use nusim.Base.{
  ℕ, ◌+◌, Bool, true, false, not, ◌&&◌, Option, none, some, List, [], ◌∷◌, ltb, if◌then◌else◌,
}
use nusim.Double.{Double, unit}
use nusim.Camera.Renderer.{CameraConfig}

pub record Camera (H : Type 0) : Type 0 where
  pub running : Bool
  pub joinable : Bool
  pub handles_ready : Bool
  pub handles : Option H

pub data CameraEvent (H : Type 0) : Type 0 where
  startup : CameraEvent H
  sim_handles : H → CameraEvent H
  shutdown : CameraEvent H

unfoldable pub camera_react : {H : Type 0} → CameraEvent H → Camera H → Camera H
camera_react startup c = record c { running = true; joinable = true }
camera_react (sim_handles h) c = record c { handles = some h; handles_ready = true }
camera_react shutdown c = record c { running = false; joinable = false }

-- The loop that waits, over what it reads of `running_` and `handles_ready_`, and the test after it
-- with one more reading of `running_`: whether the thread goes on, `none` while it waits.
unfoldable pub wait_for_handles : List (Bool × Bool) → Bool → Option Bool
wait_for_handles [] after = none
wait_for_handles ((running, ready) ∷ rest) after =
    let later = wait_for_handles rest after in if running && not ready then later else some after

-- 1 / max(1, fps), in seconds
unfoldable pub frame_seconds : {D : Type 0} ⦃f : Double D⦄ → CameraConfig D → D
frame_seconds ⦃f⦄ cfg = f.div unit (if f.lt unit cfg.fps then cfg.fps else unit)

-- The next frame's time after a frame that is done at `now`.
unfoldable pub pace_frame : ℕ → ℕ → ℕ → ℕ
pace_frame period now next_frame =
    let next = next_frame + period in if ltb next now then now else next

unfoldable pub pace_frames : ℕ → List ℕ → ℕ → ℕ
pace_frames period [] next_frame = next_frame
pace_frames period (now ∷ rest) next_frame =
    pace_frames period rest (pace_frame period now next_frame)

-- The rounds, over what each reads of `running_`, until that is false.
unfoldable pub render_rounds : {R I : Type 0} → (I → R → R) → List (Bool × I) → R → R
render_rounds round [] r = r
render_rounds round ((running, i) ∷ rest) r =
    let done = render_rounds round rest (round i r) in if running then done else r
