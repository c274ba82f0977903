-- ===== src/Tests/Camera.antt =====
-- The camera's theorems on a frame of one pixel.
use nusim.Base.{
  ◌+◌, ◌-◌, ◌*◌, ◌≡◌, refl, ◌↔◌, true, false, none, some, List, [], ◌∷◌, ◌++◌, arith, length,
  replicate, get_or, ℤ, pos, pos_part,
}
use nusim.Double.Fixed.{fixed}
use nusim.Camera.ImageWriter.{
  SharedImage, Frame, Event, call, make, create, advance, frame_stores, copy_stores, store, publish,
  run,
}
use nusim.Camera.ImageWriter.Seqlock.{contents, started, run-contents}
use nusim.MuJoCo.{Model}
use nusim.Simulation.Loop.{locomotion, make_snapshot}
use nusim.Camera.PoseWriter.{new_pose}
use nusim.Camera.Context.{Egl, construct_egl, destruct_egl}
use nusim.Camera.Context.Released.{holds_all, nothing_held, all_answers, construct_egl-destruct_egl}
use nusim.Camera.Renderer.{
  CameraConfig, Surroundings, Renderer, Setup, ready, refused, prepare, render_round,
}
use nusim.Camera.Renderer.Sized.{IsSized, prepare-IsSized, run-render_round}
use nusim.Camera.Renderer.Poses.{render_round-head}
use nusim.Tests.Fixtures.{pitch, still, vectors}
use nusim.Tests.Simulation.{engine, core, joints}

abbrev frame : Frame
frame = record { rgb = 10 ∷ 20 ∷ 30 ∷ []; focal_length = 1; fov = 2; centre_x = 3; centre_y = 4 }

abbrev blank : SharedImage
blank = record {
  seqlock = 0;
  data_size = 3;
  width = 1;
  height = 1;
  focal_length = 0;
  fov = 0;
  centre_x = 0;
  centre_y = 0;
  k1 = 0;
  k2 = 0;
  pixels = λ i. 0;
}

-- A whole publication, a call whose stores are still to come, and a moment later.
abbrev publication : List Event
publication = call frame ∷ replicate 11 make

run-contents_example :
    let first = run publication (started blank) in
    contents (run (call frame ∷ []) first).segment ≡ contents first.segment
unfolding create run advance publish frame_stores copy_stores store
run-contents_example =
    run-contents (pos 1) (pos 1) (λ i. 0) blank publication (call frame ∷ []) (call frame ∷ []) refl
      refl refl (omega arith)

-- A camera of one pixel on a model with a head and a camera.
abbrev config : CameraConfig ℤ
config = record {
  segment = "_boostercamera_head_rgb";
  pose_segment = "_head_pose";
  width = pos 1;
  height = pos 2;
  fps = pos 30000;
  mjcf_camera = "head";
}

abbrev named : Model ℤ
named = record pitch { name2id = λ k s. pos 2 }

abbrev around : Surroundings ℤ
around = record {
  context_valid = true;
  memory = some (λ i. 0);
  pose_memory = true;
  running = true;
  offwidth = pos 640;
  offheight = pos 480;
  cam_fovy = λ c. pos 60000;
}

abbrev or_renderer : Setup ℤ → Renderer ℤ
or_renderer (ready r) = r
or_renderer (refused x) = record {
  width = 0;
  height = 0;
  frame_bytes = 0;
  image = blank;
  pose = none;
  head_body_id = 0;
  flipped = λ j. 0;
  focal_length_norm = pos 0;
  fov_rad = pos 0;
}

abbrev camera : Renderer ℤ
camera = or_renderer (prepare config around named)

camera-IsSized : IsSized camera
unfolding prepare create
camera-IsSized = prepare-IsSized config around named camera (omega arith) (omega arith) refl

prepare-IsSized_example : IsSized camera
unfolding prepare create
prepare-IsSized_example =
    prepare-IsSized config around named camera (omega arith) (omega arith) refl

run-render_round_example :
    let fr = (render_round pos_part vectors still (λ i. i) camera).1 in
    let w =
      run (call fr ∷ replicate (length (publish fr camera.image)) make) (started camera.image) in
    w.segment.pixels (1 * camera.width * 3 + 2) ≡ (camera.height - 1 - 1) * camera.width * 3 + 2
unfolding prepare create
run-render_round_example =
    run-render_round pos_part vectors still (λ i. i) camera 1 2 camera-IsSized (omega arith)
      (omega arith)

render_round-head_example :
    let s =
      make_snapshot vectors engine
        (locomotion vectors)
        (record core { map = record joints { root_qpos_adr = pos 0 }; head_body_id = pos 2 })
        none
        still
        20
        (pos 1000) in
    (s.head.valid ≡ true)
    × ((render_round pos_part vectors still (λ i. i) camera).0.pose
        ≡ some (record new_pose {
          position = s.head.position;
          orientation = λ i.
              get_or (s.head.quat 1 ∷ s.head.quat 2 ∷ s.head.quat 3 ∷ s.head.quat 0 ∷ []) i (pos 0);
          sequence = 1;
        }))
unfolding prepare create new_pose
render_round-head_example =
    render_round-head vectors engine (locomotion vectors) pos_part
      (record core { map = record joints { root_qpos_adr = pos 0 }; head_body_id = pos 2 }) none
      still 20 (pos 1000) (λ i. i) camera new_pose refl refl refl

-- A context that cannot be made current.
abbrev answers : Egl
answers = record {
  get_display = true;
  initialize = true;
  choose_config = true;
  create_surface = true;
  bind_api = true;
  create_context = true;
  make_current = false;
}

construct_egl-destruct_egl_example :
    let (calls, c) = construct_egl answers in
    (holds_all (calls ++ destruct_egl c) nothing_held ≡ some nothing_held)
    × ((c.valid ≡ true) ↔ (all_answers answers ≡ true))
construct_egl-destruct_egl_example = construct_egl-destruct_egl answers
