-- ===== src/Camera/Renderer.antt =====
-- The render thread (`render_loop` of mujoco/module/Camera/src/Camera.cpp, with CameraConfig.hpp
-- beside it). OpenGL is left out: whether its context is valid, and the pixels that it renders, are
-- given. A buffer is a function of its index; `float_bits` gives the bits of a double cast to float.
pub mod Sized
pub mod Poses
use nusim.Base.{
  ℕ, ◌-◌, ◌*◌, ◌%◌, ◌^◌, Bool, not, ◌&&◌, ◌||◌, Option, none, some, [], ◌∷◌, map, ltb,
  if◌then◌else◌, or_default, get_or, count_up, ℤ, pos, negsuc, pos_part, ltb_ℤ,
}
use Prim.Native.String.{String}
use text.Mathlib.Text.{◌==◌ as str_eq}
use nusim.Double.{Double, nought, unit, two}
use nusim.MuJoCo.{Model, Data, Mju, Kind}
use nusim.Simulation.Snapshot.{HeadPose, head_in_footprint, entries, vec3}
use nusim.Camera.ImageWriter.{SharedImage, Frame, create}
use nusim.Camera.PoseWriter.{SharedPose, new_pose, publish_pose}
use nusim.Camera.Rows.{flip}

pub record CameraConfig (D : Type 0) : Type 0 where
  pub segment : String
  pub pose_segment : String
  pub width : ℤ
  pub height : ℤ
  pub fps : D
  pub mjcf_camera : String

-- camera.yaml: `none` is a key that is absent.
pub record CameraYaml (D : Type 0) : Type 0 where
  pub segment : Option String
  pub pose_segment : Option String
  pub width : Option ℤ
  pub height : Option ℤ
  pub fps : Option D
  pub mjcf_camera : Option String

abbrev pub max_image_bytes : ℕ
max_image_bytes = 2 * 1024 * 1024

-- static_cast<std::size_t> of an int
unfoldable pub to_size : ℤ → ℕ
to_size (pos n) = n
to_size (negsuc n) = 2 ^ 64 - 1 - n

unfoldable pub frame_bytes : ℤ → ℤ → ℕ
unfolding to_size
frame_bytes width height = to_size width * to_size height % 2 ^ 64 * 3 % 2 ^ 64

-- Why the thread returns before it renders.
pub data Refusal : Type 0 where
  frame_too_large no_context no_segment stopped no_camera buffer_too_small : Refusal

-- What the thread meets: its context, the memory of the image segment and whether that of the pose
-- can be made (`none` and false where the constructor throws), `running_` when the simulation's
-- handles have come, and the model's offscreen buffer and angles of view.
pub record Surroundings (D : Type 0) : Type 0 where
  pub context_valid : Bool
  pub memory : Option (ℕ → ℕ)
  pub pose_memory : Bool
  pub running : Bool
  pub offwidth : ℤ
  pub offheight : ℤ
  pub cam_fovy : ℕ → D

-- The variables of the render loop.
pub record Renderer (D : Type 0) : Type 0 where
  pub width : ℕ
  pub height : ℕ
  pub frame_bytes : ℕ
  pub image : SharedImage
  pub pose : Option (SharedPose D)
  pub head_body_id : ℕ
  pub flipped : ℕ → ℕ
  pub focal_length_norm : D
  pub fov_rad : D

pub data Setup (D : Type 0) : Type 0 where
  refused : Refusal → Setup D
  ready : Renderer D → Setup D

module _ {D : Type 0} ⦃f : Double D⦄ where
  open f use {add, mul, div, dec, of_int, tan, atan, sqrt, pi}

  unfoldable pub load_config : CameraYaml D → CameraConfig D
  load_config root = record {
    segment = or_default root.segment "_boostercamera_head_rgb";
    pose_segment = or_default root.pose_segment "_head_pose";
    width = or_default root.width (pos 640);
    height = or_default root.height (pos 480);
    fps = or_default root.fps (dec (pos 30) 0);
    mjcf_camera = or_default root.mjcf_camera "head";
  }

  -- The focal length over the width.
  unfoldable pub focal_length : ℤ → ℤ → D → D
  focal_length width height fovy =
      let fovy_rad = div (mul fovy pi) (dec (pos 180) 0) in
      div (div (mul (of_int height) (dec (pos 5) 1)) (tan (mul fovy_rad (dec (pos 5) 1))))
        (of_int width)

  -- The diagonal angle of view.
  unfoldable pub diagonal_fov : ℤ → ℤ → D → D
  diagonal_fov width height focal =
      let aspect = div (of_int height) (of_int width) in
      let half_diag_norm = mul (dec (pos 5) 1) (sqrt (add unit (mul aspect aspect))) in
      mul two (atan (div half_diag_norm focal))

  -- The pose's segment, if one is asked for, can be made, and the model has a head.
  unfoldable pub make_pose : CameraConfig D → Bool → ℤ → Option (SharedPose D)
  make_pose cfg made (negsuc _) = none
  make_pose cfg made (pos head) =
      if not (str_eq cfg.pose_segment "") && made then some new_pose else none

  -- The last checks, once the model is there.
  unfoldable pub attach : CameraConfig D → Surroundings D → Model D → SharedImage → ℤ → ℤ → Setup D
  unfolding make_pose focal_length diagonal_fov
  attach cfg around m image head (negsuc _) = refused no_camera
  attach cfg around m image head (pos cam) =
      let focal = focal_length cfg.width cfg.height (around.cam_fovy cam) in
      if ltb_ℤ around.offwidth cfg.width || ltb_ℤ around.offheight cfg.height
      then refused buffer_too_small
      else ready (record {
        width = pos_part cfg.width;
        height = pos_part cfg.height;
        frame_bytes = frame_bytes cfg.width cfg.height;
        image = image;
        pose = make_pose cfg around.pose_memory head;
        head_body_id = pos_part head;
        flipped = λ j. 0;
        focal_length_norm = focal;
        fov_rad = diagonal_fov cfg.width cfg.height focal;
      })

  abbrev pub make_image : CameraConfig D → Option (ℕ → ℕ) → Option SharedImage
  make_image cfg none = none
  make_image cfg (some memory) = create cfg.width cfg.height memory

  -- With the segment made, or not.
  unfoldable pub after_segment :
      CameraConfig D → Surroundings D → Model D → Option SharedImage → Setup D
  unfolding attach
  after_segment cfg around m none = refused no_segment
  after_segment cfg around m (some image) =
      if not around.running
      then refused stopped
      else attach cfg around m image (m.name2id Kind.body "Head_2")
          (m.name2id Kind.camera cfg.mjcf_camera)

  -- What comes before the loop.
  unfoldable pub prepare : CameraConfig D → Surroundings D → Model D → Setup D
  unfolding after_segment frame_bytes
  prepare cfg around m =
      if ltb max_image_bytes (frame_bytes cfg.width cfg.height)
      then refused frame_too_large
      else if not around.context_valid
      then refused no_context
      else after_segment cfg around m (make_image cfg around.memory)

  -- The head's pose of a round, from the entries of the data that are read under the mutex.
  unfoldable pub round_pose : Mju D → Data D → ℕ → HeadPose D
  round_pose u d head =
      head_in_footprint u (entries d.xpos (3 * head)) (entries d.xquat (4 * head))
        (entries d.qpos 0) (entries d.qpos 3)

  abbrev pub xyzw : (ℕ → D) → ℕ → D
  xyzw q i = get_or (q 1 ∷ q 2 ∷ q 3 ∷ q 0 ∷ []) i nought

  unfoldable pub publish_round : Mju D → Data D → ℕ → Option (SharedPose D) → Option (SharedPose D)
  unfolding round_pose
  publish_round u d head none = none
  publish_round u d head (some p) =
      let hrh = round_pose u d head in
      some
        (publish_pose (vec3 (hrh.position 0) (hrh.position 1) (hrh.position 2)) (xyzw hrh.quat) p)

  -- A round of the loop, with the pixels that `mjr_readPixels` gives: the loop's variables after it,
  -- and the frame that is published.
  unfoldable pub render_round : (D → ℕ) → Mju D → Data D → (ℕ → ℕ) → Renderer D → Renderer D × Frame
  unfolding publish_round
  render_round float_bits u d raw r =
      let rows = flip r.width r.height raw r.flipped in
      (
        record r { pose = publish_round u d r.head_body_id r.pose; flipped = rows },
        record {
          rgb = map rows (count_up 0 r.frame_bytes);
          focal_length = float_bits r.focal_length_norm;
          fov = float_bits r.fov_rad;
          centre_x = 0;
          centre_y = 0;
        },
      )
