-- ===== src/Camera/Renderer/Sized.antt =====
-- The sizes agree: the frame that is rendered is the frame that the segment has room for and that a
-- reader accepts; and it is published top row first.
use nusim.Base.{
  ℕ, zero, suc, ◌+◌, ◌-◌, ◌*◌, ◌%◌, ◌^◌, ◌≤◌, ◌<◌, ◌≡◌, refl, sym, ap, ◌∙◌, subst, inl, inr, not,
  ◌||◌, Option, none, some, ◌∷◌, arith, ltb, if-cases, length, replicate, length-map, get_elem?-map,
  count_up, length-count_up, ℤ, pos, negsuc, pos_part, ltb_ℤ,
}
use nusim.Double.{Double}
use nusim.MuJoCo.{Model, Data, Mju, Kind}
use nusim.Camera.ImageWriter.{SharedImage, create, publish, run, call, make}
use nusim.Camera.ImageWriter.Seqlock.{started}
use nusim.Camera.ImageWriter.Published.{run-Shows}
use nusim.Camera.Rows.{flip, flip-at}
use nusim.Camera.Renderer.{
  CameraConfig, Surroundings, Renderer, ready, max_image_bytes, to_size, frame_bytes, make_image,
  attach, after_segment, prepare, render_round,
}

area : (a b : ℕ) → a < 2 ^ 31 → b < 2 ^ 31 → a * b < 2 ^ 62
area a b h k = grind arith

frame_bytes-eq : (a b : ℕ) → a < 2 ^ 31 → b < 2 ^ 31 → frame_bytes (pos a) (pos b) ≡ a * b * 3
unfolding frame_bytes to_size
frame_bytes-eq a b h k = omega (arith, area a b h k)

-- The renderer's sizes fit together, with no wrap-around anywhere.
pub record IsSized {D : Type 0} (r : Renderer D) : Type 0 where
  pub frame_eq : r.frame_bytes ≡ r.width * r.height * 3
  pub segment_eq : r.image.data_size ≡ r.frame_bytes
  pub accepted : r.frame_bytes ≤ max_image_bytes
  pub positive : (0 < r.width) × (0 < r.height)

-- The segment that is made for a size, and the renderer's numbers.
abbrev Fits : ℤ → ℤ → SharedImage → Type 0
Fits width height image =
    (frame_bytes width height ≡ pos_part width * pos_part height * 3)
    × (image.data_size ≡ frame_bytes width height)
    × ((0 < pos_part width) × (0 < pos_part height))

create-Fits :
    (width height : ℤ) (memory : ℕ → ℕ) (image : SharedImage)
    → pos_part width < 2 ^ 31
    → pos_part height < 2 ^ 31
    → frame_bytes width height ≤ max_image_bytes
    → create width height memory ≡ some image
    → Fits width height image
unfolding create
create-Fits (pos (suc a)) (pos (suc b)) memory image h k small e =
    let size : suc a * suc b * 3 % 2 ^ 32 ≡ image.data_size = ap data_size_of e in
    let exact = frame_bytes-eq (suc a) (suc b) h k in
    (exact, omega (arith, size, exact), (omega arith, omega arith))
  where
    data_size_of : Option SharedImage → ℕ
    data_size_of none = 0
    data_size_of (some i) = i.data_size
create-Fits (pos zero) height memory image h k small e = cc
create-Fits (negsuc n) height memory image h k small e = cc
create-Fits (pos (suc a)) (pos zero) memory image h k small e = cc
create-Fits (pos (suc a)) (negsuc n) memory image h k small e = cc

inside :
    (width height row c n : ℕ)
    → row < height
    → c < width * 3
    → n ≡ width * height * 3
    → row * width * 3 + c < n
inside width height row c n h k e = grind arith

ready-inj : {D : Type 0} {r s : Renderer D} → ready r ≡ ready s → r ≡ s
ready-inj e = cc

module _ {D : Type 0} ⦃f : Double D⦄ where
  attach-IsSized :
      (cfg : CameraConfig D) (around : Surroundings D) (m : Model D) (image : SharedImage)
      (head cam : ℤ) (r : Renderer D)
      → Fits cfg.width cfg.height image
      → frame_bytes cfg.width cfg.height ≤ max_image_bytes
      → attach cfg around m image head cam ≡ ready r
      → IsSized r
  unfolding attach
  attach-IsSized cfg around m image head (negsuc n) r fits small e = cc
  attach-IsSized cfg around m image head (pos cam) r fits small e =
      elim (if-cases (ltb_ℤ around.offwidth cfg.width || ltb_ℤ around.offheight cfg.height) _ _ _
        e) [
          | inl (_, made) ↦ cc
          | inr (_, made) ↦ subst IsSized (ready-inj made) (record {
            frame_eq = fits.0;
            segment_eq = fits.1;
            accepted = small;
            positive = fits.2;
          })
        ]

  after_segment-IsSized :
      (cfg : CameraConfig D) (around : Surroundings D) (m : Model D) (image : Option SharedImage)
      (r : Renderer D)
      → ((i : SharedImage) → image ≡ some i → Fits cfg.width cfg.height i)
      → frame_bytes cfg.width cfg.height ≤ max_image_bytes
      → after_segment cfg around m image ≡ ready r
      → IsSized r
  unfolding after_segment
  after_segment-IsSized cfg around m none r fits small e = cc
  after_segment-IsSized cfg around m (some image) r fits small e =
      elim (if-cases (not around.running) _ _ _ e) [
        | inl (_, made) ↦ cc
        | inr (_, made) ↦
            attach-IsSized cfg around m image (m.name2id Kind.body "Head_2")
              (m.name2id Kind.camera cfg.mjcf_camera) r (fits image refl) small made
      ]

  -- Where the width and the height are no more than an int holds: if the thread comes to render, then
  -- both are positive, the frame's size is three times their product, as the segment says it is, and
  -- it is no more than a reader accepts. A width and a height that are both negative, whose
  -- product would pass the first check, do not get there.
  pub prepare-IsSized :
      (cfg : CameraConfig D) (around : Surroundings D) (m : Model D) (r : Renderer D)
      → pos_part cfg.width < 2 ^ 31
      → pos_part cfg.height < 2 ^ 31
      → prepare cfg around m ≡ ready r
      → IsSized r
  unfolding prepare
  prepare-IsSized cfg around m r h k e =
      elim (if-cases (ltb max_image_bytes (frame_bytes cfg.width cfg.height)) _ _ _ e) [
        | inl (_, made) ↦ cc
        | inr (small, rest) ↦ elim (if-cases (not around.context_valid) _ _ _ rest) [
          | inl (_, made) ↦ cc
          | inr (_, made) ↦
              after_segment-IsSized cfg around m (make_image cfg around.memory) r
                (fits around.memory (ground arith)) (ground arith) made
        ]
      ]
    where
      fits :
          (memory : Option (ℕ → ℕ))
          → frame_bytes cfg.width cfg.height ≤ max_image_bytes
          → (i : SharedImage) → make_image cfg memory ≡ some i
          → Fits cfg.width cfg.height i
      fits none small i e = cc
      fits (some memory) small i e = create-Fits cfg.width cfg.height memory i h k small e

  length-render_round :
      (float_bits : D → ℕ) (u : Mju D) (d : Data D) (raw : ℕ → ℕ) (r : Renderer D)
      → length (render_round float_bits u d raw r).1.rgb ≡ r.frame_bytes
  unfolding render_round
  length-render_round float_bits u d raw r =
      length-map (flip r.width r.height raw r.flipped) (count_up 0 r.frame_bytes)
      ∙ length-count_up 0 r.frame_bytes

  -- A round of a renderer whose sizes fit, and then all the stores of the frame's publication: the
  -- segment holds the image with its rows turned about, each byte of row i being the byte at the same
  -- place of the row i from the bottom of what was rendered.
  pub run-render_round :
      (float_bits : D → ℕ) (u : Mju D) (d : Data D) (raw : ℕ → ℕ) (r : Renderer D) (row c : ℕ)
      → IsSized r
      → row < r.height
      → c < r.width * 3
      → let fr = (render_round float_bits u d raw r).1 in
        let w = run (call fr ∷ replicate (length (publish fr r.image)) make) (started r.image) in
        w.segment.pixels (row * r.width * 3 + c) ≡ raw ((r.height - 1 - row) * r.width * 3 + c)
  unfolding render_round
  run-render_round float_bits u d raw r row c sized h k =
      let fr = (render_round float_bits u d raw r).1 in
      let shows =
        run-Shows fr r.image (length-render_round float_bits u d raw r ∙ sym sized.segment_eq) in
      let rows = flip r.width r.height raw r.flipped in
      let j = row * r.width * 3 + c in
      shows.0.pixels_eq j (rows j) (
        get_elem?-map rows r.frame_bytes j
          (inside r.width r.height row c r.frame_bytes h k sized.frame_eq))
      ∙ flip-at r.width r.height row c raw r.flipped h k
