-- ===== src/Camera/ImageWriter.antt =====
-- The shared-memory frame (mujoco/module/Camera/src/SharedImageWriter.hpp and .cpp). The memory is
-- seen by another process while it is written, so a publication is a sequence of stores: a state
-- between two of them is one that a reader may see. The fences of the code keep the order.
pub mod Seqlock
pub mod Published
use nusim.Base.{
  ℕ, suc, ◌+◌, ◌*◌, ◌%◌, ◌^◌, not, Option, none, some, List, [], ◌∷◌, ◌++◌, ◌==◌, if◌then◌else◌,
  length, ℤ, pos,
}

-- A frame as it is passed to `publish`: the pixels and the intrinsics, in this order focal_length,
-- fov, centre_x, centre_y, each float as its bits.
pub record Frame : Type 0 where
  pub rgb : List ℕ
  pub focal_length : ℕ
  pub fov : ℕ
  pub centre_x : ℕ
  pub centre_y : ℕ

-- The segment: the header's fields that change, and the pixels.
pub record SharedImage : Type 0 where
  pub seqlock : ℕ  -- uint64_t
  pub data_size : ℕ
  pub width : ℕ
  pub height : ℕ
  pub focal_length : ℕ
  pub fov : ℕ
  pub centre_x : ℕ
  pub centre_y : ℕ
  pub k1 : ℕ
  pub k2 : ℕ
  pub pixels : ℕ → ℕ

-- The constructor; `none` where it throws, on a size that is not positive.
unfoldable pub create : ℤ → ℤ → (ℕ → ℕ) → Option SharedImage
create (pos (suc w)) (pos (suc h)) memory = some (record {
  seqlock = 0;
  data_size = suc w * suc h * 3 % 2 ^ 32;
  width = suc w;
  height = suc h;
  focal_length = 0;
  fov = 0;
  centre_x = 0;
  centre_y = 0;
  k1 = 0;
  k2 = 0;
  pixels = memory;
})
create _ _ memory = none

pub data Store : Type 0 where
  seqlock_store : ℕ → Store
  pixel_store : ℕ → ℕ → Store
  focal_length_store fov_store centre_x_store centre_y_store k1_store k2_store : ℕ → Store

unfoldable pub store : Store → SharedImage → SharedImage
store (seqlock_store s) m = record m { seqlock = s }
store (pixel_store i v) m = record m { pixels = λ j. if j == i then v else m.pixels j }
store (focal_length_store v) m = record m { focal_length = v }
store (fov_store v) m = record m { fov = v }
store (centre_x_store v) m = record m { centre_x = v }
store (centre_y_store v) m = record m { centre_y = v }
store (k1_store v) m = record m { k1 = v }
store (k2_store v) m = record m { k2 = v }

-- memcpy(pixels_, rgb, rgb_size), byte by byte from index i.
unfoldable pub copy_stores : ℕ → List ℕ → List Store
copy_stores i [] = []
copy_stores i (v ∷ vs) = pixel_store i v ∷ copy_stores (suc i) vs

abbrev pub u64 : ℕ → ℕ
u64 n = n % 2 ^ 64

-- The stores between the two of the seqlock.
unfoldable pub frame_stores : Frame → List Store
frame_stores fr =
    copy_stores 0 fr.rgb
    ++ (focal_length_store fr.focal_length
        ∷ fov_store fr.fov
        ∷ centre_x_store fr.centre_x
        ∷ centre_y_store fr.centre_y
        ∷ k1_store 0
        ∷ k2_store 0
        ∷ [])

-- `publish`, as the stores that it makes on a segment.
unfoldable pub publish : Frame → SharedImage → List Store
publish fr m =
    if not (length fr.rgb == m.data_size)
    then []
    else let s = m.seqlock in
      seqlock_store (u64 (s + 1)) ∷ (frame_stores fr ++ (seqlock_store (u64 (s + 2)) ∷ []))

-- The writer: the segment, and the stores that the call under way has still to make.
pub record Writer : Type 0 where
  pub segment : SharedImage
  pub pending : List Store

-- What happens to it: `publish` is called, or the next store is made. A call while another is under
-- way does not occur, as one thread makes them.
pub data Event : Type 0 where
  call : Frame → Event
  make : Event

unfoldable pub advance : Event → Writer → Writer
advance (call fr) w = elim w.pending [
  | [] ↦ record w { pending = publish fr w.segment }
  | _ ∷ _ ↦ w
]
advance make w = elim w.pending [
  | [] ↦ w
  | s ∷ ss ↦ record { segment = store s w.segment; pending = ss }
]

-- Events in turn.
unfoldable pub run : List Event → Writer → Writer
run [] w = w
run (e ∷ es) w = run es (advance e w)
