-- ===== src/Camera/ImageWriter/Published.antt =====
-- What a finished call of `publish` leaves.
use nusim.Base.{
  ℕ, suc, ◌+◌, ◌≡◌, refl, sym, ap, ◌∙◌, subst, some, List, [], ◌∷◌, ◌++◌, arith, length, get_elem?,
  replicate,
}
use nusim.MuJoCo.{write_all, write_all-at}
use nusim.Camera.ImageWriter.{
  SharedImage, Frame, Store, seqlock_store, pixel_store, focal_length_store, fov_store,
  centre_x_store, centre_y_store, k1_store, k2_store, store, copy_stores, frame_stores, u64,
  publish, call, make, advance, run,
}
use nusim.Camera.ImageWriter.Seqlock.{started}

-- All stores of a list, in order.
abbrev store_all : List Store → SharedImage → SharedImage
store_all [] m = m
store_all (s ∷ ss) m = store_all ss (store s m)

run-makes :
    (ss : List Store) (m : SharedImage)
    → run (replicate (length ss) make) (record { segment = m; pending = ss })
      ≡ started (store_all ss m)
unfolding run advance
run-makes [] m = refl
run-makes (s ∷ ss) m = run-makes ss (store s m)

store_all-append :
    (ss ts : List Store) (m : SharedImage) → store_all (ss ++ ts) m ≡ store_all ts (store_all ss m)
store_all-append [] ts m = refl
store_all-append (s ∷ ss) ts m = store_all-append ss ts (store s m)

store_all-copy_stores :
    (i : ℕ) (vs : List ℕ) (m : SharedImage)
    → store_all (copy_stores i vs) m ≡ record m { pixels = write_all m.pixels i vs }
unfolding store copy_stores
store_all-copy_stores i [] m = refl
store_all-copy_stores i (v ∷ vs) m = store_all-copy_stores (suc i) vs (store (pixel_store i v) m)

-- A segment that holds a frame.
pub record Shows (fr : Frame) (m : SharedImage) : Type 0 where
  pub pixels_eq : (j v : ℕ) → get_elem? fr.rgb j ≡ some v → m.pixels j ≡ v
  pub focal_length_eq : m.focal_length ≡ fr.focal_length
  pub fov_eq : m.fov ≡ fr.fov
  pub centre_x_eq : m.centre_x ≡ fr.centre_x
  pub centre_y_eq : m.centre_y ≡ fr.centre_y

publish-eq :
    (fr : Frame) (m : SharedImage)
    → length fr.rgb ≡ m.data_size
    → publish fr m
      ≡ seqlock_store (u64 (m.seqlock + 1))
        ∷ (frame_stores fr ++ (seqlock_store (u64 (m.seqlock + 2)) ∷ []))
unfolding publish
publish-eq fr m size = ground (arith, size)

-- The segment after all its stores.
published :
    (fr : Frame) (m : SharedImage)
    → length fr.rgb ≡ m.data_size
    → store_all (publish fr m) m ≡ record m {
      seqlock = u64 (m.seqlock + 2);
      focal_length = fr.focal_length;
      fov = fr.fov;
      centre_x = fr.centre_x;
      centre_y = fr.centre_y;
      k1 = 0;
      k2 = 0;
      pixels = write_all m.pixels 0 fr.rgb;
    }
unfolding publish frame_stores store
published fr m size =
    let m1 = store (seqlock_store (u64 (m.seqlock + 1))) m in
    let end = store (seqlock_store (u64 (m.seqlock + 2))) in
    let intrinsics : List Store =
      focal_length_store fr.focal_length
      ∷ fov_store fr.fov
      ∷ centre_x_store fr.centre_x
      ∷ centre_y_store fr.centre_y
      ∷ k1_store 0
      ∷ k2_store 0
      ∷ [] in
    ap (λ ss. store_all ss m) (publish-eq fr m size)
    ∙ store_all-append (frame_stores fr) (seqlock_store (u64 (m.seqlock + 2)) ∷ []) m1
    ∙ ap end (store_all-append (copy_stores 0 fr.rgb) intrinsics m1)
    ∙ ap (λ x. end (store_all intrinsics x)) (store_all-copy_stores 0 fr.rgb m1)

-- A call of `publish` with a frame of the segment's size, once all its stores are made, leaves that
-- frame in the segment, every byte of it, and the seqlock moved up by two.
pub run-Shows :
    (fr : Frame) (m : SharedImage)
    → length fr.rgb ≡ m.data_size
    → let w = run (call fr ∷ replicate (length (publish fr m)) make) (started m) in
      Shows fr w.segment × (w.segment.seqlock ≡ u64 (m.seqlock + 2)) × (w.pending ≡ [])
unfolding run advance
run-Shows fr m size = rw (run-makes (publish fr m) m) (
  subst (λ x. Shows fr x) (sym (published fr m size))
      (record {
        pixels_eq = λ j v e.
            subst (λ k. write_all m.pixels 0 fr.rgb k ≡ v) (omega arith)
              (write_all-at m.pixels 0 fr.rgb j v e);
        focal_length_eq = refl;
        fov_eq = refl;
        centre_x_eq = refl;
        centre_y_eq = refl;
      }),
  ap (λ (x : SharedImage). x.seqlock) (published fr m size),
  refl,
)
