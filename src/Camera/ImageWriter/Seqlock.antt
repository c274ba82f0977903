-- ===== src/Camera/ImageWriter/Seqlock.antt =====
-- What a reader may conclude from the seqlock.
use nusim.Base.{
  ℕ, suc, ◌+◌, ◌%◌, ◌^◌, ◌≤◌, ◌<◌, ◌≡◌, refl, sym, ap, ◌∙◌, subst, ◌⊎◌, inl, inr, Bool, true, false,
  not, some, List, [], ◌∷◌, ◌++◌, arith, ◌==◌, if◌then◌else◌, length, All, ℤ,
}
use nusim.Camera.ImageWriter.{
  SharedImage, Frame, Store, seqlock_store, pixel_store, focal_length_store, fov_store,
  centre_x_store, centre_y_store, k1_store, k2_store, store, create, copy_stores, frame_stores, u64,
  publish, Writer, Event, call, make, advance, run,
}

-- All but the seqlock.
abbrev pub contents : SharedImage → SharedImage
contents m = record m { seqlock = 0 }

-- A store into the frame.
abbrev pub IsFrameStore : Store → Type 0
IsFrameStore (seqlock_store s) = ⊥
IsFrameStore _ = Unit {0}

-- Stores into the frame, then the one that sets the seqlock to s.
abbrev pub EndsWith : ℕ → List Store → Type 0
EndsWith s [] = ⊥
EndsWith s (x ∷ []) = x ≡ seqlock_store s
EndsWith s (x ∷ y ∷ ys) = IsFrameStore x × EndsWith s (y ∷ ys)

-- Where the writer is, with seqlock n and some pending stores: between two publications or before
-- the first store of one, n being even; or within one, n being odd.
abbrev pub IsPhase : ℕ → List Store → Type 0
IsPhase n [] = n % 2 ≡ 0
IsPhase n (s ∷ ss) =
    ((n % 2 ≡ 0) × (s ≡ seqlock_store (u64 (n + 1))) × EndsWith (u64 (n + 2)) ss)
    ⊎ ((n % 2 ≡ 1) × EndsWith (u64 (n + 1)) (s ∷ ss))

pub record IsOrderly (w : Writer) : Type 0 where
  pub bounded : w.segment.seqlock < 2 ^ 64
  pub phase : IsPhase w.segment.seqlock w.pending

EndsWith-append :
    (s : ℕ) (xs : List Store) → All IsFrameStore xs → EndsWith s (xs ++ (seqlock_store s ∷ []))
EndsWith-append s [] h = refl
EndsWith-append s (x ∷ []) h = (h.0, refl)
EndsWith-append s (x ∷ y ∷ ys) h = (h.0, EndsWith-append s (y ∷ ys) h.1)

copy_stores-frame :
    (i : ℕ) (vs : List ℕ) (rest : List Store)
    → All IsFrameStore rest
    → All IsFrameStore (copy_stores i vs ++ rest)
unfolding copy_stores
copy_stores-frame i [] rest h = h
copy_stores-frame i (v ∷ vs) rest h = (tt, copy_stores-frame (suc i) vs rest h)

publish-IsPhase :
    (fr : Frame) (m : SharedImage) → m.seqlock % 2 ≡ 0 → IsPhase m.seqlock (publish fr m)
unfolding publish frame_stores
publish-IsPhase fr m h = go (not (length fr.rgb == m.data_size))
  where
    go :
        (b : Bool)
        → IsPhase m.seqlock (
            if b
            then []
            else seqlock_store (u64 (m.seqlock + 1))
              ∷ (frame_stores fr ++ (seqlock_store (u64 (m.seqlock + 2)) ∷ [])))
    go true = h
    go false = inl (
      h,
      refl,
      EndsWith-append (u64 (m.seqlock + 2)) (frame_stores fr)
          (copy_stores-frame 0 fr.rgb _ (tt, (tt, (tt, (tt, (tt, (tt, tt))))))),
    )

-- One event: the seqlock stays, and with it the contents if it is even; or it moves up by one.
pub data Moves (w v : Writer) : Type 0 where
  kept :
      v.segment.seqlock ≡ w.segment.seqlock
      → (w.segment.seqlock % 2 ≡ 0 → contents v.segment ≡ contents w.segment)
      → Moves w v
  bumped : v.segment.seqlock ≡ u64 (w.segment.seqlock + 1) → Moves w v

frame_store-seqlock :
    (s : Store) (m : SharedImage) → IsFrameStore s → (store s m).seqlock ≡ m.seqlock
unfolding store
frame_store-seqlock (seqlock_store s) m h = elim h [ ]
frame_store-seqlock (pixel_store i v) m h = refl
frame_store-seqlock (focal_length_store v) m h = refl
frame_store-seqlock (fov_store v) m h = refl
frame_store-seqlock (centre_x_store v) m h = refl
frame_store-seqlock (centre_y_store v) m h = refl
frame_store-seqlock (k1_store v) m h = refl
frame_store-seqlock (k2_store v) m h = refl

-- The first store of a publication.
open-Moves :
    (m : SharedImage) (ss : List Store)
    → m.seqlock < 2 ^ 64
    → m.seqlock % 2 ≡ 0
    → EndsWith (u64 (m.seqlock + 2)) ss
    → let n = u64 (m.seqlock + 1) in
      let v : Writer = record { segment = record m { seqlock = n }; pending = ss } in
      IsOrderly v × Moves (record { segment = m; pending = seqlock_store n ∷ ss }) v
open-Moves m [] b even h = absurd h
open-Moves m (y ∷ ys) b even h = (
  record {
    bounded = omega arith;
    phase =
        inr (omega (arith, b, even), subst (λ k. EndsWith k (y ∷ ys)) (omega (arith, b, even)) h);
  },
  bumped refl,
)

-- The next store of one that has begun.
write-Moves :
    (m : SharedImage) (s : Store) (ss : List Store)
    → m.seqlock < 2 ^ 64
    → m.seqlock % 2 ≡ 1
    → EndsWith (u64 (m.seqlock + 1)) (s ∷ ss)
    → let v : Writer = record { segment = store s m; pending = ss } in
      IsOrderly v × Moves (record { segment = m; pending = s ∷ ss }) v
unfolding store
write-Moves m s [] b odd h =
    subst
      (λ x.
        IsOrderly (record { segment = store x m; pending = [] })
        × Moves (record { segment = m; pending = x ∷ [] })
            (record { segment = store x m; pending = [] }))
      (sym h) (record { bounded = omega arith; phase = omega (arith, b, odd) }, bumped refl)
write-Moves m s (y ∷ ys) b odd h =
    let same = frame_store-seqlock s m h.0 in
    (
      record {
        bounded = omega (arith, same, b);
        phase =
            inr (
              omega (arith, same, odd),
              subst (λ k. EndsWith (u64 (k + 1)) (y ∷ ys)) (sym same) h.1,
            );
      },
      kept same (λ even. absurd (omega (arith, even, odd))),
    )

make-Moves :
    (m : SharedImage) (s : Store) (ss : List Store)
    → m.seqlock < 2 ^ 64
    → IsPhase m.seqlock (s ∷ ss)
    → let v : Writer = record { segment = store s m; pending = ss } in
      IsOrderly v × Moves (record { segment = m; pending = s ∷ ss }) v
unfolding store
make-Moves m s ss b (inl (even, q, h)) =
    subst
      (λ x.
        IsOrderly (record { segment = store x m; pending = ss })
        × Moves (record { segment = m; pending = x ∷ ss })
            (record { segment = store x m; pending = ss }))
      (sym q) (open-Moves m ss b even h)
make-Moves m s ss b (inr (odd, h)) = write-Moves m s ss b odd h

advance-Moves :
    (e : Event) (m : SharedImage) (ss : List Store)
    → IsOrderly (record { segment = m; pending = ss })
    → let w : Writer = record { segment = m; pending = ss } in
      IsOrderly (advance e w) × Moves w (advance e w)
unfolding advance
advance-Moves (call fr) m [] h =
    (record { bounded = h.bounded; phase = publish-IsPhase fr m h.phase }, kept refl (λ even. refl))
advance-Moves (call fr) m (s ∷ ss) h = (h, kept refl (λ even. refl))
advance-Moves make m [] h = (h, kept refl (λ even. refl))
advance-Moves make m (s ∷ ss) h = make-Moves m s ss h.bounded h.phase

-- After some events: the seqlock has moved up by at most as many, and if it has not moved and is
-- even, the contents are the same.
record Progress (w v : Writer) (n : ℕ) : Type 0 where
  orderly : IsOrderly v
  moved : ℕ
  at_most : moved ≤ n
  seqlock_eq : v.segment.seqlock ≡ u64 (w.segment.seqlock + moved)
  unmoved : moved ≡ 0 → w.segment.seqlock % 2 ≡ 0 → contents v.segment ≡ contents w.segment

chain : (w v x : Writer) (n : ℕ) → IsOrderly w → Moves w v → Progress v x n → Progress w x (suc n)
chain w v x n o (kept same rest) p = record {
  orderly = p.orderly;
  moved = p.moved;
  at_most = omega (arith, p.at_most);
  seqlock_eq = p.seqlock_eq ∙ ap (λ k. u64 (k + p.moved)) same;
  unmoved = λ z even. p.unmoved z (ap (λ k. k % 2) same ∙ even) ∙ rest even;
}
chain w v x n o (bumped up) p = record {
  orderly = p.orderly;
  moved = suc p.moved;
  at_most = omega (arith, p.at_most);
  seqlock_eq = omega (arith, p.seqlock_eq, up);
  unmoved = λ z even. absurd (omega (arith, z));
}

run-Progress : (es : List Event) (w : Writer) → IsOrderly w → Progress w (run es w) (length es)
unfolding run
run-Progress [] w o = record {
  orderly = o;
  moved = 0;
  at_most = omega arith;
  seqlock_eq = omega (arith, o.bounded);
  unmoved = λ z even. refl;
}
run-Progress (e ∷ es) w o =
    let (o1, step) = advance-Moves e w.segment w.pending o in
    chain w (advance e w) (run es (advance e w)) (length es) o step
      (run-Progress es (advance e w) o1)

-- The writer after the constructor.
abbrev pub started : SharedImage → Writer
started m = record { segment = m; pending = [] }

started-IsOrderly :
    (w h : ℤ) (memory : ℕ → ℕ) (m : SharedImage)
    → create w h memory ≡ some m
    → IsOrderly (started m)
unfolding create
started-IsOrderly w h memory m e = record { bounded = ground arith; phase = ground arith }

-- The reader's test is sound, however the stores of the frames fall between its loads. Let a reader
-- load an even seqlock, and load the same value again after fewer than 2 ^ 64 further events: then
-- at every moment between the two loads the pixels and the intrinsics were those of the first.
pub run-contents :
    (w h : ℤ) (memory : ℕ → ℕ) (m : SharedImage) (before es fs : List Event)
    → create w h memory ≡ some m
    → let first = run before (started m) in
      let second = run es first in
      let third = run fs second in
      first.segment.seqlock % 2 ≡ 0
      → third.segment.seqlock ≡ first.segment.seqlock
      → length es + length fs < 2 ^ 64
      → contents second.segment ≡ contents first.segment
run-contents w h memory m before es fs made even same few =
    let o = (run-Progress before (started m) (started-IsOrderly w h memory m made)).orderly in
    let first = run before (started m) in
    let p = run-Progress es first o in
    let q = run-Progress fs (run es first) p.orderly in
    p.unmoved
      (omega (arith, p.at_most, q.at_most, p.seqlock_eq, q.seqlock_eq, same, few, o.bounded)) even
