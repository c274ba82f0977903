-- ===== src/Camera/Thread/Paced.antt =====
-- How the frames are spaced.
use nusim.Base.{ℕ, ◌+◌, ◌*◌, ◌≤◌, ap, List, [], ◌∷◌, ◌++◌, arith, length, length-append}
use nusim.Camera.Thread.{pace_frame, pace_frames}

-- Every frame is done after the thread has slept until the frame's time.
unfoldable pub Slept : ℕ → List ℕ → ℕ → Type 0
Slept period [] next_frame = Unit
Slept period (now ∷ rest) next_frame =
    (next_frame ≤ now) × Slept period rest (pace_frame period now next_frame)

pace_frames-low :
    (period : ℕ) (nows : List ℕ) (next_frame : ℕ)
    → next_frame + length nows * period ≤ pace_frames period nows next_frame
unfolding pace_frames pace_frame
pace_frames-low period [] next_frame = omega arith
pace_frames-low period (now ∷ rest) next_frame =
    grind (arith, pace_frames-low period rest (pace_frame period now next_frame))

pace_frames-last :
    (period : ℕ) (nows : List ℕ) (now next_frame : ℕ)
    → Slept period (nows ++ (now ∷ [])) next_frame
    → (now ≤ pace_frames period (nows ++ (now ∷ [])) next_frame)
      × (pace_frames period (nows ++ (now ∷ [])) next_frame ≤ now + period)
unfolding pace_frames pace_frame Slept
pace_frames-last period [] now next_frame h = ground arith
pace_frames-last period (n ∷ ns) now next_frame h =
    pace_frames-last period ns now (pace_frame period n next_frame) h.1

-- Where the thread sleeps until each frame's time, the time of the next frame after any frames is
-- not before the first one's by as many periods as there were frames, not before the present, and
-- not more than a period after it: frames come at most at the rate that is asked for, and a round
-- that took too long is not made up for.
pub pace_frames-IsLimited :
    (period : ℕ) (nows : List ℕ) (now start : ℕ)
    → Slept period (nows ++ (now ∷ [])) start
    → let next = pace_frames period (nows ++ (now ∷ [])) start in
      (start + (length nows + 1) * period ≤ next) × (now ≤ next) × (next ≤ now + period)
pace_frames-IsLimited period nows now start h =
    let (low, high) = pace_frames-last period nows now start h in
    let enough = pace_frames-low period (nows ++ (now ∷ [])) start in
    let count = ap (λ n. n * period) (length-append nows (now ∷ [])) in
    (omega (arith, enough, count), low, high)
