-- ===== src/Simulation/Sleep.antt =====
-- Sleeping until a deadline where there is no clock_nanosleep (`sleep_until_monotonic` of
-- mujoco/module/Simulation/src/SimCore.cpp, as it is built for macOS). What clock_gettime and
-- nanosleep answer in each round is given; the loop is a recursion on these answers.
pub mod Exact
use nusim.Base.{
  Bool, true, false, ◌&&◌, ◌||◌, List, [], ◌∷◌, if◌then◌else◌, pos, ◌+ℤ◌, ◌-ℤ◌, ltb_ℤ, ◌==ℤ◌,
}
use nusim.Simulation.Pacing.{Timespec}

-- 0, -1 with EINTR, -1 with another errno
pub data SleepEnd : Type 0 where
  finished interrupted failed : SleepEnd

pub record Wake : Type 0 where
  pub now : Timespec
  pub slept : SleepEnd

unfoldable pub remaining : Timespec → Timespec → Timespec
remaining deadline now =
    let sec = deadline.tv_sec -ℤ now.tv_sec in
    let nsec = deadline.tv_nsec -ℤ now.tv_nsec in
    if ltb_ℤ nsec (pos 0)
    then record { tv_sec = sec -ℤ pos 1; tv_nsec = nsec +ℤ pos 1000000000 }
    else record { tv_sec = sec; tv_nsec = nsec }

unfoldable pub is_over : Timespec → Bool
is_over t = ltb_ℤ t.tv_sec (pos 0) || (t.tv_sec ==ℤ pos 0 && t.tv_nsec ==ℤ pos 0)

-- What nanosleep is asked for, in order, and whether the loop has returned.
unfoldable pub sleep_until_monotonic : Timespec → List Wake → List Timespec × Bool
sleep_until_monotonic deadline [] = ([], false)
sleep_until_monotonic deadline (w ∷ ws) =
    let left = remaining deadline w.now in
    let (more, done) = sleep_until_monotonic deadline ws in
    if is_over left
    then ([], true)
    else elim w.slept [ interrupted ↦ (left ∷ more, done) | _ ↦ (left ∷ [], true) ]
