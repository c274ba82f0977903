-- ===== src/Simulation/Pacing.antt =====
-- The pacing of the physics thread against the wall clock (`physics_loop` of
-- mujoco/module/Simulation/src/SimCore.cpp, with `to_seconds` and `add_seconds`). What the clock
-- reads is given from outside; sleeping until the deadline changes nothing here.
pub mod Punctual
use nusim.Base.{ℕ, ◌+◌, ◌-◌, ◌%◌, ◌^◌, Bool, List, [], ◌∷◌, if◌then◌else◌, ℤ, pos, ◌+ℤ◌, ◌-ℤ◌}
use nusim.Double.{Double, nought, unit}
use nusim.Simulation.Core.{SimConfig}

-- timespec, with `tv_sec` and `tv_nsec` as integers that do not overflow
pub record Timespec : Type 0 where
  pub tv_sec : ℤ
  pub tv_nsec : ℤ

-- What the thread carries for its pacing, with the two counters the others read.
pub record Pacer (D : Type 0) : Type 0 where
  pub deadline : Timespec
  pub dropped_deadlines : ℕ  -- uint64_t
  pub window_wall_start : D
  pub window_step_start : ℕ  -- uint64_t
  pub measured_rtf : D

-- The two readings of the clock in a round.
pub record Reading : Type 0 where
  pub now_ts : Timespec
  pub wall_now : Timespec

module _ {D : Type 0} ⦃f : Double D⦄ where
  open f use {add, sub, mul, div, lt, le, dec, of_int, floor}

  unfoldable pub to_seconds : Timespec → D
  to_seconds t = add (of_int t.tv_sec) (mul (of_int t.tv_nsec) (dec (pos 1) 9))

  -- 1e9
  abbrev pub billion : D
  billion = dec (pos 1000000000) 0

  -- static_cast<long>, towards zero
  unfoldable pub to_long : D → ℤ
  to_long x = if lt x nought then pos 0 -ℤ floor (f.neg x) else floor x

  unfoldable pub add_seconds : Timespec → D → Timespec
  add_seconds t seconds =
      let total_nsec = add (of_int t.tv_nsec) (mul seconds billion) in
      let sec_adjust = floor (div total_nsec billion) in
      record {
        tv_sec = t.tv_sec +ℤ sec_adjust;
        tv_nsec = to_long (sub total_nsec (mul (of_int sec_adjust) billion));
      }

  unfoldable pub is_free_run : SimConfig D → Bool
  is_free_run cfg = le cfg.rtf nought

  unfoldable pub period : SimConfig D → D → D
  period cfg dt = if is_free_run cfg then nought else div dt cfg.rtf

  -- The pacer as the thread starts, from the clock's first reading.
  unfoldable pub start_pacer : Timespec → Pacer D
  start_pacer t = record {
    deadline = t;
    dropped_deadlines = 0;
    window_wall_start = to_seconds t;
    window_step_start = 0;
    measured_rtf = nought;
  }

  -- How far a deadline is behind the clock.
  unfoldable pub behind : Timespec → Timespec → D
  behind now_ts deadline = sub (to_seconds now_ts) (to_seconds deadline)

  -- The next deadline, or the present where the thread is too far behind.
  unfoldable pub meet_deadline : SimConfig D → D → Timespec → Pacer D → Pacer D
  meet_deadline cfg dt now_ts p =
      let deadline = add_seconds p.deadline (period cfg dt) in
      if lt cfg.resync_threshold (behind now_ts deadline)
      then record p { deadline = now_ts; dropped_deadlines = (p.dropped_deadlines + 1) % 2 ^ 64 }
      else record p { deadline = deadline }

  -- The real-time factor, once a second.
  unfoldable pub measure : D → Timespec → ℕ → Pacer D → Pacer D
  measure dt wall_now steps p =
      let wall_elapsed = sub (to_seconds wall_now) p.window_wall_start in
      let stepped = (steps + 2 ^ 64 - p.window_step_start) % 2 ^ 64 in
      if le unit wall_elapsed
      then record p {
        measured_rtf = div (mul (of_int (pos stepped)) dt) wall_elapsed;
        window_wall_start = to_seconds wall_now;
        window_step_start = steps;
      }
      else p

  -- The end of a round.
  unfoldable pub pace : SimConfig D → D → Reading → ℕ → Pacer D → Pacer D
  pace cfg dt r steps p =
      measure dt r.wall_now steps (if is_free_run cfg then p else meet_deadline cfg dt r.now_ts p)

  -- Rounds in turn, from a number of steps on.
  unfoldable pub pace_rounds : SimConfig D → D → List Reading → ℕ → Pacer D → Pacer D
  pace_rounds cfg dt [] steps p = p
  pace_rounds cfg dt (r ∷ rs) steps p =
      let now = (steps + 1) % 2 ^ 64 in pace_rounds cfg dt rs now (pace cfg dt r now p)
