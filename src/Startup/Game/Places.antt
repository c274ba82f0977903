-- ===== src/Startup/Game/Places.antt =====
-- The places of a line-up off the touchlines.
use nusim.Base.{ℕ, ◌+◌, ◌*◌, ◌/◌, ◌%◌, ◌<◌, ◌≡◌, Bool, true, false, arith}
use nusim.Startup.Game.{slot, is_right_side}

-- Two robots on one side of the field never stand in the same place; each place of each side has a
-- robot whose number it is; and among the first 11 robots no place is past the sixth of its side.
pub slot-places :
    ((i j : ℕ) → slot i ≡ slot j → is_right_side i ≡ is_right_side j → i ≡ j)
    × ((s : ℕ) (b : Bool) → (i : ℕ) × (slot i ≡ s) × (is_right_side i ≡ b))
    × ((i : ℕ) → i < 11 → slot i < 6)
unfolding slot is_right_side
slot-places = ((λ i j h k. ground arith), robot_of, (λ i h. omega arith))
  where
    robot_of : (s : ℕ) (b : Bool) → (i : ℕ) × (slot i ≡ s) × (is_right_side i ≡ b)
    robot_of s true = ((s / 2) * 4 + s % 2, ground arith, ground arith)
    robot_of s false = ((s / 2) * 4 + 2 + s % 2, ground arith, ground arith)
