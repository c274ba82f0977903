-- ===== src/Robot/Booster/FallState.antt =====
-- `enum FallState`.
use nusim.Base.{ℤ, pos}

abbrev pub is_ready : ℤ
is_ready = pos 0

abbrev pub is_falling : ℤ
is_falling = pos 1

abbrev pub has_fallen : ℤ
has_fallen = pos 2

abbrev pub is_getting_up : ℤ
is_getting_up = pos 3
