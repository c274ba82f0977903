-- ===== src/Robot/Booster/RobotMode.antt =====
-- `enum RobotMode`.
use nusim.Base.{ℤ, pos, negsuc}

abbrev pub unknown : ℤ
unknown = negsuc 0

abbrev pub damping : ℤ
damping = pos 0

abbrev pub prepare : ℤ
prepare = pos 1

abbrev pub walking : ℤ
walking = pos 2

abbrev pub custom : ℤ
custom = pos 3

abbrev pub soccer : ℤ
soccer = pos 4
