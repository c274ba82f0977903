-- ===== src/Robot/Booster/ApiId.antt =====
-- `enum ApiId`: the calls of the LocoApi.
use nusim.Base.{ℤ, pos}

abbrev pub change_mode : ℤ
change_mode = pos 2000

abbrev pub move : ℤ
move = pos 2001

abbrev pub rotate_head : ℤ
rotate_head = pos 2004

abbrev pub wave_hand : ℤ
wave_hand = pos 2005

abbrev pub rotate_head_with_direction : ℤ
rotate_head_with_direction = pos 2006

abbrev pub lie_down : ℤ
lie_down = pos 2007

abbrev pub get_up : ℤ
get_up = pos 2008

abbrev pub get_mode : ℤ
get_mode = pos 2017

abbrev pub get_up_with_mode : ℤ
get_up_with_mode = pos 2025

abbrev pub visual_kick : ℤ
visual_kick = pos 2038
