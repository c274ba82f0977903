-- ===== src/Supervisor/Names.antt =====
-- The names for the log (`state_name` and `penalty_state_name` of
-- mujoco/module/Supervisor/src/GameControllerPacket.hpp), for an enumeration's value in a byte.
use nusim.Base.{ℕ, [], ◌∷◌, get_or}
use Prim.Native.String.{String}

unfoldable pub state_name : ℕ → String
state_name value =
    get_or ("INITIAL" ∷ "READY" ∷ "SET" ∷ "PLAYING" ∷ "FINISHED" ∷ []) value "UNKNOWN"

unfoldable pub penalty_state_name : ℕ → String
penalty_state_name value =
    get_or
      ("UNPENALISED" ∷ "ILLEGAL_POSITIONING" ∷ "MOTION_IN_SET" ∷ "MOTION_IN_STOP"
        ∷ "LOCAL_GAME_STUCK" ∷ "INCAPABLE_ROBOT" ∷ "PICK_UP" ∷ "BALL_HOLDING" ∷ "LEAVING_THE_FIELD"
        ∷ "PLAYING_WITH_ARMS_HANDS" ∷ "PLAYER_PUSHING" ∷ "CAUTIONED" ∷ "SENT_OFF" ∷ "SUBSTITUTE"
        ∷ [])
      value "UNKNOWN"
