-- ===== src/ConsoleLog.antt =====
-- The console log (mujoco/module/ConsoleLog/src/ConsoleLog.cpp): which lines are printed.
use nusim.Base.{ℕ, List, [], ◌∷◌, ltb, if◌then◌else◌}
use Prim.Native.String.{String, ◌++◌}

-- NUClear's message, with the levels as numbers in their order.
pub record LogMessage : Type 0 where
  pub level : ℕ
  pub display_level : ℕ
  pub level_name : String
  pub reactor_name : String
  pub text : String

unfoldable pub on_log_message : LogMessage → List String
on_log_message msg =
    if ltb msg.level msg.display_level
    then []
    else ("[" ++ (msg.level_name ++ ("] " ++ (msg.reactor_name ++ (": " ++ (msg.text ++ "\n"))))))
      ∷ []
