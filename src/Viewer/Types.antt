-- ===== src/Viewer/Types.antt =====
-- The viewer's globals and events (mujoco/module/Viewer/src/Viewer.cpp), and mjv's functions.
use nusim.Base.{ℕ, Bool, ℤ}
use nusim.MuJoCo.{Model, Data}

pub data MouseAction : Type 0 where
  rotate_v rotate_h move_v move_h zoom : MouseAction

-- mjtPertBit, and 0 for no perturbation
abbrev pub translate : ℕ
translate = 1

abbrev pub rotate : ℕ
rotate = 2

-- mjvPerturb: what the code sets, and the rest, which mjv keeps.
pub record Perturb (D R : Type 0) : Type 0 where
  pub select : ℤ
  pub skinselect : ℤ
  pub active : ℕ
  pub localpos : ℕ → D
  pub reference : R

-- mjv's functions; `C` is an mjvCamera.
pub record Mjv (D R C : Type 0) : Type 0 where
  pub init_perturb : Model D → Data D → Perturb D R → R
  pub move_perturb : Model D → Data D → MouseAction → D → D → Perturb D R → R
  -- mjv_applyPerturbForce, as the change of `xfrc_applied`
  pub apply_perturb_force : Model D → Data D → Perturb D R → (ℕ → D) → ℕ → D
  pub move_camera : Model D → MouseAction → D → D → C → C
  pub default_free_camera : Model D → C

-- The globals; the three pointers to the simulation are set together.
pub record Viewer (D R C : Type 0) : Type 0 where
  pub has_window : Bool
  pub window_should_close : Bool
  pub scene_ready : Bool
  pub attached : Bool
  pub sim_time : D
  pub mode : ℤ
  pub button_left : Bool
  pub button_middle : Bool
  pub button_right : Bool
  pub last_x : D
  pub last_y : D
  pub pert : Perturb D R
  pub cam : C
  pub last_click_time : D
  pub last_click_button : ℤ

-- With the data that the viewer changes.
pub record World (D R C : Type 0) : Type 0 where
  pub viewer : Viewer D R C
  pub data_ : Data D
  pub xfrc_applied : ℕ → D

pub data Key : Type 0 where
  escape backspace f_key other_key : Key

-- A call of the mouse button's callback: its arguments, what GLFW says of the buttons, the cursor,
-- the time and the window, and what `mjv_select` finds.
pub record Click (D : Type 0) : Type 0 where
  pub button : ℤ
  pub release : Bool
  pub mod_ctrl : Bool
  pub left : Bool
  pub middle : Bool
  pub right : Bool
  pub x : D
  pub y : D
  pub now : D
  pub width : ℤ
  pub height : ℤ
  pub body : ℤ
  pub skin : ℤ
  pub selpnt : ℕ → D

pub record Move (D : Type 0) : Type 0 where
  pub x : D
  pub y : D
  pub height : ℤ
  pub mod_shift : Bool
  pub mod_ctrl : Bool
