-- ===== src/Viewer.antt =====
-- The viewer's mouse and keyboard, and its reactions (mujoco/module/Viewer/src/Viewer.cpp). GLFW and
-- MuJoCo's mjv and mjr functions are not in the repository: what the code asks of GLFW comes with
-- the event, and what mjv computes is a field of `Mjv`. Drawing is left out.
pub mod Types
pub mod Forces
use nusim.Base.{
  ℕ, zero, suc, ◌+◌, ◌*◌, Bool, true, false, not, ◌&&◌, ◌||◌, ltb, ◌==◌, if◌then◌else◌, replicate,
  ℤ, pos, negsuc, ltb_ℤ, ◌==ℤ◌,
}
use Prim.Native.String.{String}
use nusim.Double.{Double, nought}
use nusim.MuJoCo.{Model, Data, Mju, JointType, write, write_all}
use nusim.Robot.Booster.RobotMode
use nusim.Simulation.Snapshot.{SimStateUpdate, entries}
pub use Types.*

unfoldable pub mode_name : ℤ → String
mode_name mode =
    if mode ==ℤ RobotMode.damping
    then "DAMPING"
    else if mode ==ℤ RobotMode.prepare
    then "PREPARE"
    else if mode ==ℤ RobotMode.walking
    then "WALKING"
    else if mode ==ℤ RobotMode.custom
    then "CUSTOM"
    else if mode ==ℤ RobotMode.soccer
    then "SOCCER"
    else "?"

unfoldable pub end_perturb : {D R : Type 0} → Perturb D R → Perturb D R
end_perturb p = record p { active = 0 }

module _ {D : Type 0} ⦃f : Double D⦄ where
  open f use {add, dec}

  -- The F key's shove.
  unfoldable pub shove : Model D → Data D → Data D
  shove m d = elim (m.jnt_type 0) [
    | JointType.free ↦
        let dof = m.jnt_dofadr 0 in
        let qvel = write d.qvel dof (add (d.qvel dof) (dec (pos 15) 1)) in
        record d { qvel = write qvel (dof + 4) (add (qvel (dof + 4)) (dec (pos 6) 0)) }
    | _ ↦ d
  ]

module _ {D R C : Type 0} ⦃f : Double D⦄ where
  open f use {sub, mul, div, lt, dec, of_int}

  -- What the code leaves where it is.
  abbrev pub with_viewer : World D R C → Viewer D R C → World D R C
  with_viewer w v = record w { viewer = v }

  -- The world after a key, and whether a reset is asked for.
  unfoldable pub keyboard_cb : Model D → Key → Bool → World D R C → World D R C × Bool
  unfolding shove end_perturb
  keyboard_cb m key false w = (w, false)
  keyboard_cb m escape true w =
      (with_viewer w (record (w.viewer) { window_should_close = true }), false)
  keyboard_cb m backspace true w =
      (with_viewer w (record (w.viewer) { pert = end_perturb w.viewer.pert }), true)
  keyboard_cb m f_key true w =
      if w.viewer.attached && ltb 0 m.njnt
      then (record w { data_ = shove m w.data_ }, false)
      else (w, false)
  keyboard_cb m other_key true w = (w, false)

  module _ (j : Mjv D R C) (u : Mju D) (m : Model D) where
    -- Ctrl with a selected body: push or twist it.
    unfoldable pub begin_perturb : Click D → Data D → Perturb D R → Perturb D R
    begin_perturb c d p =
        if c.mod_ctrl && ltb_ℤ (pos 0) p.select
        then (if c.right
            then record p { reference = j.init_perturb m d p; active = translate }
            else if c.left
            then record p { reference = j.init_perturb m d p; active = rotate }
            else p)
        else p

    unfoldable pub is_double_click : Click D → Viewer D R C → Bool
    is_double_click c v =
        (c.button ==ℤ v.last_click_button) && lt (sub c.now v.last_click_time) (dec (pos 3) 1)

    -- What `mjv_select` has found is selected: a body, or none.
    unfoldable pub select_found : ℤ → Click D → Data D → Perturb D R → Perturb D R
    unfolding end_perturb
    select_found (pos body) c d p =
        let tmp = λ (k : ℕ). sub (c.selpnt k) (d.xpos (3 * body + k)) in
        record p {
          select = pos body;
          skinselect = c.skin;
          localpos = u.mul_mat_t_vec (entries d.xmat (9 * body)) tmp;
        }
    select_found (negsuc n) c d p = end_perturb (record p { select = pos 0; skinselect = negsuc 0 })

    abbrev pub select_body : Click D → Data D → Perturb D R → Perturb D R
    select_body c d p = select_found c.body c d p

    -- A press, once the buttons are stored.
    unfoldable pub press : Click D → Data D → Viewer D R C → Viewer D R C
    unfolding begin_perturb is_double_click select_found
    press c d v =
        let pert = begin_perturb c d v.pert in
        record v {
          last_click_time = c.now;
          last_click_button = c.button;
          pert =
              if is_double_click c v && (ltb_ℤ (pos 0) c.width && ltb_ℤ (pos 0) c.height)
              then select_body c d pert
              else pert;
        }

    abbrev pub store_buttons : Click D → Viewer D R C → Viewer D R C
    store_buttons c v = record v {
      button_left = c.left;
      button_middle = c.middle;
      button_right = c.right;
      last_x = c.x;
      last_y = c.y;
    }

    unfoldable pub mouse_button_cb : Click D → World D R C → World D R C
    unfolding press end_perturb
    mouse_button_cb c w =
        let v = store_buttons c w.viewer in
        with_viewer w (
          if not v.attached
          then v
          else if c.release
          then record v { pert = end_perturb v.pert }
          else press c w.data_ v)

    -- The camera's motion for the buttons.
    unfoldable pub camera_action : Bool → Viewer D R C → MouseAction
    camera_action shift v =
        if v.button_right
        then (if shift then move_h else move_v)
        else if v.button_left
        then (if shift then rotate_h else rotate_v)
        else zoom

    unfoldable pub mouse_move_cb : Move D → World D R C → World D R C
    unfolding camera_action
    mouse_move_cb c w =
        let dx = div (sub c.x w.viewer.last_x) (of_int c.height) in
        let dy = div (sub c.y w.viewer.last_y) (of_int c.height) in
        let v = record (w.viewer) { last_x = c.x; last_y = c.y } in
        with_viewer w (
          if not (v.button_left || v.button_middle || v.button_right) || not v.attached
          then v
          else if c.height ==ℤ pos 0
          then v
          else if c.mod_ctrl && not (v.pert.active == 0)
          then record v {
            pert = record (v.pert) {
              reference =
                  j.move_perturb m w.data_ (if v.button_right then move_v else rotate_v) dx dy
                    v.pert;
            };
          }
          else record v { cam = j.move_camera m (camera_action c.mod_shift v) dx dy v.cam })

    unfoldable pub scroll_cb : D → World D R C → World D R C
    scroll_cb yoffset w =
        if w.viewer.attached
        then with_viewer w (record (w.viewer) {
          cam = j.move_camera m zoom nought (mul (dec (negsuc 4) 2) yoffset) w.viewer.cam;
        })
        else w

    -- The reaction to the simulation's handles.
    unfoldable pub on_handles : Bool → Viewer D R C → Viewer D R C
    on_handles headless v =
        if headless
        then v
        else if v.has_window && not v.scene_ready
        then record v { attached = true; cam = j.default_free_camera m; scene_ready = true }
        else record v { attached = true }

    -- The perturbation's part of a frame, for the body that is selected.
    unfoldable pub apply_to : ℤ → World D R C → ℕ → D
    apply_to (pos zero) w = w.xfrc_applied
    apply_to (negsuc n) w = w.xfrc_applied
    apply_to (pos (suc body)) w =
        if not (w.viewer.pert.active == 0)
        then j.apply_perturb_force m w.data_ w.viewer.pert w.xfrc_applied
        else write_all w.xfrc_applied (6 * suc body) (replicate 6 nought)

    unfoldable pub apply_perturb : World D R C → ℕ → D
    unfolding apply_to
    apply_perturb w = apply_to w.viewer.pert.select w

    -- The reaction every 16 ms, with the events that `glfwPollEvents` hands out given as what they do
    -- to the world; and whether it shuts the program down.
    unfoldable pub on_frame : Bool → (World D R C → World D R C) → World D R C → World D R C × Bool
    unfolding apply_perturb
    on_frame headless poll_events w =
        if headless || not w.viewer.has_window
        then (w, false)
        else if w.viewer.window_should_close
        then (w, true)
        else let w' = poll_events w in
          (
            if w'.viewer.scene_ready && w'.viewer.attached
                then record w' { xfrc_applied = apply_perturb w' }
                else w',
            false,
          )

  -- The telemetry of the overlay.
  unfoldable pub on_state : SimStateUpdate D → Viewer D R C → Viewer D R C
  on_state s v = record v { sim_time = s.sim_time; mode = s.mode }

  -- The start, and whether `glfwInit` and `glfwCreateWindow` succeed.
  unfoldable pub on_startup : Bool → Bool → Bool → Viewer D R C → Viewer D R C
  on_startup headless init created v =
      if headless || not init then v else record v { has_window = created }

  unfoldable pub on_shutdown : Bool → Viewer D R C → Viewer D R C
  on_shutdown headless v =
      if headless then v else record v { scene_ready = false; has_window = false }
