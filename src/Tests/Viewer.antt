-- ===== src/Tests/Viewer.antt =====
-- The viewer's theorems: a drag that ends, and a double click that comes too soon after one.
use nusim.Base.{
  ◌+◌, ◌*◌, ◌≡◌, refl, inl, inr, Bool, true, false, arith, ◌==◌, if◌then◌else◌, Bool-cases, ℤ, pos,
  negsuc,
}
use nusim.Double.Fixed.{fixed}
use nusim.Viewer.{Mjv, World, Click, mouse_button_cb, on_frame, is_double_click}
use nusim.Viewer.Forces.{
  IsMjv, OnlySelected, frames, mouse_button_cb-released, mouse_button_cb-stuck,
}
use nusim.Tests.Fixtures.{pitch, still, vectors}

-- A library in which a drag applies no force, and one camera.
abbrev mjv : Mjv ℤ (Unit {0}) (Unit {0})
mjv = record {
  init_perturb = λ m d p. tt;
  move_perturb = λ m d a dx dy p. tt;
  apply_perturb_force = λ m d p xfrc. xfrc;
  move_camera = λ m a dx dy c. c;
  default_free_camera = λ m. tt;
}

mjv-IsMjv : IsMjv mjv
mjv-IsMjv = record { applies_to_selected = λ m d p xfrc i h. refl }

-- Body 2 is being dragged, with a force on it.
abbrev dragged : World ℤ (Unit {0}) (Unit {0})
dragged = record {
  viewer = record {
    has_window = true;
    window_should_close = false;
    scene_ready = true;
    attached = true;
    sim_time = pos 0;
    mode = pos 2;
    button_left = false;
    button_middle = false;
    button_right = true;
    last_x = pos 0;
    last_y = pos 0;
    pert = record {
      select = pos 2;
      skinselect = negsuc 0;
      active = 1;
      localpos = λ k. pos 0;
      reference = tt;
    };
    cam = tt;
    last_click_time = pos 1000;
    last_click_button = pos 1;
  };
  data_ = still;
  xfrc_applied = λ i. if i == 12 then pos 7000 else pos 0;
}

-- The right button, released or pressed again on empty ground a tenth of a second later.
abbrev click : Bool → Click ℤ
click release = record {
  button = pos 1;
  release = release;
  mod_ctrl = false;
  left = false;
  middle = false;
  right = true;
  x = pos 0;
  y = pos 0;
  now = pos 1100;
  width = pos 1200;
  height = pos 900;
  body = negsuc 0;
  skin = negsuc 0;
  selpnt = λ k. pos 0;
}

dragged-OnlySelected : OnlySelected dragged
dragged-OnlySelected body k h = elim (Bool-cases (body == 1)) [
  | inl same ↦ inl (ground arith)
  | inr other ↦ inr (ground arith)
]

mouse_button_cb-released_example :
    let w =
      on_frame mjv vectors pitch false
        (λ w. w)
        (mouse_button_cb mjv vectors pitch (click true) dragged) in
    w.0.xfrc_applied (6 * 2 + 0) ≡ pos 0
mouse_button_cb-released_example =
    mouse_button_cb-released mjv vectors pitch (click true) dragged 1 0 dragged-OnlySelected
      (refl, refl, refl, refl) refl (omega arith)

-- The release and the second press, with no frame between them.
abbrev let_go : World ℤ (Unit {0}) (Unit {0})
let_go = mouse_button_cb mjv vectors pitch (click true) dragged

mouse_button_cb-stuck_example :
    (frames mjv vectors pitch 5
        (mouse_button_cb mjv vectors pitch (click false) let_go)).xfrc_applied
      (6 * 2 + 0)
    ≡ let_go.xfrc_applied (6 * 2 + 0)
unfolding mouse_button_cb is_double_click
mouse_button_cb-stuck_example =
    mouse_button_cb-stuck mjv vectors pitch mjv-IsMjv (click false) let_go 1 0 5 refl refl refl
      (refl, refl) (λ e. cc) (omega arith)
