-- ===== src/Camera/Context.antt =====
-- The offscreen OpenGL contexts (mujoco/module/Camera/src/EglContext.hpp, and OffscreenContext.hpp
-- for macOS): what they acquire and what their destructors give back. What EGL and CGL answer is
-- given; the calls that acquire, use and release are recorded in their order.
pub mod Released
use nusim.Base.{Bool, true, false, not, ◌&&◌, List, [], ◌∷◌, ◌++◌, if◌then◌else◌}

-- The answers of EGL, true for success.
pub record Egl : Type 0 where
  pub get_display : Bool
  pub initialize : Bool
  -- with at least one configuration
  pub choose_config : Bool
  pub create_surface : Bool
  pub bind_api : Bool
  pub create_context : Bool
  pub make_current : Bool

pub data Call : Type 0 where
  initialized surface_created context_created made_current : Call
  made_not_current context_destroyed surface_destroyed terminated : Call

pub record EglContext : Type 0 where
  pub display : Bool  -- not EGL_NO_DISPLAY
  pub context : Bool  -- not EGL_NO_CONTEXT
  pub surface : Bool  -- not EGL_NO_SURFACE
  pub valid : Bool

abbrev pub no_context : EglContext
no_context = record { display = false; context = false; surface = false; valid = false }

-- The constructor.
unfoldable pub construct_egl : Egl → List Call × EglContext
construct_egl egl =
    if not egl.get_display
    then ([], no_context)
    else if not egl.initialize
    then ([], no_context)
    else if not egl.choose_config
    then (Call.initialized ∷ [], record no_context { display = true })
    else if not egl.create_surface
    then (Call.initialized ∷ [], record no_context { display = true })
    else if not egl.bind_api
    then (
      Call.initialized ∷ Call.surface_created ∷ [],
      record no_context { display = true; surface = true },
    )
    else if not egl.create_context
    then (
      Call.initialized ∷ Call.surface_created ∷ [],
      record no_context { display = true; surface = true },
    )
    else if not egl.make_current
    then (
      Call.initialized ∷ Call.surface_created ∷ Call.context_created ∷ [],
      record { display = true; surface = true; context = true; valid = false },
    )
    else (
      Call.initialized ∷ Call.surface_created ∷ Call.context_created ∷ Call.made_current ∷ [],
      record { display = true; surface = true; context = true; valid = true },
    )

-- The destructor.
unfoldable pub destruct_egl : EglContext → List Call
destruct_egl c =
    if not c.display
    then []
    else (Call.made_not_current ∷ [])
      ++ ((if c.context then Call.context_destroyed ∷ [] else [])
          ++ ((if c.surface then Call.surface_destroyed ∷ [] else []) ++ (Call.terminated ∷ [])))

-- The answers of CGL.
pub record Cgl : Type 0 where
  -- without an error, and with a format
  pub choose_pixel_format : Bool
  -- what CGLCreateContext returns, and whether it stores a context
  pub create_ok : Bool
  pub create_stores : Bool
  pub set_current : Bool

pub data CglCall : Type 0 where
  format_chosen format_destroyed created set_current unset_current destroyed : CglCall

pub record OffscreenContext : Type 0 where
  pub context : Bool
  pub valid : Bool

unfoldable pub construct_cgl : Cgl → List CglCall × OffscreenContext
construct_cgl cgl =
    if not cgl.choose_pixel_format then ([], record { context = false; valid = false }) else (
      (CglCall.format_chosen ∷ [])
          ++ ((if cgl.create_stores then CglCall.created ∷ [] else [])
              ++ ((CglCall.format_destroyed ∷ [])
                  ++ (if cgl.create_ok && cgl.set_current then CglCall.set_current ∷ [] else []))),
      record { context = cgl.create_stores; valid = cgl.create_ok && cgl.set_current },
    )

unfoldable pub destruct_cgl : OffscreenContext → List CglCall
destruct_cgl c = if c.context then CglCall.unset_current ∷ CglCall.destroyed ∷ [] else []
