-- ===== src/Camera/Context/Released.antt =====
-- What a context acquires it gives back, in the opposite order.
use nusim.Base.{
  ◌≡◌, ◌↔◌, Bool, true, false, not, ◌&&◌, ◌||◌, Option, none, some, List, [], ◌∷◌, ◌++◌, arith,
  if◌then◌else◌,
}
use nusim.Camera.Context.{Egl, Call, construct_egl, destruct_egl}

-- What of EGL a thread has: the display, the surface, the context, and whether that is current.
pub record Held : Type 0 where
  pub display : Bool
  pub surface : Bool
  pub context : Bool
  pub current : Bool

abbrev pub nothing_held : Held
nothing_held = record { display = false; surface = false; context = false; current = false }

-- What a call makes of it, `none` where it is out of order.
unfoldable pub holds : Call → Held → Option Held
holds Call.initialized h = if h.display then none else some (record h { display = true })
holds Call.surface_created h =
    if h.display && not h.surface then some (record h { surface = true }) else none
holds Call.context_created h =
    if h.display && not h.context then some (record h { context = true }) else none
holds Call.made_current h =
    if h.surface && h.context then some (record h { current = true }) else none
holds Call.made_not_current h = if h.display then some (record h { current = false }) else none
holds Call.context_destroyed h =
    if h.context && not h.current then some (record h { context = false }) else none
holds Call.surface_destroyed h =
    if h.surface && not h.current then some (record h { surface = false }) else none
holds Call.terminated h =
    if h.display && not (h.surface || h.context) then some (record h { display = false }) else none

unfoldable pub holds_all : List Call → Held → Option Held
unfolding holds
holds_all [] h = some h
holds_all (c ∷ cs) h = elim (holds c h) [ none ↦ none | some h' ↦ holds_all cs h' ]

abbrev pub all_answers : Egl → Bool
all_answers egl =
    egl.get_display && egl.initialize && egl.choose_config && egl.create_surface && egl.bind_api
    && egl.create_context && egl.make_current

-- Whatever EGL answers, every call is made while what it uses is there, destroying what was
-- constructed leaves nothing held, and the context is valid if and only if no call failed.
pub construct_egl-destruct_egl :
    (egl : Egl)
    → let (calls, c) = construct_egl egl in
      (holds_all (calls ++ destruct_egl c) nothing_held ≡ some nothing_held)
      × ((c.valid ≡ true) ↔ (all_answers egl ≡ true))
unfolding construct_egl destruct_egl holds_all
construct_egl-destruct_egl egl = ground arith
