-- ===== src/Locomotion/Controller/Modes.antt =====
-- The mode that is reported and the mode that is run.
use nusim.Base.{
  ◌≡◌, refl, subst, ◌⊎◌, Bool, true, false, not, Option, none, some, List, [], ◌∷◌, map, arith,
  ◌==◌, if◌then◌else◌, ℤ,
}
use Prim.Native.String.{String}
use nusim.Double.{Double}
use nusim.MuJoCo.{Model, Data, Mju}
use nusim.Robot.Booster.RobotMode
use nusim.Robot.Booster.FallState
use nusim.Robot.ModelMap.{◌>>=◌, >>=-eq-ok, Holds, Result, ok, build, ModelMap}
use nusim.Locomotion.Controller.{
  Controller, Config, Mailbox, Setter, State, damping, prepare, custom, post, post_all,
  handle_mode_request, step_custom, follow, classify_fall, update_fall_detection, run_mode,
  take_request, step_with, ensure_initialized, step, create, fresh,
}

-- The reported value of each state.
abbrev pub mode_of : State → ℤ
mode_of damping = RobotMode.damping
mode_of prepare = RobotMode.prepare
mode_of custom = RobotMode.custom

module _ {D : Type 0} where
  -- The reported mode is that of the state, and the reported fall state is one of three.
  pub record Agrees (c : Controller D) : Type 0 where
    pub mode_eq : c.mode ≡ mode_of c.fsm.state
    pub fall_known :
        (c.fall_state ≡ FallState.is_ready)
        ⊎ (c.fall_state ≡ FallState.is_falling)
        ⊎ (c.fall_state ≡ FallState.has_fallen)

  handle-Agrees :
      (req : ℤ) (d : Data D) (map : ModelMap) (c : Controller D)
      → Agrees c
      → Agrees (handle_mode_request req d map c)
  unfolding handle_mode_request
  handle-Agrees req d map c h = ground (arith, h.mode_eq)

module _ {D : Type 0} ⦃f : Double D⦄ where
  take_request-Agrees :
      (snap : Mailbox D) (map : ModelMap) (d : Data D) (c : Controller D)
      → Agrees c
      → Agrees (take_request snap map d c)
  unfolding take_request
  take_request-Agrees snap map d c h =
      let moved =
        handle-Agrees snap.requested_mode d map
          (record c { fsm = record c.fsm { last_mode_seq = snap.mode_seq } })
          (record { mode_eq = h.mode_eq; fall_known = h.fall_known }) in
      go moved (not (snap.mode_seq == c.fsm.last_mode_seq))
    where
      go :
          Agrees (
            handle_mode_request snap.requested_mode d map
              (record c { fsm = record c.fsm { last_mode_seq = snap.mode_seq } }))
          → (b : Bool)
          → Agrees (
              if b
              then handle_mode_request snap.requested_mode d map
                  (record c { fsm = record c.fsm { last_mode_seq = snap.mode_seq } })
              else c)
      go moved true = moved
      go moved false = h

  -- The state machine and the mode do not change once the request has been taken.
  run_mode-Agrees :
      (s : State) (m : Model D) (map : ModelMap) (snap : Mailbox D) (c : Controller D) (d : Data D)
      → Agrees c
      → Agrees (run_mode s m map snap c d).0
  unfolding run_mode step_custom follow
  run_mode-Agrees damping m map snap c d h = h
  run_mode-Agrees prepare m map snap c d h = h
  run_mode-Agrees custom m map snap c d h = ground arith

  update-Agrees :
      (u : Mju D) (map : ModelMap) (d : Data D) (c : Controller D)
      → Agrees c
      → Agrees (update_fall_detection u map d c)
  unfolding update_fall_detection classify_fall
  update-Agrees u map d c h = record { mode_eq = h.mode_eq; fall_known = ground arith }

  step_with-Agrees :
      (u : Mju D) (m : Model D) (map : ModelMap) (between : List (Setter D)) (c : Controller D)
      (d : Data D)
      → Agrees c
      → Agrees (step_with u m map between c d).0
  unfolding step_with
  step_with-Agrees u m map between c d h = run_mode-Agrees _ m map c.mailbox _ d (
      update-Agrees u map d _ (
        take_request-Agrees c.mailbox map d (record c { mailbox = post_all between c.mailbox })
          (record { mode_eq = h.mode_eq; fall_known = h.fall_known })))

  ensure-Agrees :
      (m : Model D) (c : Controller D) (o : Option ModelMap) {r : ModelMap × Controller D}
      → c.map ≡ o
      → Agrees c
      → ensure_initialized m c ≡ ok r
      → Agrees r.1
  unfolding ensure_initialized
  ensure-Agrees m c (some map) q h e =
      let e' = rw (q, ensure_initialized) at e in ground (arith, h.mode_eq, e')
  ensure-Agrees m c none {r} q h e =
      let (mp, b, k) = >>=-eq-ok (build m) (λ x. ok (x, record c { map = some x })) (rw q at e) in
      subst (Holds (λ (x : ModelMap × Controller D). Agrees x.1)) k
        (record { mode_eq = h.mode_eq; fall_known = h.fall_known })

  pub step-Agrees :
      (u : Mju D) (m : Model D) (between : List (Setter D)) (c : Controller D) (d : Data D)
      {r : Controller D × Data D}
      → Agrees c
      → step u m between c d ≡ ok r
      → Agrees r.0
  unfolding step
  step-Agrees u m between c d {r} h e =
      let (r1, b, k) =
        >>=-eq-ok (ensure_initialized m c)
          (λ (x : ModelMap × Controller D). ok (step_with u m x.0 between x.1 d)) e in
      subst (Holds (λ (x : Controller D × Data D). Agrees x.0)) k
        (step_with-Agrees u m r1.0 between r1.1 d (ensure-Agrees m c c.map refl h b))

-- What happens to a controller: a setter is called, or a step is made on some data, with the
-- setters that get the lock during it.
pub data Event (D : Type 0) : Type 0 where
  posted : Setter D → Event D
  stepped : List (Setter D) → Data D → Event D

module _ {D : Type 0} ⦃f : Double D⦄ (u : Mju D) (m : Model D) where
  unfoldable pub happen : Event D → Controller D → Result (Controller D)
  happen (posted s) c = ok (record c { mailbox = post s c.mailbox })
  happen (stepped between d) c = step u m between c d >>= λ (r : Controller D × Data D). ok r.0

  unfoldable pub history : List (Event D) → Controller D → Result (Controller D)
  history [] c = ok c
  history (e ∷ es) c = happen e c >>= history es

  happen-Agrees :
      (e : Event D) (c : Controller D) {c' : Controller D}
      → Agrees c
      → happen e c ≡ ok c'
      → Agrees c'
  unfolding happen
  happen-Agrees (posted s) c {c'} h e = ground (arith, h.mode_eq, h.fall_known)
  happen-Agrees (stepped between d) c {c'} h e =
      let (r, b, k) = >>=-eq-ok (step u m between c d) (λ (x : Controller D × Data D). ok x.0) e in
      subst (Holds Agrees) k (step-Agrees u m between c d h b)

  history-Agrees :
      (es : List (Event D)) (c : Controller D) {c' : Controller D}
      → Agrees c
      → history es c ≡ ok c'
      → Agrees c'
  unfolding history
  history-Agrees [] c {c'} h e = subst (Holds Agrees) e h
  history-Agrees (ev ∷ es) c h e =
      let (c1, b, k) = >>=-eq-ok (happen ev c) (history es) e in
      history-Agrees es c1 (happen-Agrees ev c h b) k

  create-Agrees :
      (cfg : Config D) (initial_mode : String) {c : Controller D}
      → create cfg initial_mode ≡ some c
      → Agrees c
  unfolding create fresh
  create-Agrees cfg initial_mode e = ground arith

  -- Whatever calls arrive on the other threads after the constructor and whatever the data of the
  -- steps, as long as none has thrown: the mode that a client is told is the mode that the machine
  -- runs, and the fall state that it is told is ready, falling or fallen, never a get-up in progress.
  pub history-Agrees_from_create :
      (cfg : Config D) (initial_mode : String) (es : List (Event D)) (c c' : Controller D)
      → create cfg initial_mode ≡ some c
      → history es c ≡ ok c'
      → Agrees c'
  history-Agrees_from_create cfg initial_mode es c c' s e =
      history-Agrees es c (create-Agrees cfg initial_mode s) e
