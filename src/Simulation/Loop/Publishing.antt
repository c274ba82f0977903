-- ===== src/Simulation/Loop/Publishing.antt =====
-- What the physics thread publishes.
use nusim.Base.{
  ℕ, ◌+◌, ◌%◌, ◌^◌, ◌≡◌, refl, subst, ◌⊎◌, inl, inr, Bool, true, false, Option, none, some, List,
  [], ◌∷◌, if◌then◌else◌, All, ℤ,
}
use nusim.Double.{Double}
use nusim.MuJoCo.{Model, Data, Mju}
use nusim.Robot.Booster.RobotMode
use nusim.Robot.Booster.FallState
use nusim.Robot.ModelMap.{ok, Holds, >>=-eq-ok}
use nusim.Locomotion.Controller.{Controller, Setter, State, damping, prepare, custom}
use nusim.Locomotion.Controller.Modes.{Agrees, mode_of, step-Agrees}
use nusim.Simulation.Core.{Engine, SimCore}
use nusim.Simulation.Snapshot.{SimStateUpdate}
use nusim.Simulation.Loop.{
  StepController, locomotion, Loop, Round, reported, make_snapshot, control, advance, is_due,
  set_controller, hold_extras, run_round, run_rounds,
}

-- A predicate of the controller, if there is one.
abbrev pub OfController : {S : Type 0} → (S → Type 0) → Option S → Type 0
OfController P none = Unit
OfController P (some s) = P s

-- What a snapshot says of the controller.
abbrev pub report : {D : Type 0} → SimStateUpdate D → ℤ × ℤ × Bool
report s = (s.mode, s.fall_state, s.getting_up)

module _ {D S I : Type 0} ⦃f : Double D⦄ (u : Mju D) (e : Engine D) (k : StepController D S I)
    (P : S → Type 0) (Q : ℤ × ℤ × Bool → Type 0)
    (keeps : (m : Model D) (i : I) (s : S) (d : Data D) (r : S × Data D)
      → P s
      → k.step m i s d ≡ ok r
      → P r.0)
    (reports : (s : S) → P s → Q (k.mode s, k.fall_state s, k.getting_up s))
    (idle : Q (RobotMode.prepare, FallState.is_ready, false)) where
  -- The controller keeps `P`, and every snapshot reports what `Q` allows.
  pub record IsHonest (l : Loop D S) : Type 0 where
    pub controller_ok : OfController P l.controller
    pub published_ok : All (λ (s : SimStateUpdate D). Q (report s)) l.published

  control-keeps :
      (core : SimCore D) (input : I) (c : Option S) (d : Data D) {r : Option S × Data D}
      → OfController P c
      → control u e k core input c d ≡ ok r
      → OfController P r.0
  unfolding control
  control-keeps core input none d {r} h q =
      subst (Holds (λ (x : Option S × Data D). OfController P x.0)) q tt
  control-keeps core input (some s) d {r} h q =
      let (x, p, q1) =
        >>=-eq-ok (k.step core.model input s d) (λ (y : S × Data D). ok (some y.0, y.1)) q in
      subst (Holds (λ (y : Option S × Data D). OfController P y.0)) q1
        (keeps core.model input s d x h p)

  make_snapshot-reports :
      (core : SimCore D) (c : Option S) (d : Data D) (n : ℕ) (rtf : D)
      → OfController P c
      → Q (report (make_snapshot u e k core c d n rtf))
  unfolding make_snapshot reported
  make_snapshot-reports core none d n rtf h = idle
  make_snapshot-reports core (some s) d n rtf h = reports s h

  advance-IsHonest :
      (core : SimCore D) (rtf : D) (n : ℕ) (published : List (SimStateUpdate D))
      (x : Option S × Data D)
      → OfController P x.0
      → All (λ (s : SimStateUpdate D). Q (report s)) published
      → IsHonest (advance u e k core rtf n published x)
  unfolding advance
  advance-IsHonest core rtf n published x h a = record {
    controller_ok = h;
    published_ok = go (is_due u e k core ((n + 1) % 2 ^ 64)) _ (
        make_snapshot-reports core x.0
          (e.mj_step core.model (hold_extras u e k core core.extra_maps x.1)) ((n + 1) % 2 ^ 64) rtf
          h);
  }
    where
      go :
          (b : Bool) (now : SimStateUpdate D)
          → Q (report now)
          → All (λ (s : SimStateUpdate D). Q (report s)) (if b then now ∷ published else published)
      go true now q = (q, a)
      go false now q = a

  set_controller-keeps :
      (new old : Option S)
      → OfController P new
      → OfController P old
      → OfController P (set_controller u e k new old)
  set_controller-keeps none old h g = g
  set_controller-keeps (some s) old h g = h

  run_rounds-IsHonest :
      (core : SimCore D) (rs : List (Round D S I)) (l : Loop D S) {l' : Loop D S}
      → All (λ (r : Round D S I). OfController P r.install) rs
      → IsHonest l
      → run_rounds u e k core rs l ≡ ok l'
      → IsHonest l'
  unfolding run_rounds run_round
  run_rounds-IsHonest core [] l {l'} h a q = subst (Holds IsHonest) q a
  run_rounds-IsHonest core (r ∷ rs) l h a q =
      let (l1, p, q1) = >>=-eq-ok (run_round u e k core r l) (run_rounds u e k core rs) q in
      let (x, p1, q2) =
        >>=-eq-ok (control u e k core r.input (set_controller u e k r.install l.controller) l.data_)
          (λ (y : Option S × Data D). ok (advance u e k core r.measured_rtf l.steps l.published y))
          p in
      let kept =
        control-keeps core r.input (set_controller u e k r.install l.controller) l.data_
          (set_controller-keeps r.install l.controller h.0 a.controller_ok) p1 in
      run_rounds-IsHonest core rs l1 h.1
        (subst (Holds IsHonest) q2
          (advance-IsHonest core r.measured_rtf l.steps l.published x kept a.published_ok))
        q1

-- What a client may be told: one of the modes that the machine runs, one of the three fall states,
-- and no get-up in progress.
pub record IsPlain (r : ℤ × ℤ × Bool) : Type 0 where
  pub mode_known : (r.0 ≡ RobotMode.damping) ⊎ (r.0 ≡ RobotMode.prepare) ⊎ (r.0 ≡ RobotMode.custom)
  pub fall_known :
      (r.1 ≡ FallState.is_ready) ⊎ (r.1 ≡ FallState.is_falling) ⊎ (r.1 ≡ FallState.has_fallen)
  pub upright : r.2 ≡ false

module _ {D : Type 0} ⦃f : Double D⦄ (u : Mju D) (e : Engine D) where
  mode_of-known :
      (s : State)
      → (mode_of s ≡ RobotMode.damping)
        ⊎ (mode_of s ≡ RobotMode.prepare)
        ⊎ (mode_of s ≡ RobotMode.custom)
  mode_of-known damping = inl refl
  mode_of-known prepare = inr (inl refl)
  mode_of-known custom = inr (inr refl)

  Agrees-IsPlain :
      (c : Controller D)
      → Agrees c
      → IsPlain ((locomotion u).mode c, (locomotion u).fall_state c, (locomotion u).getting_up c)
  unfolding locomotion
  Agrees-IsPlain c a = record {
    mode_known = rw a.mode_eq (mode_of-known c.fsm.state);
    fall_known = a.fall_known;
    upright = refl;
  }

  -- Let every locomotion controller that is set, before or while the physics runs, report the mode
  -- that it runs and one of three fall states. Whatever arrives for them, every snapshot that rounds
  -- from a start with nothing published have published reports DAMPING, PREPARE or CUSTOM, never
  -- WALKING or SOCCER, one of the three fall states, and no get-up.
  pub run_rounds-IsPlain :
      (core : SimCore D) (rs : List (Round D (Controller D) (List (Setter D))))
      (l l' : Loop D (Controller D))
      → All (λ (r : Round D (Controller D) (List (Setter D))). OfController Agrees r.install) rs
      → OfController Agrees l.controller
      → l.published ≡ []
      → run_rounds u e (locomotion u) core rs l ≡ ok l'
      → All (λ (s : SimStateUpdate D). IsPlain (report s)) l'.published
  unfolding locomotion
  run_rounds-IsPlain core rs l l' h c q r =
      (run_rounds-IsHonest u e (locomotion u) Agrees IsPlain
        (λ m i s d x a p. step-Agrees u m i s d a p) Agrees-IsPlain
        (record { mode_known = inr (inl refl); fall_known = inl refl; upright = refl }) core rs l h
        (record { controller_ok = c; published_ok = rw q tt }) r).published_ok
