-- ===== src/Sdk/Bridge/Truthful.antt =====
-- With the error model disabled, the odometry that is published is the ground truth.
use nusim.Base.{
  ℕ, ◌≡◌, refl, ap, ◌∙◌, inl, inr, Bool, true, false, Option, none, some, List, [], ◌∷◌, ◌++◌,
  arith, if◌then◌else◌, Bool-cases, sym, map, count_up,
}
use nusim.Double.{Double, nought, unit, two}
use nusim.Simulation.Snapshot.{SimStateUpdate}
use nusim.Sdk.Odometry.{Config, Estimate, exact, update-disabled, update}
use nusim.Sdk.Publisher.{
  StatePublisher, StateMessage, LowState, low_state, odometer_state, odom, head_pose, fall_down,
  battery_state, publish_fall, publish, publish_battery, head_message, truth_of, odometer_of,
  odom_of, low_state_of, motors_of, to_motor_state, yaw_from_quat,
}
use nusim.Sdk.Bridge.{
  Session, Event, startup, state_update, second, shutdown, on_state_update, on_second, react,
  react_all,
}

-- What a subscriber reads off the messages that every state is published in: q, dq, ddq and
-- tau_est of each motor; x, y and theta; the three entries of the position and the velocities'
-- variances.
pub data Report (D F : Type 0) : Type 0 where
  motors : List (F × F × F × F) → Report D F
  planar : F → F → F → Report D F
  full : List D → List D → Report D F

abbrev readings : {F : Type 0} → LowState F → List (F × F × F × F)
readings x = map (λ ms. (ms.q, ms.dq, ms.ddq, ms.tau_est)) x.motor_state_serial

module _ {D F : Type 0} where
  abbrev read : StateMessage D F → List (Report D F) → List (Report D F)
  read (low_state x) rs = motors (readings x) ∷ rs
  read (odometer_state x) rs = planar x.x x.y x.theta ∷ rs
  read (odom x) rs =
      full (x.position 0 ∷ x.position 1 ∷ x.position 2 ∷ [])
        (x.twist_covariance 0 ∷ x.twist_covariance 7 ∷ x.twist_covariance 35 ∷ [])
      ∷ rs
  read _ rs = rs

  pub reports : List (StateMessage D F) → List (Report D F)
  reports [] = []
  reports (msg ∷ ms) = read msg (reports ms)

  read-append :
      (msg : StateMessage D F) (rs ss : List (Report D F)) → read msg rs ++ ss ≡ read msg (rs ++ ss)
  read-append (low_state x) rs ss = refl
  read-append (odometer_state x) rs ss = refl
  read-append (odom x) rs ss = refl
  read-append (head_pose x) rs ss = refl
  read-append (fall_down x) rs ss = refl
  read-append (battery_state x) rs ss = refl

  reports-append : (ms ns : List (StateMessage D F)) → reports (ms ++ ns) ≡ reports ms ++ reports ns
  unfolding reports
  reports-append [] ns = refl
  reports-append (msg ∷ ms) ns =
      ap (read msg) (reports-append ms ns) ∙ sym (read-append msg (reports ms) (reports ns))

module _ {D F : Type 0} ⦃f : Double D⦄ (to_float : D → F) where
  -- The heading of a unit quaternion w, x, y, z.
  abbrev heading : (ℕ → D) → D
  heading q =
      f.atan2 (f.mul two (f.add (f.mul (q 0) (q 3)) (f.mul (q 1) (q 2))))
        (f.sub unit (f.mul two (f.add (f.mul (q 2) (q 2)) (f.mul (q 3) (q 3)))))

  -- What is to be reported of a state: its joints, its place on the field with its heading, and its
  -- place in space, known without error.
  pub truthful : SimStateUpdate D → List (Report D F)
  truthful s =
      motors (
        map
          (λ i. (
            to_float (s.joints i).q,
            to_float (s.joints i).dq,
            to_float (s.joints i).ddq,
            to_float (s.joints i).tau,
          ))
          (count_up 0 22))
      ∷ planar (to_float s.base.x) (to_float s.base.y) (to_float (heading s.base.quat))
      ∷ full (s.base.x ∷ s.base.y ∷ s.base.z ∷ []) (nought ∷ nought ∷ nought ∷ [])
      ∷ []

  -- And of all the states that reach the bridge while it runs.
  pub truthful_all : Bool → List (Event D) → List (Report D F)
  unfolding truthful
  truthful_all running [] = []
  truthful_all running (startup soc ∷ es) = truthful_all true es
  truthful_all running (state_update now s ∷ es) =
      (if running then truthful s else []) ++ truthful_all running es
  truthful_all running (second ∷ es) = truthful_all running es
  truthful_all running (shutdown ∷ es) = truthful_all false es

  reports-head :
      (s : SimStateUpdate D) (ms : List (StateMessage D F))
      → reports (head_message s ++ ms) ≡ reports ms
  unfolding reports
  reports-head s ms = elim (Bool-cases s.head.valid) [ inl e ↦ rw e refl | inr e ↦ rw e refl ]

  reports-fall :
      (s : SimStateUpdate D) (p : StatePublisher D) → reports (publish_fall {F = F} s p).1 ≡ []
  unfolding publish_fall reports
  reports-fall s p = ground arith

  shown : ℕ → SimStateUpdate D → Estimate D → List (Report D F)
  unfolding reports
  shown now s est = reports (
      low_state (low_state_of to_float s)
      ∷ odometer_state (odometer_of to_float est)
      ∷ odom (odom_of now s est)
      ∷ [])

  shown-exact : (now : ℕ) (s : SimStateUpdate D) → shown now s (exact (truth_of s)) ≡ truthful s
  unfolding shown reports truthful low_state_of motors_of to_motor_state odometer_of odom_of
      truth_of exact yaw_from_quat
  shown-exact now s = refl

  reports-publish :
      (normals : ℕ → D) (cfg : Config D) (now : ℕ) (s : SimStateUpdate D) (p : StatePublisher D)
      → cfg.enabled ≡ false
      → reports (publish to_float normals cfg now s p).1 ≡ truthful s
  unfolding publish reports shown
  reports-publish normals cfg now s p off =
      ap (λ rs. shown now s est ++ rs) (reports-head s fall ∙ reports-fall s _)
      ∙ ap (λ e. shown now s e) (update-disabled normals cfg (truth_of s) p.odometry off)
      ∙ shown-exact now s
    where
      est : Estimate D
      est = (update normals cfg (truth_of s) p.odometry).estimate

      fall : List (StateMessage D F)
      fall = (publish_fall s (record p { odometry = update normals cfg (truth_of s) p.odometry })).1

abbrev is_running : {D : Type 0} → Option (Session D) → Bool
is_running none = false
is_running (some b) = true

module _ {D F : Type 0} ⦃f : Double D⦄ (to_float : D → F) (normals : ℕ → D) (cfg : Config D) where
  -- With the error model disabled, for any events, restarts included, and whether the bridge runs at
  -- first or not: for each state that reaches it while it runs, and in their order, the bridge
  -- publishes the position, velocity, acceleration and torque of each of the 22 joints, the base's
  -- x, y and heading on rt/odometer_state, and its x, y and z on rt/odom, with no variance of the
  -- velocities; and it publishes none of these messages otherwise.
  pub react_all-truthful :
      (es : List (Event D)) (b : Option (Session D))
      → cfg.enabled ≡ false
      → reports (react_all to_float normals cfg es b).1 ≡ truthful_all to_float (is_running b) es
  unfolding react_all react on_state_update on_second publish_battery reports truthful_all
  react_all-truthful [] b off = refl
  react_all-truthful (startup soc ∷ es) b off = react_all-truthful es _ off
  react_all-truthful (state_update now s ∷ es) none off = react_all-truthful es none off
  react_all-truthful (state_update now s ∷ es) (some b) off =
      let (b', out) = on_state_update to_float normals cfg now s (some b) in
      reports-append out (react_all to_float normals cfg es b').1
      ∙ (ap (λ (rs : List (Report D F)). rs ++ reports (react_all to_float normals cfg es b').1)
            (reports-publish to_float normals cfg now s b.state_publisher off)
          ∙ ap (λ (rs : List (Report D F)). truthful to_float s ++ rs)
              (react_all-truthful es b' off))
  react_all-truthful (second ∷ es) none off = react_all-truthful es none off
  react_all-truthful (second ∷ es) (some b) off = react_all-truthful es (some b) off
  react_all-truthful (shutdown ∷ es) b off = react_all-truthful es none off
