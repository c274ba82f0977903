-- ===== src/Sdk/Bridge/Falls.antt =====
-- A subscriber to rt/fall_down and a client that asks for the mode are up to date.
use nusim.Base.{
  ℕ, ◌≡◌, refl, sym, ap, ◌∙◌, subst, inl, inr, true, Option, none, some, List, [], ◌∷◌, ◌++◌, arith,
  Bool-cases, ℤ, ==ℤ-eq,
}
use mathlib.Core.Option
use nusim.Double.{Double}
use nusim.Simulation.Snapshot.{SimStateUpdate}
use nusim.Sdk.Odometry.{Config}
use nusim.Sdk.Publisher.{
  StatePublisher, StateMessage, low_state, odometer_state, odom, head_pose, fall_down,
  battery_state, is_fall_due, publish_fall, publish, publish_battery, new_publisher, head_message,
}
use nusim.Sdk.Bridge.{
  Session, Event, startup, state_update, second, shutdown, on_state_update, on_second, react,
  react_all,
}

module _ {D F : Type 0} where
  -- The fall state that a subscriber knows after some messages, if any.
  pub seen : Option ℤ → List (StateMessage D F) → Option ℤ
  seen o [] = o
  seen o (fall_down x ∷ ms) = seen (some x.fall_down_state) ms
  seen o (low_state x ∷ ms) = seen o ms
  seen o (odometer_state x ∷ ms) = seen o ms
  seen o (odom x ∷ ms) = seen o ms
  seen o (head_pose x ∷ ms) = seen o ms
  seen o (battery_state x ∷ ms) = seen o ms

  seen-append :
      (o : Option ℤ) (ms ns : List (StateMessage D F)) → seen o (ms ++ ns) ≡ seen (seen o ms) ns
  unfolding seen
  seen-append o [] ns = refl
  seen-append o (fall_down x ∷ ms) ns = seen-append (some x.fall_down_state) ms ns
  seen-append o (low_state x ∷ ms) ns = seen-append o ms ns
  seen-append o (odometer_state x ∷ ms) ns = seen-append o ms ns
  seen-append o (odom x ∷ ms) ns = seen-append o ms ns
  seen-append o (head_pose x ∷ ms) ns = seen-append o ms ns
  seen-append o (battery_state x ∷ ms) ns = seen-append o ms ns

-- A subscriber knows the fall state that the publisher takes to be published.
abbrev IsTold : {D : Type 0} → Option ℤ → StatePublisher D → Type 0
IsTold o p = p.have_last_fall_state ≡ true → o ≡ some p.last_fall_state

-- The same of the bridge, if it runs.
abbrev BridgeIsTold : {D : Type 0} → Option ℤ → Option (Session D) → Type 0
BridgeIsTold o none = Unit {0}
BridgeIsTold o (some b) = IsTold o b.state_publisher

module _ {D F : Type 0} ⦃f : Double D⦄ (to_float : D → F) where
  seen-head :
      (o : Option ℤ) (s : SimStateUpdate D) (ms : List (StateMessage D F))
      → seen o (head_message s ++ ms) ≡ seen o ms
  unfolding seen
  seen-head o s ms = elim (Bool-cases s.head.valid) [ inl e ↦ rw e refl | inr e ↦ rw e refl ]

  publish_fall-seen :
      (o : Option ℤ) (s : SimStateUpdate D) (p : StatePublisher D)
      → IsTold o p
      → (seen o (publish_fall {F = F} s p).1 ≡ some s.fall_state)
        × ((publish_fall {F = F} s p).0.last_fall_state ≡ s.fall_state)
  unfolding publish_fall is_fall_due seen
  publish_fall-seen o s p told = ground (arith, told, ==ℤ-eq p.last_fall_state s.fall_state)

  publish-seen :
      (normals : ℕ → D) (cfg : Config D) (now : ℕ) (o : Option ℤ) (s : SimStateUpdate D)
      (p : StatePublisher D)
      → IsTold o p
      → (seen o (publish to_float normals cfg now s p).1 ≡ some s.fall_state)
        × ((publish to_float normals cfg now s p).0.last_fall_state ≡ s.fall_state)
  unfolding publish seen
  publish-seen normals cfg now o s p told =
      let p' : StatePublisher D = record p { odometry = _ } in
      let (known, same) = publish_fall-seen o s p' told in (seen-head o s _ ∙ known, same)

module _ {D F : Type 0} ⦃f : Double D⦄ (to_float : D → F) (normals : ℕ → D) (cfg : Config D) where
  react-IsTold :
      (e : Event D) (o : Option ℤ) (b : Option (Session D))
      → BridgeIsTold o b
      → BridgeIsTold (seen o (react to_float normals cfg e b).1) (react to_float normals cfg e b).0
  unfolding react on_state_update on_second publish_battery new_publisher seen
  react-IsTold (startup soc) o b h = λ q. cc
  react-IsTold (state_update now s) o none h = tt
  react-IsTold (state_update now s) o (some b) h = λ q.
      let (known, same) = publish-seen to_float normals cfg now o s b.state_publisher h in
      known ∙ ap some (sym same)
  react-IsTold second o none h = tt
  react-IsTold second o (some b) h = h
  react-IsTold shutdown o b h = tt

  react_all-IsTold :
      (es : List (Event D)) (o : Option ℤ) (b : Option (Session D))
      → BridgeIsTold o b
      → BridgeIsTold
          (seen o (react_all to_float normals cfg es b).1)
          (react_all to_float normals cfg es b).0
  unfolding react_all seen
  react_all-IsTold [] o b h = h
  react_all-IsTold (e ∷ es) o b h =
      let (b', out) = react to_float normals cfg e b in
      subst (λ k. BridgeIsTold k (react_all to_float normals cfg es b').0)
        (sym (seen-append o out (react_all to_float normals cfg es b').1))
        (react_all-IsTold es (seen o out) b' (react-IsTold e o b h))

  -- Whatever events the bridge has seen since it was made, its restarts among them: if it runs and a
  -- state reaches it, then a subscriber to rt/fall_down that has followed from the beginning knows
  -- the fall state of that state, and the mode that the server reports is that of the state.
  pub on_state_update-seen :
      (es : List (Event D)) (now : ℕ) (s : SimStateUpdate D) (b : Session D)
      → (react_all to_float normals cfg es none).0 ≡ some b
      → (seen none (
            (react_all to_float normals cfg es none).1
            ++ (on_state_update to_float normals cfg now s (some b)).1)
          ≡ some s.fall_state)
        × (Option.map
              (λ (b : Session D). b.current_mode)
              (on_state_update to_float normals cfg now s (some b)).0
            ≡ some s.mode)
  unfolding on_state_update
  on_state_update-seen es now s b e =
      let before = (react_all to_float normals cfg es none).1 in
      let told : BridgeIsTold (seen none before) (some b) =
        subst (BridgeIsTold (seen none before)) e (react_all-IsTold es none none tt) in
      (
        seen-append none before _
            ∙ (publish-seen to_float normals cfg now (seen none before) s b.state_publisher told).0,
        refl,
      )
