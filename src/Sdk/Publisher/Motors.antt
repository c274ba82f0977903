-- ===== src/Sdk/Publisher/Motors.antt =====
-- Where a client finds a joint in rt/low_state.
use nusim.Base.{
  ℕ, zero, suc, ◌+◌, ◌-◌, ◌≤◌, ◌<◌, ◌≡◌, refl, ap, ◌∙◌, some, List, [], ◌∷◌, arith, length,
  get_elem?, drop, get_elem?-map,
}
use nusim.Double.{Double}
use nusim.Robot.Joints.{joint_count, left_hip_pitch}
use nusim.Simulation.Snapshot.{SimStateUpdate}
use nusim.Sdk.Publisher.{to_motor_state, motors_of, low_state_of}

get_elem?-drop {ℓ} :
    {A : Type ℓ} (n k : ℕ) (xs : List A) → get_elem? (drop n xs) k ≡ get_elem? xs (n + k)
get_elem?-drop zero k xs = ap (get_elem? xs) (omega arith)
get_elem?-drop (suc n) k [] = refl
get_elem?-drop (suc n) k (x ∷ xs) = get_elem?-drop n k xs ∙ ap (get_elem? (x ∷ xs)) next
  where
    next : suc (n + k) ≡ suc n + k
    next = omega arith

module _ {D F : Type 0} ⦃f : Double D⦄ (to_float : D → F) where
  -- Of a state: joint i of the 22 is entry i of the serial motors; the parallel motors are the 12
  -- of the legs, and a leg's joint i is their entry i less that of the left hip's pitch.
  pub low_state_of-motors :
      (s : SimStateUpdate D)
      → (length (low_state_of to_float s).motor_state_serial ≡ 22)
        × (length (low_state_of to_float s).motor_state_parallel ≡ 12)
        × ((i : ℕ)
            → i < 22
            → get_elem? (low_state_of to_float s).motor_state_serial i
              ≡ some (to_motor_state to_float (s.joints i)))
        × ((i : ℕ)
            → left_hip_pitch ≤ i
            → i < 22
            → get_elem? (low_state_of to_float s).motor_state_parallel (i - left_hip_pitch)
              ≡ some (to_motor_state to_float (s.joints i)))
  unfolding low_state_of motors_of
  low_state_of-motors s = (
    refl,
    refl,
    serial,
    λ i low high.
        get_elem?-drop left_hip_pitch (i - left_hip_pitch) (motors_of to_float s)
        ∙ (ap (get_elem? (motors_of to_float s)) (back i low) ∙ serial i high),
  )
    where
      serial :
          (i : ℕ)
          → i < 22
          → get_elem? (motors_of to_float s) i ≡ some (to_motor_state to_float (s.joints i))
      serial i h = get_elem?-map (λ i. to_motor_state to_float (s.joints i)) joint_count i h

      back : (i : ℕ) → left_hip_pitch ≤ i → left_hip_pitch + (i - left_hip_pitch) ≡ i
      back i h = omega arith
