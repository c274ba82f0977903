-- ===== src/Simulation/Scene/Keys.antt =====
-- The keyframes of a robot's spec are all deleted before it is attached.
use nusim.Base.{ℕ, zero, suc, ◌<◌, ◌≡◌, inl, inr, true, false, arith, Bool-cases}
use nusim.Double.{Double}
use nusim.Simulation.Core.{Engine}
use nusim.Simulation.Scene.{SpecApi, delete_keys}

-- Where deleting a keyframe leaves fewer of them, fuel above their number deletes all.
pub delete_keys-has_key :
    {D S : Type 0} ⦃f : Double D⦄ (e : Engine D) (api : SpecApi D S) (count : S → ℕ)
    → ((s : S) → api.has_key s ≡ true → count (api.delete_key s) < count s)
    → (fuel : ℕ) (robot : S) → count robot < fuel
    → api.has_key (delete_keys e api fuel robot) ≡ false
unfolding delete_keys
delete_keys-has_key e api count fewer zero robot h = elim h [ ]
delete_keys-has_key e api count fewer (suc fuel) robot h = elim (Bool-cases (api.has_key robot)) [
  | inl more ↦
      let lower : count (api.delete_key robot) < fuel = omega (arith, fewer robot more) in
      rw (more, delete_keys)
        (delete_keys-has_key e api count fewer fuel (api.delete_key robot) lower)
  | inr done ↦ rw (done, delete_keys) done
]
