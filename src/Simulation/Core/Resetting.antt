-- ===== src/Simulation/Core/Resetting.antt =====
-- A reset goes back to the state that loading left.
use nusim.Base.{ℕ, ◌≡◌, ap, subst, inl, inr, some, List, map, arith, Option-cases, ℤ, pos, negsuc}
use nusim.Double.{Double}
use nusim.MuJoCo.{Model, Data}
use nusim.Robot.ModelMap.{ModelMap, ok, build, ◌>>=◌, Holds, >>=-eq-ok}
use nusim.Simulation.Core.{
  Engine, SimConfig, restored, from_key, place_robots, find_ready, choose_key, SimCore,
  apply_surface_override, find_extras, copies, assemble, allocate, load_model, reset,
}

-- What MuJoCo documents of its resets: a keyframe is copied over everything, and `mj_makeData`
-- returns data in the state that `mj_resetData` restores.
pub record IsEngine {D : Type 0} (e : Engine D) : Type 0 where
  pub keyframe_forgets :
      (m : Model D) (d d' : Data D) (key : ℕ) → e.reset_keyframe m d key ≡ e.reset_keyframe m d' key
  pub reset_fresh :
      (m : Model D) (d fresh : Data D) → e.make_data m ≡ some fresh → e.reset_data m d ≡ fresh

module _ {D : Type 0} ⦃f : Double D⦄ (e : Engine D) where
  -- A core that a reset takes back to its own data, from any other.
  abbrev pub IsResettable : SimCore D → Type 0
  IsResettable s = (d : Data D) → reset e s d ≡ s.data_

  restored-from_key :
      (h : IsEngine e) (m : Model D) (key : ℤ) (d fresh : Data D)
      → e.make_data m ≡ some fresh
      → restored e m key d ≡ from_key e m key fresh
  restored-from_key h m (negsuc _) d fresh q = h.reset_fresh m d fresh q
  restored-from_key h m (pos key) d fresh q = h.keyframe_forgets m d fresh key

  assemble-IsResettable :
      (h : IsEngine e) (cfg : SimConfig D) (m : Model D) (map : ModelMap) (extras : List ModelMap)
      (fresh : Data D)
      → e.make_data m ≡ some fresh
      → IsResettable (assemble e cfg m map extras fresh)
  unfolding assemble reset
  assemble-IsResettable h cfg m map extras fresh q d =
      ap (λ x. e.forward m (place_robots m cfg map (find_ready cfg m map) extras x))
        (restored-from_key h m (choose_key cfg m) d fresh q)

  allocate-IsResettable :
      (h : IsEngine e) (cfg : SimConfig D) (m : Model D) (map : ModelMap) (extras : List ModelMap)
      {s : SimCore D}
      → allocate e cfg m map extras ≡ ok s
      → IsResettable s
  unfolding allocate
  allocate-IsResettable h cfg m map extras {s} q = elim (Option-cases (e.make_data m)) [
    | inl missing ↦ absurd (ground (arith))
    | inr (fresh, made) ↦
        let same : ok (assemble e cfg m map extras fresh) ≡ ok s = ground arith in
        subst (Holds IsResettable) same (assemble-IsResettable h cfg m map extras fresh made)
  ]

  -- Let MuJoCo's resets do what their documentation says. After loading, a reset gives the very data
  -- that loading left, whatever has become of the data since.
  pub load_model-IsResettable :
      (h : IsEngine e) (cfg : SimConfig D) (compiled : Model D) (s : SimCore D) (d : Data D)
      → load_model e cfg compiled ≡ ok s
      → reset e s d ≡ s.data_
  unfolding load_model allocate
  load_model-IsResettable h cfg compiled s d q =
      let m = apply_surface_override cfg.surface compiled in
      let (map, p1, q1) =
        >>=-eq-ok (build compiled) (λ x. find_extras e m (copies cfg) >>= allocate e cfg m x) q in
      let (extras, p2, q2) = >>=-eq-ok (find_extras e m (copies cfg)) (allocate e cfg m map) q1 in
      allocate-IsResettable h cfg m map extras q2 d
