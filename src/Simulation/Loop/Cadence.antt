-- ===== src/Simulation/Loop/Cadence.antt =====
-- How often the physics thread publishes.
use nusim.Base.{
  ℕ, zero, suc, ◌+◌, ◌-◌, ◌%◌, ◌^◌, ◌≤◌, ◌<◌, ◌≡◌, refl, ap, ◌∙◌, subst, ◌≢◌, ◌⊎◌, inl, inr, Option,
  List, [], ◌∷◌, arith, ℕ_discrete, length,
}
use nusim.Double.{Double}
use nusim.MuJoCo.{Data, Mju}
use nusim.Robot.ModelMap.{ok, Holds, >>=-eq-ok}
use mathlib.Core.List.{map as list_map}
use native.Mathlib.Nat.{add-mod, add-mod_left, mod-mod, mod-eq_of_lt}
use nusim.Simulation.Snapshot.{SimStateUpdate}
use nusim.Simulation.Core.{Engine, SimCore}
use nusim.Simulation.Loop.{
  StepController, Loop, Round, make_snapshot, control, advance, publish_every, set_controller,
  run_round, run_rounds,
}

-- The n-th multiple of k, and the first n, the latest first.
pub multiple : ℕ → ℕ → ℕ
multiple k zero = 0
multiple k (suc n) = k + multiple k n

pub multiples : ℕ → ℕ → List ℕ
unfolding multiple
multiples k zero = []
multiples k (suc n) = multiple k (suc n) ∷ multiples k n

multiple-mod : (k n : ℕ) → multiple k n % k ≡ 0
unfolding multiple
multiple-mod k zero = ground arith
multiple-mod k (suc n) = add-mod_left k (multiple k n) ∙ multiple-mod k n

-- A number less than k past a multiple leaves that as its remainder.
past-mod : (k n r : ℕ) → r < k → (multiple k n + r) % k ≡ r
past-mod k n r h =
    add-mod (multiple k n) r k
    ∙ ap (λ x. (x + r % k) % k) (multiple-mod k n)
    ∙ ap (λ x. x % k) (omega arith)
    ∙ mod-mod r k
    ∙ mod-eq_of_lt h

abbrev pub counts : {D : Type 0} → List (SimStateUpdate D) → List ℕ
counts ss = list_map (λ s. s.step_count) ss

module _ {D S I : Type 0} ⦃f : Double D⦄ (u : Mju D) (e : Engine D) (k : StepController D S I) where
  -- A snapshot of the time and the joints of these data.
  pub record Shows (core : SimCore D) (d : Data D) (s : SimStateUpdate D) : Type 0 where
    pub time_eq : s.sim_time ≡ d.time
    pub q_eq : (i : ℕ) → (s.joints i).q ≡ d.qpos (core.map.qpos_adr i)
    pub dq_eq : (i : ℕ) → (s.joints i).dq ≡ d.qvel (core.map.dof_adr i)
    pub ddq_eq : (i : ℕ) → (s.joints i).ddq ≡ d.qacc (core.map.dof_adr i)
    pub tau_eq : (i : ℕ) → (s.joints i).tau ≡ d.actuator_force (core.map.act_id i)

  -- The latest snapshot shows the data as the last round leaves them.
  abbrev pub IsLatest : SimCore D → Loop D S → Type 0
  IsLatest core l =
      (s : SimStateUpdate D) × (earlier : List (SimStateUpdate D)) × (l.published ≡ s ∷ earlier)
      × Shows core l.data_ s

  -- The step numbers of what has been published are the multiples of the divisor up to the number of
  -- steps, and where that is one of them the latest snapshot shows this very state.
  pub record IsPaced (core : SimCore D) (l : Loop D S) : Type 0 where
    pub number : ℕ
    pub counts_eq : counts l.published ≡ multiples (publish_every u e k core) number
    pub low : multiple (publish_every u e k core) number ≤ l.steps
    pub high : l.steps < multiple (publish_every u e k core) number + publish_every u e k core
    pub latest : number ≢ 0 → l.steps ≡ multiple (publish_every u e k core) number → IsLatest core l

  -- A round publishes if and only if it reaches the next multiple.
  due_cases :
      (p n s : ℕ)
      → 0 < p
      → multiple p n ≤ s
      → s < multiple p n + p
      → ((suc s ≡ multiple p (suc n)) × (suc s % p ≡ 0))
        ⊎ ((suc s < multiple p n + p) × (suc s % p ≢ 0))
  unfolding multiple
  due_cases p n s hp lo hi = elim (ℕ_discrete (suc s) (multiple p (suc n))) [
    | yes q ↦ inl (q, ap (λ x. x % p) q ∙ multiple-mod p (suc n))
    | no q ↦ inr (
      below q,
      λ z.
          let r = past-mod p n (suc s - multiple p n) (omega (arith, below q)) in
          let back : multiple p n + (suc s - multiple p n) ≡ suc s = omega arith in
          omega (arith, r, ap (λ x. x % p) back, z),
    )
  ]
    where
      below : suc s ≢ multiple p (suc n) → suc s < multiple p n + p
      below q = omega (arith, q)

  make_snapshot-Shows :
      (core : SimCore D) (ctrl : Option S) (d : Data D) (steps : ℕ) (rtf : D)
      → Shows core d (make_snapshot u e k core ctrl d steps rtf)
  unfolding make_snapshot
  make_snapshot-Shows core ctrl d steps rtf = record {
    time_eq = refl;
    q_eq = λ i. refl;
    dq_eq = λ i. refl;
    ddq_eq = λ i. refl;
    tau_eq = λ i. refl;
  }

  advance-IsLatest :
      (core : SimCore D) (rtf : D) (l : Loop D S) (x : Option S × Data D)
      → 0 < publish_every u e k core
      → ((l.steps + 1) % 2 ^ 64) % publish_every u e k core ≡ 0
      → IsLatest core (advance u e k core rtf l.steps l.published x)
  unfolding advance
  advance-IsLatest core rtf l x hp z = (
    make_snapshot u e k core x.0 l'.data_ l'.steps rtf,
    l.published,
    ground (arith, hp, z),
    make_snapshot-Shows core x.0 l'.data_ l'.steps rtf,
  )
    where
      l' : Loop D S
      l' = advance u e k core rtf l.steps l.published x

  advance-IsPaced :
      (core : SimCore D) (rtf : D) (l : Loop D S) (x : Option S × Data D)
      → 0 < publish_every u e k core
      → l.steps + 1 < 2 ^ 64
      → IsPaced core l
      → IsPaced core (advance u e k core rtf l.steps l.published x)
  unfolding advance make_snapshot multiples
  advance-IsPaced core rtf l x hp fits a =
      let now : (l.steps + 1) % 2 ^ 64 ≡ suc l.steps = omega arith in
      elim (due_cases (publish_every u e k core) a.number l.steps hp a.low a.high) [
        | inl (q, z) ↦ record {
          number = suc a.number;
          counts_eq = ground (arith, a.counts_eq, q, z, now);
          low = ground (arith, q, now);
          high = ground (arith, q, now, hp);
          latest = λ n m.
              advance-IsLatest core rtf l x hp (ap (λ s. s % publish_every u e k core) now ∙ z);
        }
        | inr (q, z) ↦ record {
          number = a.number;
          counts_eq = ground (arith, a.counts_eq, q, z, now);
          low = ground (arith, a.low, now);
          high = ground (arith, q, now);
          latest = λ n m. absurd (omega (arith, a.low, now, m));
        }
      ]

  -- A round of the cadence: one more step, and the pace is kept.
  abbrev Next : SimCore D → ℕ → Loop D S → Type 0
  Next core n l = (l.steps ≡ n) × IsPaced core l

  run_round-Next :
      (core : SimCore D) (r : Round D S I) (l : Loop D S) {l' : Loop D S}
      → 0 < publish_every u e k core
      → l.steps + 1 < 2 ^ 64
      → IsPaced core l
      → run_round u e k core r l ≡ ok l'
      → Next core (l.steps + 1) l'
  unfolding run_round advance
  run_round-Next core r l {l'} hp fits a q =
      let (x, p1, q2) =
        >>=-eq-ok (control u e k core r.input (set_controller u e k r.install l.controller) l.data_)
          (λ (y : Option S × Data D). ok (advance u e k core r.measured_rtf l.steps l.published y))
          q in
      subst (Holds (Next core (l.steps + 1))) q2
        (omega (arith, fits), advance-IsPaced core r.measured_rtf l x hp fits a)

  run_rounds-Next :
      (core : SimCore D) (rs : List (Round D S I)) (l : Loop D S) {l' : Loop D S}
      → 0 < publish_every u e k core
      → l.steps + length rs < 2 ^ 64
      → IsPaced core l
      → run_rounds u e k core rs l ≡ ok l'
      → Next core (l.steps + length rs) l'
  unfolding run_rounds
  run_rounds-Next core [] l {l'} hp fits a q =
      subst (Holds (Next core (l.steps + 0))) q (omega arith, a)
  run_rounds-Next core (r ∷ rs) l {l'} hp fits a q =
      let (l1, p, q1) = >>=-eq-ok (run_round u e k core r l) (run_rounds u e k core rs) q in
      let (s1, a1) = run_round-Next core r l hp (omega (arith, fits)) a p in
      let (s2, a2) = run_rounds-Next core rs l1 hp (omega (arith, fits, s1)) a1 q1 in
      (omega (arith, s1, s2), a2)

  -- With a positive divisor, and for fewer than 2 ^ 64 steps from the start of the thread: each
  -- round is one step, the step numbers of the published snapshots are, in order, exactly the
  -- positive multiples of the divisor that have been reached, and where the rounds end on such a
  -- step, the latest snapshot shows the time and the main robot's joints as that step leaves them.
  pub run_rounds-IsPaced :
      (core : SimCore D) (rs : List (Round D S I)) (l l' : Loop D S)
      → 0 < publish_every u e k core
      → length rs < 2 ^ 64
      → l.steps ≡ 0
      → l.published ≡ []
      → run_rounds u e k core rs l ≡ ok l'
      → (l'.steps ≡ length rs) × IsPaced core l'
  unfolding multiples
  run_rounds-IsPaced core rs l l' hp fits s0 p0 q =
      let (s, a) =
        run_rounds-Next core rs l hp (omega (arith, fits, s0))
          (record {
            number = 0;
            counts_eq = ap counts p0;
            low = omega arith;
            high = omega (arith, s0, hp);
            latest = λ n m. absurd (n refl);
          })
          q in
      (omega (arith, s, s0), a)
