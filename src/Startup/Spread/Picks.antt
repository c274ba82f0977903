-- ===== src/Startup/Spread/Picks.antt =====
-- What `nearest` and the search for the farthest sample find.
use nusim.Base.{
  ℕ, suc, ◌≡◌, refl, sym, ap, ◌∙◌, subst, ◌⊎◌, inl, inr, Bool, true, false, List, [], ◌∷◌, arith,
  if◌then◌else◌, All, negsuc,
}
use nusim.Double.{Double, IsSigned}
use nusim.Startup.Spread.{
  Point, Nearest, Pick, distance, nearest_from, nearest, farthest_of, pick_sample,
}

-- The entry is in the list.
abbrev pub Among : {A : Type 0} → A → List A → Type 0
Among a [] = ⊥
Among a (x ∷ xs) = (a ≡ x) ⊎ Among a xs

pub All-weaken {ℓ κ} :
    {A : Type ℓ} (P Q : A → Type κ) (xs : List A) → ((a : A) → P a → Q a) → All P xs → All Q xs
All-weaken P Q [] g h = tt
All-weaken P Q (x ∷ xs) g h = (g x h.0, All-weaken P Q xs g h.1)

module _ {D : Type 0} ⦃f : Double D⦄ where
  -- Not below, as the code tests it.
  abbrev pub NotBelow : D → D → Type 0
  NotBelow bound d = f.lt d bound ≡ false

  -- A minimum has not grown.
  abbrev pub NotGrown : D → D → Type 0
  NotGrown old new = (new ≡ old) ⊎ (f.lt new old ≡ true)

  -- No robot is nearer than what has been found, which has not grown.
  abbrev IsLeast : Point D → List (Point D) → D → D → Type 0
  IsLeast p robots old new =
      All (λ robot. NotBelow new (distance p robot)) robots × NotGrown old new

  best-if :
      (b : Bool) (m n : Nearest D) → (if b then m else n).best ≡ (if b then m.best else n.best)
  best-if true m n = refl
  best-if false m n = refl

  farthest-if :
      (b : Bool) (m n : Pick D)
      → (if b then m else n).farthest ≡ (if b then m.farthest else n.farthest)
  farthest-if true m n = refl
  farthest-if false m n = refl

module _ {D : Type 0} ⦃f : Double D⦄ (l : IsSigned D) where
  -- One round of a search for the least.
  lower :
      (d old new : D)
      → NotGrown (if f.lt d old then d else old) new
      → NotBelow new d × NotGrown old new
  lower d old new h =
      ground (arith, l.lt_asymm d d, l.lt_trans new d old, l.lt_trans d new old, l.lt_asymm d new)

  -- One round of a search for the greatest.
  higher :
      (d old new : D)
      → NotGrown new (if f.lt old d then d else old)
      → NotBelow d new × NotGrown new old
  higher d old new h =
      ground (arith, l.lt_asymm d d, l.lt_trans old d new, l.lt_trans old new d, l.lt_asymm d new)

  nearest_from-IsLeast :
      (p : Point D) (robots : List (Point D)) (r : ℕ) (n : Nearest D)
      → IsLeast p robots n.best (nearest_from p robots r n).best
  unfolding nearest_from
  nearest_from-IsLeast p [] r n = (tt, inl refl)
  nearest_from-IsLeast p (robot ∷ robots) r n =
      let d = distance p robot in
      let n' : Nearest D = if f.lt d n.best then record { best = d; index = r } else n in
      let (rest, kept) = nearest_from-IsLeast p robots (suc r) n' in
      let out = (nearest_from p robots (suc r) n').best in
      let (least, grown) =
        lower d n.best out (subst (λ b. NotGrown b out) (best-if (f.lt d n.best) _ n) kept) in
      ((least, rest), grown)

  -- With the robot of the index, if any is nearer than INFINITY.
  pub nearest-IsLeast :
      (robots : List (Point D)) (p : Point D) (index : ℕ)
      → All (λ robot. NotBelow (nearest robots p index).best (distance p robot)) robots
  unfolding nearest
  nearest-IsLeast robots p index =
      (nearest_from-IsLeast p robots 0 (record { best = f.infinity; index = index })).0

module _ {D : Type 0} ⦃f : Double D⦄ where
  -- The clearance does not depend on the index that is handed in.
  nearest_from-best :
      (p : Point D) (robots : List (Point D)) (r : ℕ) (m n : Nearest D)
      → m.best ≡ n.best
      → (nearest_from p robots r m).best ≡ (nearest_from p robots r n).best
  unfolding nearest_from
  nearest_from-best p [] r m n e = e
  nearest_from-best p (robot ∷ robots) r m n e = nearest_from-best p robots (suc r) _ _ (
      best-if (f.lt (distance p robot) m.best) _ m
      ∙ (same_test ∙ sym (best-if (f.lt (distance p robot) n.best) _ n)))
    where
      same_test :
          (if f.lt (distance p robot) m.best then distance p robot else m.best)
          ≡ (if f.lt (distance p robot) n.best then distance p robot else n.best)
      same_test = ap (λ b. if f.lt (distance p robot) b then distance p robot else b) e

  -- How far a point is from the nearest robot.
  abbrev pub clearance : List (Point D) → Point D → D
  clearance robots p = (nearest robots p 0).best

  nearest-clearance :
      (robots : List (Point D)) (p : Point D) (index : ℕ)
      → (nearest robots p index).best ≡ clearance robots p
  unfolding nearest
  nearest-clearance robots p index = nearest_from-best p robots 0 _ _ refl

  -- What the search holds: the start, or one of the samples with its clearance.
  abbrev Holds : List (Point D) → List (Point D) → Pick D → Pick D → Type 0
  Holds robots samples start k =
      ((k.pick ≡ start.pick) × (k.farthest ≡ start.farthest))
      ⊎ (Among k.pick samples × (k.farthest ≡ clearance robots k.pick))

module _ {D : Type 0} ⦃f : Double D⦄ (l : IsSigned D) where
  farthest_of-IsGreatest :
      (robots samples : List (Point D)) (k : Pick D)
      → All (λ p. NotBelow (clearance robots p) (farthest_of robots samples k).farthest) samples
        × NotGrown (farthest_of robots samples k).farthest k.farthest
  unfolding farthest_of
  farthest_of-IsGreatest robots [] k = (tt, inl refl)
  farthest_of-IsGreatest robots (p ∷ samples) k =
      let n = nearest robots p k.index in
      let k' : Pick D =
        if f.lt k.farthest n.best
        then record { pick = p; farthest = n.best; index = n.index }
        else record k { index = n.index } in
      let (rest, kept) = farthest_of-IsGreatest robots samples k' in
      let out = (farthest_of robots samples k').farthest in
      let (most, grown) =
        higher l n.best k.farthest out
          (subst (λ b. NotGrown out b) (farthest-if (f.lt k.farthest n.best) _ _) kept) in
      ((subst (λ b. NotBelow b out) (nearest-clearance robots p k.index) most, rest), grown)

  farthest_of-Holds :
      (robots samples : List (Point D)) (k : Pick D)
      → Holds robots samples k (farthest_of robots samples k)
  unfolding farthest_of
  farthest_of-Holds robots [] k = inl (refl, refl)
  farthest_of-Holds robots (p ∷ samples) k =
      let n = nearest robots p k.index in
      let taken : Pick D = record { pick = p; farthest = n.best; index = n.index } in
      let kept : Pick D = record k { index = n.index } in
      first (f.lt k.farthest n.best) taken kept (nearest-clearance robots p k.index)
        (farthest_of robots samples (if f.lt k.farthest n.best then taken else kept))
        (farthest_of-Holds robots samples (if f.lt k.farthest n.best then taken else kept))
    where
      first :
          (b : Bool) (taken kept : Pick D)
          → taken.farthest ≡ clearance robots taken.pick
          → (out : Pick D) → Holds robots samples (if b then taken else kept) out
          → ((out.pick ≡ kept.pick) × (out.farthest ≡ kept.farthest))
            ⊎ (((out.pick ≡ taken.pick) ⊎ Among out.pick samples)
                × (out.farthest ≡ clearance robots out.pick))
      first true taken kept e out (inl (h, g)) =
          inr (inl h, g ∙ (e ∙ ap (clearance robots) (sym h)))
      first true taken kept e out (inr (h, g)) = inr (inr h, g)
      first false taken kept e out (inl (h, g)) = inl (h, g)
      first false taken kept e out (inr (h, g)) = inr (inr h, g)

  -- Where the doubles obey `IsSigned`: the search returns one of the samples with its distance from
  -- the nearest robot, or the first sample with -1; and no sample is farther from its nearest robot
  -- than the distance that is returned.
  pub pick_sample-farthest :
      (robots : List (Point D)) (first : Point D) (rest : List (Point D)) (index : ℕ)
      → let k = pick_sample robots first rest index in
        (((k.pick ≡ first) × (k.farthest ≡ f.dec (negsuc 0) 0))
          ⊎ (Among k.pick (first ∷ rest) × (k.farthest ≡ clearance robots k.pick)))
        × All (λ p. NotBelow (clearance robots p) k.farthest) (first ∷ rest)
  unfolding pick_sample
  pick_sample-farthest robots first rest index =
      let start : Pick D = record { pick = first; farthest = f.dec (negsuc 0) 0; index = index } in
      (
        farthest_of-Holds robots (first ∷ rest) start,
        (farthest_of-IsGreatest robots (first ∷ rest) start).0,
      )
