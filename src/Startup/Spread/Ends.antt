-- ===== src/Startup/Spread/Ends.antt =====
-- `spread_in_half` ends, and places as many robots as it is asked to.
use nusim.Base.{
  ℕ, zero, suc, ◌+◌, ◌<◌, ◌≡◌, refl, sym, ap, ◌∙◌, subst, inl, inr, true, false, Option, some, List,
  [], ◌∷◌, ◌++◌, arith, Bool-cases, if-cases, length, drop, length-append, length-drop,
}
use nusim.Double.{Double, nought, two}
use nusim.Startup.Spread.{
  Point, Sum, keep_outside, grid_step, column, columns, samples_of, pick_sample, seed, seeded,
  move_free, relax, lloyd_rounds, spread_in_half, ◌>>=◌,
}
use nusim.Startup.Spread.InHalf.{some-inj, >>=-some, Option-map-some}

module _ {D : Type 0} ⦃f : Double D⦄ where
  -- A coordinate after some steps of the grid.
  abbrev pub after_steps : ℕ → D → D
  after_steps zero x = x
  after_steps (suc n) x = after_steps n (f.add x grid_step)

  abbrev pub first_x : D → D
  first_x length_ = f.add (f.div (f.neg length_) two) (f.div grid_step two)

  column-some :
      (fuel n : ℕ) (radius stop x y : D)
      → n < fuel
      → f.lt (after_steps n y) stop ≡ false
      → (ps : List (Point D)) × (column fuel radius stop x y ≡ some ps)
  unfolding column
  column-some zero n radius stop x y h e = elim h [ ]
  column-some (suc fuel) zero radius stop x y h e = ([], rw e)
  column-some (suc fuel) (suc n) radius stop x y h e = elim (Bool-cases (f.lt y stop)) [
    | inl t ↦
        let (ps, got) = column-some fuel n radius stop x (f.add y grid_step) (omega arith) e in
        (keep_outside radius (record { x = x; y = y }) ps, rw (t, got))
    | inr t ↦ ([], rw t)
  ]

  columns-some :
      (fuel n k : ℕ) (radius width x : D)
      → n + k < fuel
      → f.lt (after_steps n x) nought ≡ false
      → f.lt (after_steps k (first_x width)) (f.div width two) ≡ false
      → (ps : List (Point D)) × (columns fuel radius width x ≡ some ps)
  unfolding columns
  columns-some zero n k radius width x h e d = absurd (omega arith)
  columns-some (suc fuel) zero k radius width x h e d = ([], rw e)
  columns-some (suc fuel) (suc n) k radius width x h e d = elim (Bool-cases (f.lt x nought)) [
    | inl t ↦
        let (here, got) =
          column-some fuel k radius (f.div width two) x (first_x width) (omega arith) d in
        let (more, rest) =
          columns-some fuel n k radius width (f.add x grid_step) (omega arith) e d in
        (here ++ more, rw (t, got, rest))
    | inr t ↦ ([], rw t)
  ]

  kept_first :
      (radius : D) (p : Point D) (ps : List (Point D))
      → f.lt radius (f.hypot p.x p.y) ≡ true
      → keep_outside radius p ps ≡ p ∷ ps
  kept_first radius p ps k = rw k

  -- The corner of the half is the first sample, if it is one at all.
  column-begins :
      (fuel : ℕ) (radius stop x y : D) (ps : List (Point D))
      → f.lt y stop ≡ true
      → f.lt radius (f.hypot x y) ≡ true
      → column fuel radius stop x y ≡ some ps
      → (rest : List (Point D)) × (ps ≡ record { x = x; y = y } ∷ rest)
  unfolding column
  column-begins zero radius stop x y ps h k e = cc
  column-begins (suc fuel) radius stop x y ps h k e = elim (if-cases (f.lt y stop) _ _ _ e) [
    | inl (_, made) ↦
        let (more, got, eq) = Option-map-some _ _ made in
        (more, sym eq ∙ kept_first radius (record { x = x; y = y }) more k)
    | inr (past, _) ↦ cc
  ]

  columns-begins :
      (fuel : ℕ) (radius width x : D) (ps : List (Point D))
      → f.lt x nought ≡ true
      → f.lt (first_x width) (f.div width two) ≡ true
      → f.lt radius (f.hypot x (first_x width)) ≡ true
      → columns fuel radius width x ≡ some ps
      → (rest : List (Point D)) × (ps ≡ record { x = x; y = first_x width } ∷ rest)
  unfolding columns
  columns-begins zero radius width x ps h k r e = cc
  columns-begins (suc fuel) radius width x ps h k r e = elim (if-cases (f.lt x nought) _ _ _ e) [
    | inl (_, made) ↦
        let (here, got, rest) = >>=-some _ _ made in
        let (more, _, eq) = Option-map-some _ _ rest in
        let (tail, begins) =
          column-begins fuel radius (f.div width two) x (first_x width) here k r got in
        (tail ++ more, sym eq ∙ ap (λ (ps : List (Point D)). ps ++ more) begins)
    | inr (past, _) ↦ cc
  ]

  seeded-some :
      (free : ℕ) (first : Point D) (rest fixed : List (Point D))
      → (r : List (Point D) × ℕ) × (seeded free (first ∷ rest) fixed ≡ some r)
  unfolding seeded
  seeded-some zero first rest fixed = ((fixed, 0), refl)
  seeded-some (suc free) first rest fixed = (seed (suc free) first rest fixed 0, refl)

  length-seed :
      (free : ℕ) (first : Point D) (rest robots : List (Point D)) (index : ℕ)
      → length (seed free first rest robots index).0 ≡ length robots + free
  unfolding seed
  length-seed zero first rest robots index = omega arith
  length-seed (suc free) first rest robots index =
      let k = pick_sample robots first rest index in
      omega (
        arith,
        length-seed free first rest (robots ++ (k.pick ∷ [])) k.index,
        length-append robots (k.pick ∷ []),
      )

  length-move_free :
      (fixed : ℕ) (robots : List (Point D)) (sums : List (Sum D))
      → length (move_free fixed robots sums) ≡ length robots
  unfolding move_free
  length-move_free zero [] sums = refl
  length-move_free (suc fixed) [] sums = refl
  length-move_free zero (robot ∷ robots) [] = refl
  length-move_free (suc fixed) (robot ∷ robots) [] = refl
  length-move_free zero (robot ∷ robots) (s ∷ sums) = ap suc (length-move_free zero robots sums)
  length-move_free (suc fixed) (robot ∷ robots) (s ∷ sums) =
      ap suc (length-move_free fixed robots sums)

  length-relax :
      (rounds fixed : ℕ) (samples robots : List (Point D)) (index : ℕ)
      → length (relax rounds fixed samples robots index) ≡ length robots
  unfolding relax
  length-relax zero fixed samples robots index = refl
  length-relax (suc rounds) fixed samples robots index =
      length-relax rounds fixed samples _ _ ∙ length-move_free fixed robots _

  length-seeded :
      (free : ℕ) (samples fixed : List (Point D)) (r : List (Point D) × ℕ)
      → seeded free samples fixed ≡ some r
      → length r.0 ≡ length fixed + free
  unfolding seeded
  length-seeded zero samples fixed r e =
      subst (λ (r : List (Point D) × ℕ). length r.0 ≡ length fixed + 0) (some-inj e) (omega arith)
  length-seeded (suc free) [] fixed r e = cc
  length-seeded (suc free) (first ∷ rest) fixed r e =
      subst (λ (r : List (Point D) × ℕ). length r.0 ≡ length fixed + suc free) (some-inj e)
        (length-seed (suc free) first rest fixed 0)

  pub length-spread_in_half :
      (fuel : ℕ) (fixed : List (Point D)) (free : ℕ) (length_ width radius : D)
      (ps : List (Point D))
      → spread_in_half fuel fixed free length_ width radius ≡ some ps
      → length ps ≡ free
  unfolding spread_in_half
  length-spread_in_half fuel fixed free length_ width radius ps e =
      let (samples, sampled, rest) = >>=-some (samples_of fuel length_ width radius) _ e in
      let (r, begun, out) = >>=-some (seeded free samples fixed) _ rest in
      let robots = relax lloyd_rounds (length fixed) samples r.0 r.1 in
      let same : length (drop (length fixed) robots) ≡ length ps = ap length (some-inj out) in
      omega (
        arith,
        same,
        length-drop (length fixed) robots,
        length-relax lloyd_rounds (length fixed) samples r.0 r.1,
        length-seeded free samples fixed r begun,
      )

  -- If a run of grid steps along each side of the half reaches its end, its corner is outside the
  -- centre circle, and the fuel is above the two numbers of steps together: `spread_in_half` returns
  -- exactly as many positions as it is asked for.
  pub spread_in_half-length :
      (fuel n k : ℕ) (fixed : List (Point D)) (free : ℕ) (length_ width radius : D)
      → n + k < fuel
      → f.lt (after_steps n (first_x length_)) nought ≡ false
      → f.lt (after_steps k (first_x width)) (f.div width two) ≡ false
      → f.lt (first_x length_) nought ≡ true
      → f.lt (first_x width) (f.div width two) ≡ true
      → f.lt radius (f.hypot (first_x length_) (first_x width)) ≡ true
      → (ps : List (Point D)) × (spread_in_half fuel fixed free length_ width radius ≡ some ps)
        × (length ps ≡ free)
  unfolding spread_in_half samples_of
  spread_in_half-length fuel n k fixed free length_ width radius h e d in_x in_y out =
      let (samples, sampled) = columns-some fuel n k radius width (first_x length_) h e d in
      let (rest, begins) =
        columns-begins fuel radius width (first_x length_) samples in_x in_y out sampled in
      let (r, begun) =
        seeded-some free (record { x = first_x length_; y = first_x width }) rest fixed in
      let corner : Point D = record { x = first_x length_; y = first_x width } in
      let ps = drop (length fixed) (relax lloyd_rounds (length fixed) (corner ∷ rest) r.0 r.1) in
      let returns : spread_in_half fuel fixed free length_ width radius ≡ some ps =
        ap
          (λ (o : Option (List (Point D))). o >>= λ (samples : List (Point D)).
            seeded free samples fixed >>= λ (r : List (Point D) × ℕ).
            some (drop (length fixed) (relax lloyd_rounds (length fixed) samples r.0 r.1)))
          (sampled ∙ ap some begins)
        ∙ ap
            (λ (o : Option (List (Point D) × ℕ)). o >>= λ (r : List (Point D) × ℕ).
              some
                (drop (length fixed) (relax lloyd_rounds (length fixed) (corner ∷ rest) r.0 r.1)))
            begun in
      (ps, returns, length-spread_in_half fuel fixed free length_ width radius ps returns)
