-- ===== src/Startup/Spread/InHalf.antt =====
-- The robots that `spread_in_half` places stay in their own half, and are as many as asked for.
use nusim.Base.{
  ℕ, zero, suc, ◌≡◌, refl, sym, subst, inl, inr, false, Option, none, some, List, [], ◌∷◌, ◌++◌,
  arith, Bool-cases, if-cases, length, drop, replicate, All,
}
use mathlib.Core.Option
use nusim.Double.{Double, IsSigned, nought}
use nusim.Startup.Spread.{
  Point, Sum, keep_outside, column, columns, samples_of, pick_sample, seed, seeded, add_sample,
  no_sum, sum_samples, centroid, move_free, relax, lloyd_rounds, spread_in_half, ◌>>=◌,
}
use nusim.Startup.Spread.Picks.{Among, pick_sample-farthest}

module _ {ℓ κ} {A : Type ℓ} (P : A → Type κ) where
  All-append : (xs ys : List A) → All P xs → All P ys → All P (xs ++ ys)
  All-append [] ys h k = k
  All-append (x ∷ xs) ys h k = (h.0, All-append xs ys h.1 k)

  All-drop-snoc :
      (n : ℕ) (xs : List A) (a : A) → All P (drop n xs) → P a → All P (drop n (xs ++ (a ∷ [])))
  All-drop-snoc zero xs a h k = All-append xs (a ∷ []) h (k, tt)
  All-drop-snoc (suc zero) [] a h k = tt
  All-drop-snoc (suc (suc n)) [] a h k = tt
  All-drop-snoc (suc n) (x ∷ xs) a h k = All-drop-snoc n xs a h k

  All-replicate : (n : ℕ) (a : A) → P a → All P (replicate n a)
  All-replicate zero a h = tt
  All-replicate (suc n) a h = (h, All-replicate n a h)

  drop-All : (xs : List A) → All P (drop (length xs) xs)
  drop-All [] = tt
  drop-All (x ∷ xs) = drop-All xs

All-Among : {A : Type 0} (P : A → Type 0) (xs : List A) (a : A) → Among a xs → All P xs → P a
All-Among P (x ∷ xs) a (inl e) h = subst P (sym e) h.0
All-Among P (x ∷ xs) a (inr m) h = All-Among P xs a m h.1
All-Among P [] a m h = elim m [ ]

pub Option-map-some :
    {A B : Type 0} (g : A → B) (o : Option A) {b : B}
    → Option.map g o ≡ some b
    → (a : A) × (o ≡ some a) × (g a ≡ b)
Option-map-some g (some a) e = (a, refl, cc)
Option-map-some g none e = cc

pub >>=-some :
    {A B : Type 0} (o : Option A) (g : A → Option B) {b : B}
    → (o >>= g) ≡ some b
    → (a : A) × (o ≡ some a) × (g a ≡ some b)
>>=-some (some a) g e = (a, refl, e)
>>=-some none g e = cc

pub some-inj : {A : Type 0} {a b : A} → some a ≡ some b → a ≡ b
some-inj e = cc

module _ {D : Type 0} ⦃f : Double D⦄ where
  -- Not on the other side of the halfway line.
  abbrev pub InHalf : Point D → Type 0
  InHalf p = f.lt nought p.x ≡ false

  abbrev SumInHalf : Sum D → Type 0
  SumInHalf s = f.lt nought s.x ≡ false

module _ {D : Type 0} ⦃f : Double D⦄ (l : IsSigned D) where
  kept_outside :
      (radius : D) (p : Point D) (ps : List (Point D))
      → InHalf p
      → All InHalf ps
      → All InHalf (keep_outside radius p ps)
  kept_outside radius p ps h k = elim (Bool-cases (f.lt radius (f.hypot p.x p.y))) [
    | inl e ↦ rw e (h, k)
    | inr e ↦ rw e k
  ]

  column-InHalf :
      (fuel : ℕ) (radius stop x y : D) (ps : List (Point D))
      → f.lt nought x ≡ false
      → column fuel radius stop x y ≡ some ps
      → All InHalf ps
  unfolding column
  column-InHalf zero radius stop x y ps h e = cc
  column-InHalf (suc fuel) radius stop x y ps h e = elim (if-cases (f.lt y stop) _ _ _ e) [
    | inl (_, made) ↦
        let (more, got, eq) = Option-map-some _ _ made in
        subst (All InHalf) eq (
          kept_outside radius (record { x = x; y = y }) more h
            (column-InHalf fuel radius stop x _ more h got))
    | inr (_, made) ↦ subst (All InHalf) (some-inj made) tt
  ]

  columns-InHalf :
      (fuel : ℕ) (radius width x : D) (ps : List (Point D))
      → columns fuel radius width x ≡ some ps
      → All InHalf ps
  unfolding columns
  columns-InHalf zero radius width x ps e = cc
  columns-InHalf (suc fuel) radius width x ps e = elim (if-cases (f.lt x nought) _ _ _ e) [
    | inl (left, made) ↦
        let (here, got_here, rest) = >>=-some _ _ made in
        let (more, got_more, eq) = Option-map-some _ _ rest in
        subst (All InHalf) eq (
          All-append InHalf here more
            (column-InHalf fuel radius _ x _ here (l.lt_asymm x nought left) got_here)
            (columns-InHalf fuel radius width _ more got_more))
    | inr (_, made) ↦ subst (All InHalf) (some-inj made) tt
  ]

  add_sample-InHalf :
      (p : Point D) (sums : List (Sum D)) (i : ℕ)
      → InHalf p
      → All SumInHalf sums
      → All SumInHalf (add_sample p sums i)
  add_sample-InHalf p [] i h k = tt
  add_sample-InHalf p (s ∷ sums) zero h k = (l.add_sign s.x p.x k.0 h, k.1)
  add_sample-InHalf p (s ∷ sums) (suc i) h k = (k.0, add_sample-InHalf p sums i h k.1)

  sum_samples-InHalf :
      (robots samples : List (Point D)) (sums : List (Sum D)) (index : ℕ)
      → All InHalf samples
      → All SumInHalf sums
      → All SumInHalf (sum_samples robots samples sums index).0
  unfolding sum_samples
  sum_samples-InHalf robots [] sums index h k = k
  sum_samples-InHalf robots (p ∷ samples) sums index h k =
      sum_samples-InHalf robots samples _ _ h.1 (add_sample-InHalf p sums _ h.0 k)

  centroid-InHalf :
      (s : Sum D) (robot : Point D) → SumInHalf s → InHalf robot → InHalf (centroid s robot)
  centroid-InHalf s robot h k = elim (Bool-cases (f.lt nought s.count)) [
    | inl e ↦ rw e (l.div_sign s.x s.count h e)
    | inr e ↦ rw e k
  ]

  move_free-InHalf :
      (fixed : ℕ) (robots : List (Point D)) (sums : List (Sum D))
      → All InHalf (drop fixed robots)
      → All SumInHalf sums
      → All InHalf (drop fixed (move_free fixed robots sums))
  unfolding move_free
  move_free-InHalf zero [] sums h k = tt
  move_free-InHalf (suc fixed) [] sums h k = tt
  move_free-InHalf zero (robot ∷ robots) [] h k = h
  move_free-InHalf (suc fixed) (robot ∷ robots) [] h k = h
  move_free-InHalf zero (robot ∷ robots) (s ∷ sums) h k =
      (centroid-InHalf s robot k.0 h.0, move_free-InHalf zero robots sums h.1 k.1)
  move_free-InHalf (suc fixed) (robot ∷ robots) (s ∷ sums) h k =
      move_free-InHalf fixed robots sums h k.1

  relax-InHalf :
      (rounds fixed : ℕ) (samples robots : List (Point D)) (index : ℕ)
      → All InHalf samples
      → All InHalf (drop fixed robots)
      → All InHalf (drop fixed (relax rounds fixed samples robots index))
  unfolding relax
  relax-InHalf zero fixed samples robots index h k = k
  relax-InHalf (suc rounds) fixed samples robots index h k =
      relax-InHalf rounds fixed samples _ _ h (
        move_free-InHalf fixed robots _ k (
          sum_samples-InHalf robots samples _ index h (
            All-replicate SumInHalf (length robots) no_sum
              (ground (arith, l.lt_asymm nought nought)))))

  pick_sample-InHalf :
      (robots : List (Point D)) (first : Point D) (rest : List (Point D)) (index : ℕ)
      → All InHalf (first ∷ rest)
      → InHalf (pick_sample robots first rest index).pick
  pick_sample-InHalf robots first rest index h =
      elim (pick_sample-farthest l robots first rest index).0 [
        | inl (e, _) ↦ subst InHalf (sym e) h.0
        | inr (m, _) ↦ All-Among InHalf (first ∷ rest) _ m h
      ]

  seed-InHalf :
      (free : ℕ) (first : Point D) (rest robots : List (Point D)) (index fixed : ℕ)
      → All InHalf (first ∷ rest)
      → All InHalf (drop fixed robots)
      → All InHalf (drop fixed (seed free first rest robots index).0)
  unfolding seed
  seed-InHalf zero first rest robots index fixed h k = k
  seed-InHalf (suc free) first rest robots index fixed h k =
      seed-InHalf free first rest _ _ fixed h
        (All-drop-snoc InHalf fixed robots _ k (pick_sample-InHalf robots first rest index h))

  seeded-InHalf :
      (free : ℕ) (samples fixed : List (Point D)) (r : List (Point D) × ℕ)
      → All InHalf samples
      → seeded free samples fixed ≡ some r
      → All InHalf (drop (length fixed) r.0)
  unfolding seeded
  seeded-InHalf zero samples fixed r h e =
      subst (λ (r : List (Point D) × ℕ). All InHalf (drop (length fixed) r.0)) (some-inj e)
        (drop-All InHalf fixed)
  seeded-InHalf (suc free) [] fixed r h e = cc
  seeded-InHalf (suc free) (first ∷ rest) fixed r h e =
      subst (λ (r : List (Point D) × ℕ). All InHalf (drop (length fixed) r.0)) (some-inj e)
        (seed-InHalf (suc free) first rest fixed 0 (length fixed) h (drop-All InHalf fixed))

  -- Where the doubles obey `IsSigned` and `spread_in_half` returns: no robot that it places has an
  -- x above 0, so none stands across the halfway line, wherever the fixed robots stand.
  pub spread_in_half-InHalf :
      (fuel : ℕ) (fixed : List (Point D)) (free : ℕ) (length_ width radius : D)
      (ps : List (Point D))
      → spread_in_half fuel fixed free length_ width radius ≡ some ps
      → All InHalf ps
  unfolding spread_in_half samples_of
  spread_in_half-InHalf fuel fixed free length_ width radius ps e =
      let (samples, sampled, rest) = >>=-some _ _ e in
      let (r, begun, out) = >>=-some (seeded free samples fixed) _ rest in
      let half = columns-InHalf fuel radius width _ samples sampled in
      subst (All InHalf) (some-inj out) (
        relax-InHalf lloyd_rounds (length fixed) samples r.0 r.1 half
          (seeded-InHalf free samples fixed r half begun))
