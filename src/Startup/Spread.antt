-- ===== src/Startup/Spread.antt =====
-- `spread_in_half` of mujoco/shared/util/Config.hpp. The two sampling loops run on fuel; `none` is
-- a loop that has not ended, or a read past the end of the samples. `nearest` hands its index out by
-- reference, so the index is carried from call to call.
pub mod Picks
pub mod InHalf
pub mod Ends
use nusim.Base.{
  ℕ, zero, suc, Option, none, some, List, [], ◌∷◌, ◌++◌, map, if◌then◌else◌, length, drop,
  replicate, pos, negsuc,
}
use mathlib.Core.Option
use nusim.Double.{Double, nought, unit, two}

pub record Point (D : Type 0) : Type 0 where
  pub x : D
  pub y : D

-- The sum of the samples of a robot, and their number.
pub record Sum (D : Type 0) : Type 0 where
  pub x : D
  pub y : D
  pub count : D

-- What `nearest` returns, and its index.
pub record Nearest (D : Type 0) : Type 0 where
  pub best : D
  pub index : ℕ

-- The variables of the search for the farthest sample.
pub record Pick (D : Type 0) : Type 0 where
  pub pick : Point D
  pub farthest : D
  pub index : ℕ

abbrev pub lloyd_rounds : ℕ
lloyd_rounds = 100

infixl 5 ◌>>=◌
abbrev pub ◌>>=◌ : {A B : Type 0} → Option A → (A → Option B) → Option B
none >>= g = none
some a >>= g = g a

module _ {D : Type 0} ⦃f : Double D⦄ where
  open f use {add, sub, mul, div, lt, dec, hypot}

  abbrev pub grid_step : D
  grid_step = dec (pos 1) 1

  -- The sample is kept if it is outside the centre circle.
  abbrev pub keep_outside : D → Point D → List (Point D) → List (Point D)
  keep_outside circle_radius p ps = if lt circle_radius (hypot p.x p.y) then p ∷ ps else ps

  -- The inner loop: the samples of one x, from y on.
  unfoldable pub column : ℕ → D → D → D → D → Option (List (Point D))
  column zero circle_radius stop x y = none
  column (suc fuel) circle_radius stop x y =
      let rest = column fuel circle_radius stop x (add y grid_step) in
      if lt y stop
      then Option.map (keep_outside circle_radius (record { x = x; y = y })) rest
      else some []

  -- The outer loop, from x on.
  unfoldable pub columns : ℕ → D → D → D → Option (List (Point D))
  unfolding column
  columns zero circle_radius width x = none
  columns (suc fuel) circle_radius width x =
      let rest = columns fuel circle_radius width (add x grid_step) in
      let first_y = add (div (f.neg width) two) (div grid_step two) in
      if lt x nought
      then (column fuel circle_radius (div width two) x first_y >>= λ (here : List (Point D)).
          Option.map (λ (ps : List (Point D)). here ++ ps) rest)
      else some []

  unfoldable pub samples_of : ℕ → D → D → D → Option (List (Point D))
  unfolding columns
  samples_of fuel length width circle_radius =
      columns fuel circle_radius width (add (div (f.neg length) two) (div grid_step two))

  abbrev pub distance : Point D → Point D → D
  distance p r = hypot (sub p.x r.x) (sub p.y r.y)

  -- The loop of `nearest`, from the r-th robot on.
  unfoldable pub nearest_from : Point D → List (Point D) → ℕ → Nearest D → Nearest D
  nearest_from p [] r n = n
  nearest_from p (robot ∷ robots) r n =
      nearest_from p robots (suc r)
        (if lt (distance p robot) n.best then record { best = distance p robot; index = r } else n)

  unfoldable pub nearest : List (Point D) → Point D → ℕ → Nearest D
  unfolding nearest_from
  nearest robots p index = nearest_from p robots 0 (record { best = f.infinity; index = index })

  -- The loop over the samples that finds the farthest.
  unfoldable pub farthest_of : List (Point D) → List (Point D) → Pick D → Pick D
  unfolding nearest
  farthest_of robots [] k = k
  farthest_of robots (p ∷ samples) k =
      let n = nearest robots p k.index in
      farthest_of robots samples (
        if lt k.farthest n.best
        then record { pick = p; farthest = n.best; index = n.index }
        else record k { index = n.index })

  -- The search, begun with the first sample.
  unfoldable pub pick_sample : List (Point D) → Point D → List (Point D) → ℕ → Pick D
  unfolding farthest_of
  pick_sample robots first rest index =
      farthest_of robots (first ∷ rest)
        (record { pick = first; farthest = dec (negsuc 0) 0; index = index })

  -- The loop that adds the free robots; the index is that of the last call of `nearest`.
  unfoldable pub seed : ℕ → Point D → List (Point D) → List (Point D) → ℕ → List (Point D) × ℕ
  unfolding pick_sample
  seed zero first rest robots index = (robots, index)
  seed (suc free) first rest robots index =
      let k = pick_sample robots first rest index in
      seed free first rest (robots ++ (k.pick ∷ [])) k.index

  -- `samples.front()` is read only if there is a robot to place.
  unfoldable pub seeded : ℕ → List (Point D) → List (Point D) → Option (List (Point D) × ℕ)
  unfolding seed
  seeded zero samples fixed = some (fixed, 0)
  seeded (suc free) [] fixed = none
  seeded (suc free) (first ∷ rest) fixed = some (seed (suc free) first rest fixed 0)

  abbrev pub add_sample : Point D → List (Sum D) → ℕ → List (Sum D)
  add_sample p [] i = []
  add_sample p (s ∷ sums) zero =
      record { x = add s.x p.x; y = add s.y p.y; count = add s.count unit } ∷ sums
  add_sample p (s ∷ sums) (suc i) = s ∷ add_sample p sums i

  -- Each sample goes to its nearest robot.
  unfoldable pub sum_samples : List (Point D) → List (Point D) → List (Sum D) → ℕ → List (Sum D) × ℕ
  unfolding nearest
  sum_samples robots [] sums index = (sums, index)
  sum_samples robots (p ∷ samples) sums index =
      let n = nearest robots p index in
      sum_samples robots samples (add_sample p sums n.index) n.index

  abbrev pub centroid : Sum D → Point D → Point D
  centroid s robot =
      if lt nought s.count then record { x = div s.x s.count; y = div s.y s.count } else robot

  -- The robots from the `fixed`-th on move to the centroids.
  unfoldable pub move_free : ℕ → List (Point D) → List (Sum D) → List (Point D)
  move_free fixed [] sums = []
  move_free fixed (robot ∷ robots) [] = robot ∷ robots
  move_free (suc fixed) (robot ∷ robots) (s ∷ sums) = robot ∷ move_free fixed robots sums
  move_free zero (robot ∷ robots) (s ∷ sums) = centroid s robot ∷ move_free zero robots sums

  abbrev pub no_sum : Sum D
  no_sum = record { x = nought; y = nought; count = nought }

  -- The rounds of the relaxation.
  unfoldable pub relax : ℕ → ℕ → List (Point D) → List (Point D) → ℕ → List (Point D)
  unfolding sum_samples move_free
  relax zero fixed samples robots index = robots
  relax (suc rounds) fixed samples robots index =
      let (sums, last) = sum_samples robots samples (replicate (length robots) no_sum) index in
      relax rounds fixed samples (move_free fixed robots sums) last

  unfoldable pub spread_in_half : ℕ → List (Point D) → ℕ → D → D → D → Option (List (Point D))
  spread_in_half fuel fixed free length_ width circle_radius =
      samples_of fuel length_ width circle_radius >>= λ (samples : List (Point D)).
      seeded free samples fixed >>= λ (r : List (Point D) × ℕ).
      some (drop (length fixed) (relax lloyd_rounds (length fixed) samples r.0 r.1))
