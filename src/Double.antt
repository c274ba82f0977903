-- ===== src/Double.antt =====
-- The `double` of the C++ code. Floating point arithmetic is not defined in the repository: it is
-- a parameter of the model, and `IsDouble` lists what the code relies on of IEEE 754.
pub mod Fixed
use nusim.Base.{ℕ, suc, ◌≡◌, Bool, true, false, arith, if◌then◌else◌, ℤ, pos, negsuc, ◌≤ℤ◌}

pub record Double (D : Type 0) : Type 0 where
  -- the double nearest to n / 10 ^ k
  pub dec : ℤ → ℕ → D
  pub of_int : ℤ → D
  pub neg : D → D
  pub add : D → D → D
  pub sub : D → D → D
  pub mul : D → D → D
  pub div : D → D → D
  -- x < y, false where one of them is NaN
  pub lt : D → D → Bool
  -- x <= y, false where one of them is NaN
  pub le : D → D → Bool
  pub sin : D → D
  pub cos : D → D
  pub tan : D → D
  pub atan : D → D
  pub acos : D → D
  pub asin : D → D
  pub atan2 : D → D → D
  pub sqrt : D → D
  pub exp : D → D
  pub hypot : D → D → D
  -- INFINITY
  pub infinity : D
  -- M_PI
  pub pi : D
  pub floor : D → ℤ
  -- std::remainder
  pub remainder : D → D → D

-- Laws that hold of every double, NaN and the infinities included.
pub record IsDouble (D : Type 0) ⦃d : Double D⦄ : Type 0 where
  pub lt_irrefl : (x : D) → d.lt x x ≡ false
  -- rounding to the nearest double is monotone
  pub dec_mono : (a b : ℤ) (k : ℕ) → b ≤ℤ a → d.lt (d.dec a k) (d.dec b k) ≡ false
  -- negation is exact, and rounding is symmetric about zero
  pub neg_dec : (n k : ℕ) → d.neg (d.dec (pos (suc n)) k) ≡ d.dec (negsuc n) k

-- Laws of the order and of signs, which hold of every double as well.
pub record IsSigned (D : Type 0) ⦃d : Double D⦄ : Type 0 where
  pub lt_asymm : (x y : D) → d.lt x y ≡ true → d.lt y x ≡ false
  pub lt_trans : (x y z : D) → d.lt x y ≡ true → d.lt y z ≡ true → d.lt x z ≡ true
  -- 0 is not less than the sum of two numbers that it is not less than, or than the quotient of
  -- such a number by one above 0
  pub add_sign :
      (x y : D)
      → d.lt (d.dec (pos 0) 0) x ≡ false
      → d.lt (d.dec (pos 0) 0) y ≡ false
      → d.lt (d.dec (pos 0) 0) (d.add x y) ≡ false
  pub div_sign :
      (x y : D)
      → d.lt (d.dec (pos 0) 0) x ≡ false
      → d.lt (d.dec (pos 0) 0) y ≡ true
      → d.lt (d.dec (pos 0) 0) (d.div x y) ≡ false
  -- x - x is 0, or NaN
  pub sub_self : (x y : D) → d.lt y (d.sub x x) ≡ true → d.lt y (d.dec (pos 0) 0) ≡ true

module _ {D : Type 0} ⦃d : Double D⦄ where
  abbrev pub nought : D
  nought = d.dec (pos 0) 0

  abbrev pub unit : D
  unit = d.dec (pos 1) 0

  abbrev pub two : D
  two = d.dec (pos 2) 0

  -- std::clamp
  unfoldable pub clamp : D → D → D → D
  clamp v lo hi = if d.lt v lo then lo else if d.lt hi v then hi else v

  -- Where the limits are in order the result lies between them, whatever `v` is: no comparison
  -- puts it outside, not even for a NaN.
  pub clamp_bounds :
      (l : IsDouble D) (v lo hi : D)
      → d.lt hi lo ≡ false
      → (d.lt (clamp v lo hi) lo ≡ false) × (d.lt hi (clamp v lo hi) ≡ false)
  unfolding clamp
  clamp_bounds l v lo hi h = ground (arith, l.lt_irrefl lo, l.lt_irrefl hi)
