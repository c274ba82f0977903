-- ===== src/Double/Fixed.antt =====
-- Thousandths, as an example of a number type that meets the laws of `IsDouble`: it serves the
-- tests and the witnesses. The trigonometric functions are stand-ins.
use nusim.Base.{
  ℕ, zero, suc, ◌+◌, ◌-◌, ◌*◌, ◌≤◌, ◌/◌, ◌^◌, ◌≡◌, sym, true, false, not, arith, ℤ, pos, negsuc,
  pos_part, neg_part, sub_ℕ, ◌≤ℤ◌, ltb_ℤ,
}
use native.Mathlib.Nat.{zero-div}
use nusim.Double.{Double, IsDouble, IsSigned}

-- n * m, for a factor that is not negative.
abbrev pub scale : ℤ → ℕ → ℤ
scale (pos n) m = pos (n * m)
scale (negsuc n) m = sub_ℕ 0 (suc n * m)

-- a / b, rounded towards zero.
abbrev pub quot : ℤ → ℤ → ℤ
quot (pos a) (pos b) = pos (a / b)
quot (pos a) (negsuc b) = sub_ℕ 0 (a / suc b)
quot (negsuc a) (pos b) = sub_ℕ 0 (suc a / b)
quot (negsuc a) (negsuc b) = pos (suc a / suc b)

abbrev pub minus : ℤ → ℤ
minus a = sub_ℕ (neg_part a) (pos_part a)

abbrev pub product : ℤ → ℤ → ℤ
product a b =
    sub_ℕ (pos_part a * pos_part b + neg_part a * neg_part b)
      (pos_part a * neg_part b + neg_part a * pos_part b)

abbrev pub plus : ℤ → ℤ → ℤ
plus a b = sub_ℕ (pos_part a + pos_part b) (neg_part a + neg_part b)

instance abbrev pub fixed : Double ℤ
fixed = record {
  dec = λ n k. scale n (10 ^ (3 - k));
  of_int = λ n. scale n 1000;
  neg = minus;
  add = plus;
  sub = λ a b. plus a (minus b);
  mul = λ a b. quot (product a b) (pos 1000);
  div = λ a b. quot (scale a 1000) b;
  lt = ltb_ℤ;
  le = λ a b. not (ltb_ℤ b a);
  sin = λ a. pos 0;
  cos = λ a. pos 1000;
  tan = λ a. a;
  atan = λ a. a;
  acos = λ a. plus (pos 1000) (minus a);
  asin = λ a. a;
  atan2 = λ a b. pos 0;
  sqrt = λ a. a;
  exp = λ a. pos 1000;
  hypot = λ a b. pos (pos_part a + neg_part a + (pos_part b + neg_part b));
  infinity = pos 1000000000000;
  pi = pos 3142;
  floor = λ a. quot a (pos 1000);
  remainder = λ a b. a;
}

scale-pos : (n m : ℕ) → scale (negsuc n) m ≡ minus (pos (suc n * m))
scale-pos n m = ground arith

mul_mono : (a b m : ℕ) → suc a ≤ suc b → suc a * m ≤ suc b * m
mul_mono a b m h = grind arith

scale_mono : (a b : ℤ) (m : ℕ) → b ≤ℤ a → ltb_ℤ (scale a m) (scale b m) ≡ false
scale_mono (pos a) (pos b) m h = grind arith
scale_mono (pos a) (negsuc b) m h = grind arith
scale_mono (negsuc a) (pos b) m h = grind arith
scale_mono (negsuc a) (negsuc b) m h = ground (arith, mul_mono a b m)

pub fixed-IsDouble : IsDouble ℤ
fixed-IsDouble = record {
  lt_irrefl = λ a. ground arith;
  dec_mono = λ a b k. scale_mono a b (10 ^ (3 - k));
  neg_dec = λ n k. sym (scale-pos n (10 ^ (3 - k)));
}

quot_sign :
    (x y : ℤ)
    → ltb_ℤ (pos 0) x ≡ false
    → ltb_ℤ (pos 0) y ≡ true
    → ltb_ℤ (pos 0) (quot (scale x 1000) y) ≡ false
quot_sign (pos zero) (pos y) h k = ground (arith, zero-div y)
quot_sign (pos (suc x)) (pos y) h k = ground arith
quot_sign (pos x) (negsuc y) h k = ground arith
quot_sign (negsuc x) (pos y) h k = ground arith
quot_sign (negsuc x) (negsuc y) h k = ground arith

pub fixed-IsSigned : IsSigned ℤ
fixed-IsSigned = record {
  lt_asymm = λ x y h. ground arith;
  lt_trans = λ x y z h k. ground arith;
  add_sign = λ x y h k. ground arith;
  div_sign = quot_sign;
  sub_self = λ x y h. ground arith;
}
