-- ===== src/Float/Fixed.antt =====
-- An instance of the `float64` interface in which tests and witnesses compute: whole millionths,
-- truncated towards zero. It shows that the laws can be met together.
use botbtc.Prelude.{
  ℕ, suc, ◌+◌, ◌-◌, ◌*◌, ◌/◌, ◌^◌, ℤ, pos, negsuc, pos_part, neg_part, sub_ℕ, ltb_ℤ, leb_ℤ, eq_ℤ,
  arith,
}
use botbtc.Float.{Float64, IsIeee}

abbrev one : ℕ
one = 1_000_000

abbrev magnitude : ℤ → ℕ
magnitude a = pos_part a + neg_part a

-- |a| down (or up, for a negative a) to a whole number.
abbrev floor_micros : ℤ → ℤ
floor_micros (pos n) = pos (n / one * one)
floor_micros (negsuc n) = sub_ℕ 0 ((suc n + one - 1) / one * one)

abbrev round_micros : ℤ → ℤ
round_micros a = sub_ℕ ((pos_part a + one / 2) / one * one) ((neg_part a + one / 2) / one * one)

abbrev pow10_micros : ℤ → ℤ
pow10_micros (pos n) = pos (10 ^ n * one)
pow10_micros (negsuc n) = pos (one / 10 ^ suc n)

instance abbrev pub micros_float64 : Float64 ℤ
micros_float64 = record {
  literal = λ m e. pos (m * one / 10 ^ e);
  of_int = λ n. sub_ℕ (pos_part n * one) (neg_part n * one);
  add = λ a b. sub_ℕ (pos_part a + pos_part b) (neg_part a + neg_part b);
  sub = λ a b. sub_ℕ (pos_part a + neg_part b) (neg_part a + pos_part b);
  mul = λ a b.
      sub_ℕ ((pos_part a * pos_part b + neg_part a * neg_part b) / one)
        ((pos_part a * neg_part b + neg_part a * pos_part b) / one);
  div = λ a b.
      sub_ℕ (pos_part a * one / pos_part b + neg_part a * one / neg_part b)
        (pos_part a * one / neg_part b + neg_part a * one / pos_part b);
  neg = λ a. sub_ℕ (neg_part a) (pos_part a);
  lt = ltb_ℤ;
  le = leb_ℤ;
  eq = eq_ℤ;
  abs = λ a. pos (magnitude a);
  floor = floor_micros;
  round = round_micros;
  pow10 = pow10_micros;
  format = λ _. "";
}

pub micros-IsIeee : IsIeee ℤ
micros-IsIeee = record {
  zero_number = ground arith;
  number_of_le = λ x y h. ground arith;
  number_of_lt = λ x y h. ground arith;
  le_trans = λ x y z h k. ground arith;
  le_total = λ x y _ _. ground arith;
  lt-eq-not-le = λ x y _ _. ground arith;
  sub-le_self = λ x y h _. ground arith;
  le-add_self = λ x y h _. ground arith;
}
