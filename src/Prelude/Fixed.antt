-- ===== src/Prelude/Fixed.antt =====
-- Numbers with six decimals, as integers: a type on which the float operations can be run
-- (rounding keeps all six decimals). The witnesses and tests are stated at it; no model or theorem
-- rests on it.
use Prim.Native.Nat.{ℕ, ◌+◌, ◌*◌, ◌/◌, ◌^◌}
use native.Mathlib.Omega.{arith}
use package.crypto_trader_ver_9_alph.Prelude.Int.{
  ℤ, pos, pos_part, neg_part, sub_ℕ, ◌+ℤ◌, ◌-ℤ◌, ltb_ℤ, leb_ℤ,
}
use package.crypto_trader_ver_9_alph.Prelude.Float.{FloatOps, StrictOrder, TotalOrder}

abbrev unit : ℕ
unit = 1000000

abbrev scaled_mul : ℤ → ℤ → ℤ
scaled_mul a b =
    sub_ℕ ((pos_part a * pos_part b + neg_part a * neg_part b) / unit)
      ((pos_part a * neg_part b + neg_part a * pos_part b) / unit)

abbrev scaled_div : ℤ → ℤ → ℤ
scaled_div a b =
    let d = pos_part b + neg_part b in sub_ℕ ((pos_part a * unit) / d) ((neg_part a * unit) / d)

instance abbrev pub fixed : FloatOps ℤ
fixed = record {
  decimal_op = λ m e. pos ((m * unit) / 10 ^ e);
  neg_op = λ a. sub_ℕ (neg_part a) (pos_part a);
  add_op = ◌+ℤ◌;
  sub_op = ◌-ℤ◌;
  mul_op = scaled_mul;
  div_op = scaled_div;
  lt_op = ltb_ℤ;
  le_op = leb_ℤ;
  round_op = λ a n. a;
}

pub fixed-StrictOrder : StrictOrder ℤ
fixed-StrictOrder = record { lt_irrefl = λ a. ground arith; lt_trans = λ a b c p q. ground arith }

pub fixed-TotalOrder : TotalOrder ℤ
fixed-TotalOrder = record {
  lt_irrefl = λ a. ground arith;
  lt_asymm = λ a b p. ground arith;
  not_lt_trans = λ a b c p q. ground arith;
}
