-- ===== src/Basket/Weights/Signs.antt =====
-- The laws of the order and of signs that the caps rest on, and what `max` and `min` make of them.
use crypto_trader_ver_9_alph.Prelude.{ℕ, suc, ◌≡◌, true, false, arith}
use crypto_trader_ver_9_alph.Prelude.Float.{
  FloatOps, StrictOrder, decimal, sub, mul, div, lt, max, min,
}
use crypto_trader_ver_9_alph.Basket.{zero_float}

-- Signs and the order, as on IEEE doubles: a comparison with NaN is false.
pub record SignLaws (F : Type 0) ⦃o : FloatOps F⦄ : Type 0 where
  pub order : StrictOrder F
  pub sub_le : (c w p : F) → lt c w ≡ false → lt p zero_float ≡ false → lt c (sub w p) ≡ false
  pub sub_sign : (a b : F) → lt b a ≡ true → lt (sub a b) zero_float ≡ false
  pub div_sign :
      (a : F) (n : ℕ) → lt a zero_float ≡ false → lt (div a (decimal (suc n) 0)) zero_float ≡ false
  pub mul_sign :
      (a b : F)
      → lt a zero_float ≡ false
      → lt b zero_float ≡ false
      → lt (mul a b) zero_float ≡ false

module _ {F : Type 0} ⦃o : FloatOps F⦄ (laws : SignLaws F) where
  lt_asymm : (a b : F) → lt a b ≡ true → lt b a ≡ false
  lt_asymm a b h = ground (arith, laws.order.lt_irrefl a, laws.order.lt_trans a b a h)

  pub max-sign : (a b : F) → lt a zero_float ≡ false → lt (max a b) zero_float ≡ false
  max-sign a b h = ground (arith, laws.order.lt_trans a b zero_float)

  pub min-cap : (c w : F) → lt c (min w c) ≡ false
  min-cap c w = ground (arith, laws.order.lt_irrefl c)

  pub cap-min : (c w : F) → lt c (min c w) ≡ false
  cap-min c w = ground (arith, laws.order.lt_irrefl c, lt_asymm w c)

  pub max-cap :
      (c w : F) → lt c zero_float ≡ false → lt c w ≡ false → lt c (max zero_float w) ≡ false
  max-cap c w h k = ground arith
