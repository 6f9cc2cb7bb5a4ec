-- ===== src/Basket/Tests.antt =====
-- A basket of two rows, and the theorems at concrete inputs.
use crypto_trader_ver_9_alph.Prelude.{
  ℕ, suc, ◌≡◌, refl, true, false, some, List, [], ◌∷◌, map, arith,
}
use crypto_trader_ver_9_alph.Prelude.Int.{ℤ, pos, negsuc}
use crypto_trader_ver_9_alph.Prelude.Dict.{lookup}
use crypto_trader_ver_9_alph.Prelude.Float.{mul, div, lt, decimal}
use crypto_trader_ver_9_alph.Prelude.Fixed.{fixed, fixed-StrictOrder}
use crypto_trader_ver_9_alph.Basket.{
  BasketRow, BasketOptimizer, new_optimizer, zero_float, score_of, is_eligible, validation_boost,
  freshness_multiplier, freshness_of_age, diversity_bonus_of, pair_penalty_of,
}
use crypto_trader_ver_9_alph.Basket.Samples.{plain_text, statistics, age_days, row}
use crypto_trader_ver_9_alph.Basket.Weights.Signs.{SignLaws}
use crypto_trader_ver_9_alph.Basket.Weights.Caps.{AreWithin}
use crypto_trader_ver_9_alph.Basket.Selection.{
  select_rows, passes, run_pass, ranked_rows, insert_ranked, consider, rows_of,
}
use crypto_trader_ver_9_alph.Basket.Build.{build, default_optimizer}
use crypto_trader_ver_9_alph.Basket.Choice.{IsBasket, build-IsBasket, build-AreWithin}

abbrev rows : List (BasketRow ℤ)
rows = row "a" "BTC" 2 ∷ row "b" "ETH" 3 ∷ row "c" "BTC" 4 ∷ []

abbrev optimizer : BasketOptimizer ℤ
optimizer = default_optimizer 3 2 true

abbrev strict : BasketOptimizer ℤ
strict = default_optimizer 2 2 false

abbrev twins : List (BasketRow ℤ)
twins = row "a" "BTC" 2 ∷ row "c" "BTC" 4 ∷ []

-- The first row selected is scored again in the second pass, against itself, and keeps the penalty
-- of a pair with itself.
scored_against_itself :
    map (λ r. r.pair_penalty) (rows_of (select_rows age_days optimizer twins).selected)
    ≡ some (pos 1740000) ∷ some (pos 1740000) ∷ []
unfolding select_rows new_optimizer passes run_pass ranked_rows is_eligible insert_ranked score_of
    validation_boost freshness_multiplier freshness_of_age consider diversity_bonus_of
    pair_penalty_of lookup
scored_against_itself = refl

div_sign :
    (a : ℤ) (n : ℕ) → lt a zero_float ≡ false → lt (div a (decimal (suc n) 0)) zero_float ≡ false
div_sign (pos a) n h = ground arith
div_sign (negsuc a) n h = ground arith

mul_sign :
    (a b : ℤ) → lt a zero_float ≡ false → lt b zero_float ≡ false → lt (mul a b) zero_float ≡ false
mul_sign (pos a) (pos b) h k = ground arith
mul_sign (pos a) (negsuc b) h k = ground arith
mul_sign (negsuc a) (pos b) h k = ground arith
mul_sign (negsuc a) (negsuc b) h k = ground arith

fixed-SignLaws : SignLaws ℤ
fixed-SignLaws = record {
  order = fixed-StrictOrder;
  sub_le = λ c w p h k. ground arith;
  sub_sign = λ a b h. ground arith;
  div_sign = div_sign;
  mul_sign = mul_sign;
}

build-IsBasket_example : IsBasket optimizer (build age_days statistics optimizer rows)
build-IsBasket_example = build-IsBasket age_days statistics optimizer rows

build-AreWithin_example :
    let b = build age_days statistics (new_optimizer optimizer) rows in
    AreWithin (new_optimizer optimizer) b.allocation_telemetry.allocation_caps b.weights
build-AreWithin_example = build-AreWithin age_days statistics fixed-SignLaws optimizer rows
