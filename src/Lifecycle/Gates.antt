-- ===== src/Lifecycle/Gates.antt =====
-- The two gates of the basket, and how they are nested.
use crypto_trader_ver_9_alph.Prelude.{◌≡◌, true, false, Option, some, arith, str_eq}
use crypto_trader_ver_9_alph.Prelude.Float.{FloatOps, StrictOrder, decimal, neg, lt, le}
use crypto_trader_ver_9_alph.Prelude.Text.{TextOps}
use crypto_trader_ver_9_alph.Lifecycle.{Candidate, current_status}
use crypto_trader_ver_9_alph.Lifecycle.Basket.{
  BasketContext, as_float, basket_context, basket_novelty_score, meets, min_robustness_probationary,
  min_robustness_deployable, min_profit_factor_probationary, min_profit_factor_deployable,
  max_drawdown_probationary, max_drawdown_deployable, can_enter_probationary_basket,
  can_enter_deployable_basket,
}

-- The thresholds of the deployable gate are above those of the probationary one, in an order in
-- which both `<` and `<=` are transitive.
pub record Thresholds (F : Type 0) ⦃o : FloatOps F⦄ : Type 0 where
  pub order : StrictOrder F
  pub le_trans : (a b c : F) → le a b ≡ true → le b c ≡ true → le a c ≡ true
  pub robustness_up : lt {F = F} (decimal 82 2) (decimal 90 2) ≡ true
  pub profit_up : lt {F = F} (decimal 19 1) (decimal 22 1) ≡ true
  pub drawdown_up : lt {F = F} (neg (decimal 85 1)) (neg (decimal 60 1)) ≡ true
  pub novelty_up : le {F = F} (decimal 3 1) (decimal 45 2) ≡ true

module _ {F : Type 0} ⦃o : FloatOps F⦄ ⦃t : TextOps⦄ where
  -- A record that is not below a threshold is not below a smaller one.
  not_below : (order : StrictOrder F) (a b x : F) → lt a b ≡ true → lt x b ≡ false → lt x a ≡ false
  not_below order a b x p q = ground (arith, order.lt_trans x a b)

  meets_both :
      (law : Thresholds F) (r : Candidate F)
      → meets min_robustness_deployable min_profit_factor_deployable max_drawdown_deployable r
        ≡ true
      → meets min_robustness_probationary min_profit_factor_probationary max_drawdown_probationary r
        ≡ true
  meets_both law r h = ground (
    arith,
    not_below law.order min_robustness_probationary min_robustness_deployable
        (as_float r.robustness_score) law.robustness_up,
    not_below law.order min_profit_factor_probationary min_profit_factor_deployable
        (as_float r.profit_factor) law.profit_up,
    not_below law.order max_drawdown_probationary max_drawdown_deployable
        (as_float r.max_drawdown_pct) law.drawdown_up,
  )

  -- Where the order of the numbers is transitive and has the thresholds of the deployable gate
  -- above those of the probationary one, a candidate that is not quarantined and passes the
  -- deployable gate also passes the probationary one, in the same basket.
  deployable-probationary :
      (law : Thresholds F) (r : Candidate F) (context : Option (BasketContext F))
      → str_eq (current_status r) "quarantined" ≡ false
      → can_enter_deployable_basket r context ≡ true
      → can_enter_probationary_basket r context ≡ true
  unfolding can_enter_probationary_basket can_enter_deployable_basket
  deployable-probationary law r context q h = ground (
    arith,
    meets_both law r,
    law.le_trans (decimal 3 1) (decimal 45 2)
        (basket_novelty_score r (some (basket_context r context))) law.novelty_up,
  )
