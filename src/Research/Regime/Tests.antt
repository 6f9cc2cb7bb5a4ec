-- ===== src/Research/Regime/Tests.antt =====
-- The routing at a row whose trend is missing, run.
use crypto_trader_ver_9_alph.Prelude.{◌≡◌, refl, true, false, none, some, List, [], ◌∷◌, map}
use crypto_trader_ver_9_alph.Prelude.Int.{ℤ, pos}
use crypto_trader_ver_9_alph.Prelude.Fixed.{fixed}
use crypto_trader_ver_9_alph.Research.Regime.{
  Quantiles, Routable, classify_row, route_strategy, route,
}

abbrev quantiles : Quantiles ℤ
quantiles = record { quarter = pos 200000; three_quarters = pos 400000; nine_tenths = pos 800000 }

abbrev strategies : List Routable
strategies =
    record { strategy_id = "a"; family = "trend_following" }
    ∷ record { strategy_id = "b"; family = "ml_pattern_matching" }
    ∷ []

one_trades :
    map
      (λ r. r.enabled)
      (route strategies
        (classify_row quantiles "t0" (some (pos 500000)) none none)).routed_strategies
    ≡ false ∷ true ∷ []
unfolding route route_strategy classify_row
one_trades = refl
