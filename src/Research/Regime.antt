-- ===== src/Research/Regime.antt =====
-- ver9/research/regime: the regimes of one row (classifier.py, from its three indicators on, which
-- are pandas) and the routing of the strategies (router.py). An indicator is `none` where it is
-- not a number.
pub mod Routing
mod Tests
use crypto_trader_ver_9_alph.Prelude.{
  Bool, true, false, Option, List, map, String, or_else, str_eq, if◌then◌else◌,
}
use crypto_trader_ver_9_alph.Prelude.Float.{FloatOps, decimal, neg, lt, le, round}

pub record RegimeState (F : Type 0) : Type 0 where
  pub timestamp : String
  pub volatility_regime : String
  pub trend_regime : String
  pub liquidity_regime : String
  pub realized_volatility : F
  pub trend_strength : F
  pub volume_zscore : F

-- The quantiles of the realized volatility.
pub record Quantiles (F : Type 0) : Type 0 where
  pub quarter : F
  pub three_quarters : F
  pub nine_tenths : F

pub record RoutedStrategy (F : Type 0) : Type 0 where
  pub strategy_id : String
  pub enabled : Bool
  pub weight_multiplier : F
  pub reason : String

pub record RegimeRoutingDecision (F : Type 0) : Type 0 where
  pub timestamp : String
  pub volatility : String
  pub trend : String
  pub liquidity : String
  pub routed_strategies : List (RoutedStrategy F)

-- What the router reads of a strategy; `family` is "unknown" where it has none.
pub record Routable : Type 0 where
  pub strategy_id : String
  pub family : String

module _ {F : Type 0} ⦃o : FloatOps F⦄ where
  abbrev pub volatility_of : Quantiles F → F → String
  volatility_of q v =
      if le q.nine_tenths v
      then "extreme_volatility"
      else if le q.three_quarters v
      then "high_volatility"
      else if le v q.quarter
      then "low_volatility"
      else "normal_volatility"

  abbrev pub trend_of : F → String
  trend_of t =
      if lt (decimal 15 3) t
      then "bullish"
      else if lt t (neg (decimal 15 3))
      then "bearish"
      else "sideways"

  abbrev pub liquidity_of : F → String
  liquidity_of z =
      if lt (decimal 10 1) z
      then "high_liquidity"
      else if lt z (neg (decimal 10 1))
      then "low_liquidity"
      else "normal_liquidity"

  unfoldable pub classify_row :
      Quantiles F → String → Option F → Option F → Option F → RegimeState F
  classify_row q timestamp volatility trend volume =
      let v = or_else volatility (decimal 0 1) in
      let t = or_else trend (decimal 0 1) in
      let z = or_else volume (decimal 0 1) in
      record {
        timestamp = timestamp;
        volatility_regime = volatility_of q v;
        trend_regime = trend_of t;
        liquidity_regime = liquidity_of z;
        realized_volatility = round v 6;
        trend_strength = round t 6;
        volume_zscore = round z 6;
      }

  abbrev pub routed : Routable → Bool → F → String → RoutedStrategy F
  routed s enabled weight reason = record {
    strategy_id = s.strategy_id;
    enabled = enabled;
    weight_multiplier = weight;
    reason = reason;
  }

  -- a trend follower, in a sideways market or not and at an extreme volatility or not
  abbrev pub route_trend : Bool → Bool → Routable → RoutedStrategy F
  route_trend sideways extreme s =
      if sideways
      then routed s false (decimal 0 1) "disabled_in_sideways_market"
      else if extreme
      then routed s true (decimal 5 1) "reduced_size_extreme_volatility"
      else routed s true (decimal 10 1) "default"

  abbrev pub route_matching : Bool → Bool → Routable → RoutedStrategy F
  route_matching extreme low s =
      if extreme
      then routed s false (decimal 0 1) "ml_disabled_extreme_volatility"
      else if low
      then routed s true (decimal 4 1) "reduced_size_low_liquidity"
      else routed s true (decimal 10 1) "default"

  unfoldable pub route_strategy : RegimeState F → Routable → RoutedStrategy F
  route_strategy regime s =
      let extreme = str_eq regime.volatility_regime "extreme_volatility" in
      if str_eq s.family "trend_following"
      then route_trend (str_eq regime.trend_regime "sideways") extreme s
      else if str_eq s.family "ml_pattern_matching"
      then route_matching extreme (str_eq regime.liquidity_regime "low_liquidity") s
      else routed s true (decimal 10 1) "default"

  unfoldable pub route : List Routable → RegimeState F → RegimeRoutingDecision F
  route strategies regime = record {
    timestamp = regime.timestamp;
    volatility = regime.volatility_regime;
    trend = regime.trend_regime;
    liquidity = regime.liquidity_regime;
    routed_strategies = map (route_strategy regime) strategies;
  }
