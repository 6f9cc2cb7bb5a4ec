-- ===== src/Research/Regime/Routing.antt =====
-- Which strategies trade at a row of the frame.
use crypto_trader_ver_9_alph.Prelude.{
  ◌≡◌, refl, ap, Bool, true, false, not, ◌||◌, Option, List, [], ◌∷◌, map, String, or_else, str_eq,
  if◌then◌else◌, Bool-cases, inl, inr,
}
use crypto_trader_ver_9_alph.Prelude.Float.{FloatOps, decimal, neg, lt, le}
use crypto_trader_ver_9_alph.Research.Regime.{
  RegimeState, Quantiles, Routable, route_trend, route_matching, volatility_of, trend_of,
  classify_row, route_strategy, route,
}

not-not : (b : Bool) → not (not b) ≡ b
not-not true = refl
not-not false = refl

route_trend-enabled :
    (F : Type 0) ⦃o : FloatOps F⦄ (sideways extreme : Bool) (s : Routable)
    → ((route_trend {F = F} sideways extreme s).enabled ≡ not sideways)
      × ((route_trend {F = F} sideways extreme s).strategy_id ≡ s.strategy_id)
route_trend-enabled F true extreme s = (refl, refl)
route_trend-enabled F false true s = (refl, refl)
route_trend-enabled F false false s = (refl, refl)

route_matching-enabled :
    (F : Type 0) ⦃o : FloatOps F⦄ (extreme low : Bool) (s : Routable)
    → ((route_matching {F = F} extreme low s).enabled ≡ not extreme)
      × ((route_matching {F = F} extreme low s).strategy_id ≡ s.strategy_id)
route_matching-enabled F true low s = (refl, refl)
route_matching-enabled F false true s = (refl, refl)
route_matching-enabled F false false s = (refl, refl)

module _ {F : Type 0} ⦃o : FloatOps F⦄ where
  -- Whether a strategy of a family trades, from the indicators of the row.
  abbrev pub trades_at : Quantiles F → Option F → Option F → String → Bool
  trades_at q volatility trend family =
      if str_eq family "trend_following"
      then lt (decimal 15 3) (or_else trend (decimal 0 1))
        || lt (or_else trend (decimal 0 1)) (neg (decimal 15 3))
      else if str_eq family "ml_pattern_matching"
      then not (le q.nine_tenths (or_else volatility (decimal 0 1)))
      else true

  sideways_iff :
      (t : F)
      → str_eq (trend_of t) "sideways" ≡ not (lt (decimal 15 3) t || lt t (neg (decimal 15 3)))
  sideways_iff t = elim (Bool-cases (lt (decimal 15 3) t)) [
    | inl e ↦ rw e
    | inr e ↦ elim (Bool-cases (lt t (neg (decimal 15 3)))) [
      | inl f ↦ rw (e, f)
      | inr f ↦ rw (e, f)
    ]
  ]

  extreme_iff :
      (q : Quantiles F) (v : F)
      → str_eq (volatility_of q v) "extreme_volatility" ≡ le q.nine_tenths v
  extreme_iff q v = elim (Bool-cases (le q.nine_tenths v)) [
    | inl e ↦ rw e
    | inr e ↦ elim (Bool-cases (le q.three_quarters v)) [
      | inl f ↦ rw (e, f)
      | inr f ↦ elim (Bool-cases (le v q.quarter)) [ inl g ↦ rw (e, f, g) | inr g ↦ rw (e, f, g) ]
    ]
  ]

  -- Whether a strategy is enabled, from the regimes.
  abbrev enabled_in : RegimeState F → String → Bool
  enabled_in regime family =
      if str_eq family "trend_following"
      then not (str_eq regime.trend_regime "sideways")
      else if str_eq family "ml_pattern_matching"
      then not (str_eq regime.volatility_regime "extreme_volatility")
      else true

  route_strategy-enabled :
      (regime : RegimeState F) (s : Routable)
      → ((route_strategy regime s).enabled ≡ enabled_in regime s.family)
        × ((route_strategy regime s).strategy_id ≡ s.strategy_id)
  unfolding route_strategy
  route_strategy-enabled regime s = elim (Bool-cases (str_eq s.family "trend_following")) [
    | inl e ↦ rw (e, route_strategy) (route_trend-enabled F _ _ s)
    | inr e ↦ elim (Bool-cases (str_eq s.family "ml_pattern_matching")) [
      | inl f ↦ rw (e, f, route_strategy) (route_matching-enabled F _ _ s)
      | inr f ↦ rw (e, f, route_strategy) (refl, refl)
    ]
  ]

  trades_at-enabled_in :
      (q : Quantiles F) (timestamp : String) (volatility trend volume : Option F) (family : String)
      → enabled_in (classify_row q timestamp volatility trend volume) family
        ≡ trades_at q volatility trend family
  unfolding classify_row
  trades_at-enabled_in q timestamp volatility trend volume family =
      rw (sideways_iff, extreme_iff)
        (ap
          (λ (b : Bool).
            if str_eq family "trend_following"
            then b
            else if str_eq family "ml_pattern_matching"
            then not (le q.nine_tenths (or_else volatility (decimal 0 1)))
            else true)
          (not-not _))

  -- At the regimes of a row, every strategy is routed once, in order, and a trend follower trades
  -- exactly if the trend is beyond 0.015 either way, a pattern matcher exactly if the volatility
  -- is not at the nine-tenths quantile or above, and any other always; a missing indicator counts
  -- as 0.
  route_lem :
      (q : Quantiles F) (timestamp : String) (volatility trend volume : Option F)
      (strategies : List Routable)
      → let decision = route strategies (classify_row q timestamp volatility trend volume) in
        (map (λ r. r.enabled) decision.routed_strategies
          ≡ map (λ s. trades_at q volatility trend (s.family)) strategies)
        × (map (λ r. r.strategy_id) decision.routed_strategies
            ≡ map (λ s. s.strategy_id) strategies)
  unfolding route
  route_lem q timestamp volatility trend volume [] = (refl, refl)
  route_lem q timestamp volatility trend volume (s ∷ strategies) =
      let regime = classify_row q timestamp volatility trend volume in
      let (enabled, id) = route_strategy-enabled regime s in
      let (rest, ids) = route_lem q timestamp volatility trend volume strategies in
      (
        cc (enabled, trades_at-enabled_in q timestamp volatility trend volume s.family, rest),
        cc (id, ids),
      )
