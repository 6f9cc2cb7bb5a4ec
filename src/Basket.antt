-- ===== src/Basket.antt =====
-- ver9/basket_optimizer.py: the rows of a basket, their scores and penalties. Of a candidate the
-- model has the keys that the optimizer reads: a number is `none` where the key is missing or does
-- not convert, a text where it is missing; `trades` is a count. The age of a time stamp is a
-- parameter, the clock standing still for one call.
pub mod Selection
pub mod Weights
pub mod Build
pub mod Choice
pub mod Samples
mod Tests
use crypto_trader_ver_9_alph.Prelude.{
  ℕ, Bool, true, ◌&&◌, not, Option, List, [], ◌∷◌, map, String, ltb, or_else, str_eq, if◌then◌else◌,
}
use crypto_trader_ver_9_alph.Prelude.Dict.{Dict, lookup, mem}
use crypto_trader_ver_9_alph.Prelude.Float.{
  FloatOps, decimal, add, mul, div, le, round, abs, max, min,
}
use crypto_trader_ver_9_alph.Prelude.Text.{TextOps, lower}
use crypto_trader_ver_9_alph.Lifecycle.{text_or, symbol_root}

-- What the row's validation says.
pub record RowEvidence (F : Type 0) : Type 0 where
  pub walk_forward_passed : Bool
  pub monte_carlo_passed : Bool
  pub perturbation_passed : Bool
  pub cross_symbol_passed : Bool
  pub walk_forward_score : Option F
  pub monte_carlo_score : Option F
  pub perturbation_score : Option F
  pub cross_symbol_score : Option F

-- A row, with the four keys that `consider` writes.
pub record BasketRow (F : Type 0) : Type 0 where
  pub strategy_id : Option String
  pub candidate_id : Option String
  pub symbol : Option String
  pub family : Option String
  pub regime : Option String
  pub timeframe : Option String
  pub status : Option String
  pub updated_at : Option String
  pub profit_factor : Option F
  pub return_pct : Option F
  pub max_drawdown_pct : Option F
  pub robustness_score : Option F
  pub validation_score : Option F
  pub correlation_hint : Option F
  pub execution_quality_score : Option F
  pub capital_multiplier : Option F
  pub trades : Option ℕ
  pub validation_passed : Option Bool
  pub evidence : RowEvidence F
  pub candidate_score : Option F
  pub basket_score : Option F
  pub diversity_bonus : Option F
  pub pair_penalty : Option F

pub record BasketOptimizer (F : Type 0) : Type 0 where
  pub max_positions : ℕ
  pub min_positions : ℕ
  pub soft_fill : Bool
  pub enforce_unique_symbols : Bool
  pub enforce_unique_families : Bool
  pub min_candidate_score : F
  pub max_strategy_weight : F
  pub max_symbol_weight : F
  pub max_family_weight : F
  pub correlation_penalty_scale : F
  pub min_cap_floor : F

module _ {F : Type 0} where
  -- `str(row.get("strategy_id") or row.get("candidate_id") or "unknown")`
  abbrev pub id_of : BasketRow F → String
  id_of r = text_or (text_or "unknown" r.candidate_id) r.strategy_id

  module _ ⦃t : TextOps⦄ where
    abbrev pub symbol_of : BasketRow F → String
    symbol_of r = symbol_root (text_or "" r.symbol)

    abbrev pub family_of : BasketRow F → String
    family_of r = lower (text_or "unknown" r.family)

    abbrev pub regime_of : BasketRow F → String
    regime_of r = lower (text_or "adaptive" r.regime)

    abbrev pub timeframe_of : BasketRow F → String
    timeframe_of r = lower (text_or "unknown" r.timeframe)

abbrev pub allowed_statuses : List String
allowed_statuses = "validated" ∷ "probationary" ∷ "deployable" ∷ "live" ∷ []

module _ {F : Type 0} ⦃o : FloatOps F⦄ where
  abbrev pub to_float : Option F → F → F
  to_float v default = or_else v default

  abbrev pub zero_float : F
  zero_float = decimal 0 0

  abbrev pub one_float : F
  one_float = decimal 10 1

  -- `max(0.0, min(1.0, value))`
  abbrev pub clamp : F → F
  clamp value = max zero_float (min one_float value)

  abbrev pub family_multipliers : Dict F
  family_multipliers =
      ("mean_reversion", decimal 112 2)
      ∷ ("volatility_compression", decimal 108 2)
      ∷ ("trend", decimal 95 2)
      ∷ ("hybrid", decimal 10 1)
      ∷ []

  abbrev pub regime_multipliers : Dict F
  regime_multipliers =
      ("mean_reversion", decimal 108 2)
      ∷ ("volatility_compression", decimal 104 2)
      ∷ ("trend", decimal 10 1)
      ∷ ("adaptive", decimal 10 1)
      ∷ []

  unfoldable pub new_optimizer : BasketOptimizer F → BasketOptimizer F
  new_optimizer given = record given {
    max_positions = if ltb given.max_positions 1 then 1 else given.max_positions;
    min_positions = if ltb given.min_positions 1 then 1 else given.min_positions;
    max_strategy_weight = clamp given.max_strategy_weight;
    max_symbol_weight = clamp given.max_symbol_weight;
    max_family_weight = clamp given.max_family_weight;
    correlation_penalty_scale = max zero_float given.correlation_penalty_scale;
    min_cap_floor = clamp given.min_cap_floor;
  }

  unfoldable pub freshness_of_age : F → F
  freshness_of_age days =
      if le days (decimal 3 0)
      then decimal 10 1
      else if le days (decimal 7 0)
      then decimal 9 1
      else if le days (decimal 14 0)
      then decimal 75 2
      else if le days (decimal 30 0)
      then decimal 5 1
      else decimal 2 1

  -- `total += bonus if test else 0.0`
  abbrev pub boost_if : Bool → F → F → F
  boost_if test bonus total = add total (if test then bonus else zero_float)

  unfoldable pub validation_boost : RowEvidence F → F
  validation_boost e =
      let passed = boost_if e.cross_symbol_passed (decimal 35 2) (
        boost_if e.perturbation_passed (decimal 35 2) (
          boost_if e.monte_carlo_passed (decimal 45 2)
            (boost_if e.walk_forward_passed (decimal 40 2) zero_float))) in
      add
        (add
          (add (add passed (mul (to_float e.walk_forward_score zero_float) (decimal 12 2)))
            (mul (to_float e.monte_carlo_score zero_float) (decimal 18 2)))
          (mul (to_float e.perturbation_score zero_float) (decimal 16 2)))
        (mul (to_float e.cross_symbol_score zero_float) (decimal 16 2))

  unfoldable pub is_eligible : ⦃t : TextOps⦄ → BasketRow F → Bool
  is_eligible r =
      mem (lower (text_or "" r.status)) allowed_statuses
      && or_else r.validation_passed true
      && not (
          le (to_float r.validation_score zero_float) zero_float
          && le (to_float r.robustness_score zero_float) zero_float)

  module _ ⦃t : TextOps⦄ (age_days : Option String → F) where
    unfoldable pub freshness_multiplier : Option String → F
    freshness_multiplier updated_at = freshness_of_age (age_days updated_at)

    abbrev pub execution_quality : BasketRow F → F
    execution_quality r =
        max (decimal 2 1) (min one_float (to_float r.execution_quality_score one_float))

    abbrev pub trades_of : BasketRow F → ℕ
    trades_of r = let n = or_else r.trades 0 in if ltb 400 n then 400 else n

    unfoldable pub score_of : BasketRow F → F
    score_of r =
        let base =
          add
            (add
              (add
                (add (mul (max (to_float r.profit_factor zero_float) zero_float) (decimal 25 1))
                  (div (max (to_float r.return_pct zero_float) zero_float) (decimal 90 1)))
                (mul (to_float r.robustness_score zero_float) (decimal 50 1)))
              (mul (div (decimal (trades_of r) 0) (decimal 4000 1)) (decimal 8 1)))
            (validation_boost r.evidence) in
        let family_mult = or_else (lookup (family_of r) family_multipliers) one_float in
        let regime_mult = or_else (lookup (regime_of r) regime_multipliers) one_float in
        let weighted =
          mul
            (mul (mul (mul (mul base family_mult) regime_mult) (freshness_multiplier r.updated_at))
              (execution_quality r))
            (clamp (to_float r.capital_multiplier one_float)) in
        round (div weighted (max (abs (to_float r.max_drawdown_pct zero_float)) one_float)) 6

  module _ ⦃t : TextOps⦄ where
    -- `if test: total += bonus`
    abbrev pub add_if : Bool → F → F → F
    add_if test bonus total = if test then add total bonus else total

    -- one round of the loop of `_pair_penalty`
    abbrev pub pair_with : BasketRow F → F → BasketRow F → F
    pair_with c penalty r =
        let same = add_if (str_eq (timeframe_of c) (timeframe_of r)) (decimal 8 2) (
          add_if (str_eq (regime_of c) (regime_of r)) (decimal 16 2) (
            add_if (str_eq (family_of c) (family_of r)) (decimal 32 2)
              (add_if (str_eq (symbol_of c) (symbol_of r)) (decimal 118 2) penalty))) in
        add same (
          add (mul (abs (to_float c.correlation_hint zero_float)) (decimal 14 2))
            (mul (abs (to_float r.correlation_hint zero_float)) (decimal 8 2)))

    abbrev pub pairs_from : BasketRow F → F → List (BasketRow F) → F
    pairs_from c penalty [] = penalty
    pairs_from c penalty (r ∷ rs) = pairs_from c (pair_with c penalty r) rs

    unfoldable pub pair_penalty_of : BasketRow F → List (BasketRow F) → F
    pair_penalty_of c selected = round (pairs_from c zero_float selected) 6

    unfoldable pub diversity_bonus_of : BasketRow F → List (BasketRow F) → F
    diversity_bonus_of c [] = decimal 15 2
    diversity_bonus_of c (r ∷ rs) =
        let selected = r ∷ rs in
        round
          (add_if (not (mem (timeframe_of c) (map timeframe_of selected))) (decimal 3 2) (
            add_if (not (mem (regime_of c) (map regime_of selected))) (decimal 6 2) (
              add_if (not (mem (family_of c) (map family_of selected))) (decimal 10 2) (
                add_if (not (mem (symbol_of c) (map symbol_of selected))) (decimal 18 2)
                  zero_float))))
          6
