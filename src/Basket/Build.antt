-- ===== src/Basket/Build.antt =====
-- ver9/basket_optimizer.py: `build` whole, `as_allocations` and `allocate`; ver9/portfolio.py:
-- `allocate` and its relatives. The sum and the mean of numbers are parameters. A weight that is 0
-- and one that is missing are the same.
use crypto_trader_ver_9_alph.Prelude.{
  ℕ, suc, ◌+◌, Bool, true, false, Option, List, [], ◌∷◌, map, String, length, ltb, or_else,
  if◌then◌else◌,
}
use crypto_trader_ver_9_alph.Prelude.Dict.{Dict, lookup, mem}
use crypto_trader_ver_9_alph.Prelude.Float.{FloatOps, decimal, div, round, max}
use crypto_trader_ver_9_alph.Prelude.Text.{TextOps}
use crypto_trader_ver_9_alph.Execution.Simulator.{Statistics}
use crypto_trader_ver_9_alph.Basket.{
  BasketRow, BasketOptimizer, id_of, symbol_of, family_of, regime_of, to_float, zero_float,
  one_float, new_optimizer,
}
use crypto_trader_ver_9_alph.Basket.Selection.{Rejection, Picks, rows_of, select_rows}
use crypto_trader_ver_9_alph.Basket.Weights.{Telemetry, build_weights}

pub record BasketSelection (F : Type 0) : Type 0 where
  pub selected : List (BasketRow F)
  pub rejected : List Rejection
  pub weights : Dict F
  pub basket_score : F
  pub diversity_score : F
  pub correlation_penalty : F
  pub basket_size : ℕ
  pub probationary : Bool
  pub max_positions : ℕ
  pub min_positions : ℕ
  pub allocation_telemetry : Telemetry F

-- A dictionary of `as_allocations`.
pub record AllocationRow (F : Type 0) : Type 0 where
  pub strategy_id : String
  pub symbol : Option String
  pub family : Option String
  pub regime : Option String
  pub status : Option String
  pub allocation_pct : F
  pub allocation_weight : F
  pub basket_score : F
  pub candidate_score : F
  pub probationary : Bool

pub record AllocationDecision (F : Type 0) : Type 0 where
  pub strategy_id : String
  pub symbol : String
  pub weight : F
  pub capital_allocated : F
  pub expected_risk : F
  pub covariance_penalty : F
  pub selection_reason : String
  pub metadata : AllocationRow F

-- The number of different texts of a list (`len` of a set).
abbrev pub distinct_count : List String → ℕ
distinct_count [] = 0
distinct_count (x ∷ xs) = if mem x xs then distinct_count xs else suc (distinct_count xs)

module _ {F : Type 0} ⦃o : FloatOps F⦄ where
  -- the result of `build` where too few rows are selected
  abbrev pub empty_basket : BasketOptimizer F → List Rejection → BasketSelection F
  empty_basket optimizer rejected = record {
    selected = [];
    rejected = rejected;
    weights = [];
    basket_score = zero_float;
    diversity_score = zero_float;
    correlation_penalty = zero_float;
    basket_size = 0;
    probationary = true;
    max_positions = optimizer.max_positions;
    min_positions = optimizer.min_positions;
    allocation_telemetry = record {
      allocation_caps = [];
      cash_weight = one_float;
      raw_weight_sum = zero_float;
      used_weight_sum = zero_float;
      covariance_penalty = zero_float;
    };
  }

  unfoldable pub as_allocations : BasketSelection F → List (AllocationRow F)
  as_allocations b =
      map
        (λ r. record {
          strategy_id = id_of r;
          symbol = r.symbol;
          family = r.family;
          regime = r.regime;
          status = r.status;
          allocation_pct = round (or_else (lookup (id_of r) b.weights) zero_float) 6;
          allocation_weight = round (or_else (lookup (id_of r) b.weights) zero_float) 6;
          basket_score = round (to_float r.basket_score zero_float) 4;
          candidate_score = round (to_float r.candidate_score zero_float) 4;
          probationary = b.probationary;
        })
        b.selected

  unfoldable pub allocation_from_dict : AllocationRow F → AllocationDecision F
  allocation_from_dict a = record {
    strategy_id = a.strategy_id;
    symbol = or_else a.symbol "";
    weight = a.allocation_pct;
    capital_allocated = zero_float;
    expected_risk = zero_float;
    covariance_penalty = zero_float;
    selection_reason = "optimizer_selected";
    metadata = a;
  }

  -- the settings of `BasketOptimizer()`
  abbrev pub default_optimizer : ℕ → ℕ → Bool → BasketOptimizer F
  default_optimizer max_positions min_positions soft_fill = new_optimizer (record {
    max_positions = max_positions;
    min_positions = min_positions;
    soft_fill = soft_fill;
    enforce_unique_symbols = true;
    enforce_unique_families = false;
    min_candidate_score = decimal 2 1;
    max_strategy_weight = decimal 40 2;
    max_symbol_weight = decimal 70 2;
    max_family_weight = decimal 65 2;
    correlation_penalty_scale = decimal 14 2;
    min_cap_floor = decimal 18 2;
  })

module _ {F : Type 0} ⦃o : FloatOps F⦄ ⦃t : TextOps⦄ (age_days : Option String → F)
    (statistics : Statistics F) where
  module _ (optimizer : BasketOptimizer F) where
    -- `build` from the end of the selection
    unfoldable pub basket_of : Picks F → BasketSelection F
    basket_of p =
        let selected = rows_of p.selected in
        let built = build_weights optimizer age_days statistics selected in
        let kinds =
          distinct_count (map symbol_of selected)
          + distinct_count (map family_of selected)
          + distinct_count (map regime_of selected) in
        if ltb (length selected) optimizer.min_positions
        then empty_basket optimizer p.rejected
        else record {
          selected = selected;
          rejected = p.rejected;
          weights = built.0;
          basket_score =
              round
                (statistics.mean
                  (map (λ r. max (to_float r.basket_score zero_float) zero_float) selected))
                6;
          diversity_score = round (div (decimal kinds 0) (decimal 30 1)) 6;
          correlation_penalty =
              round (statistics.total (map (λ r. to_float r.pair_penalty zero_float) selected)) 6;
          basket_size = length selected;
          probationary = ltb (length selected) optimizer.min_positions;
          max_positions = optimizer.max_positions;
          min_positions = optimizer.min_positions;
          allocation_telemetry = built.1;
        }

    unfoldable pub build : List (BasketRow F) → BasketSelection F
    build candidates = basket_of (select_rows age_days optimizer candidates)

    unfoldable pub allocations_of : List (BasketRow F) → List (AllocationRow F)
    allocations_of candidates = as_allocations (build candidates)

  -- `allocate` of the portfolio module
  unfoldable pub allocate : List (BasketRow F) → ℕ → ℕ → Bool → List (AllocationDecision F)
  allocate candidates max_positions min_positions soft_fill =
      map allocation_from_dict
        (allocations_of (default_optimizer max_positions min_positions soft_fill) candidates)

  unfoldable pub strict_portfolio : List (BasketRow F) → ℕ → List (AllocationDecision F)
  strict_portfolio candidates max_positions =
      map allocation_from_dict
        (allocations_of (default_optimizer max_positions max_positions false) candidates)

  unfoldable pub probationary_portfolio : List (BasketRow F) → ℕ → ℕ → List (AllocationDecision F)
  probationary_portfolio candidates max_positions min_positions =
      map allocation_from_dict
        (allocations_of (default_optimizer max_positions min_positions true) candidates)
