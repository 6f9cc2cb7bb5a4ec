-- ===== src/Research/Search.antt =====
-- ver9/research/optimization/search.py (the grid search), guardrails.py, and
-- ver9/research/experiments/ranking.py with the records of tracker.py. A parameter's value is of
-- any type; the strategy that a choice of values makes, or that making it raises, and the
-- identifier of an experiment are parameters. A tracker's store is the list of the records that it
-- saved; their files and time stamps are left out.
mod Sorting
pub mod Choices
pub mod Exhaustive
pub mod Ranking
pub mod Guardrails
mod Tests
use crypto_trader_ver_9_alph.Prelude.{
  ◌>>=◌, ℕ, suc, Bool, true, false, ◌&&◌, Option, none, some, List, [], ◌∷◌, ◌++◌, map, String,
  length, ltb, or_else, if◌then◌else◌,
}
use crypto_trader_ver_9_alph.Prelude.Dict.{Dict, keys, values}
use crypto_trader_ver_9_alph.Prelude.Float.{
  FloatOps, decimal, add, sub, mul, div, lt, round, abs, min,
}
use crypto_trader_ver_9_alph.Research.Portfolio.{
  Bar, Strategy, PortfolioBacktestEngine, PortfolioBacktestResult, EngineOps, run,
}

pub record Metrics (F : Type 0) : Type 0 where
  pub total_return_pct : Option F
  pub sharpe_ratio : Option F
  pub max_drawdown_pct : Option F
  pub trade_count : Option ℕ

pub record OptimizationCandidate (F V : Type 0) : Type 0 where
  pub parameters : Dict V
  pub metrics : Metrics F
  pub composite_score : F

pub record OptimizationResult (F V : Type 0) : Type 0 where
  pub strategy_id : String
  pub total_candidates : ℕ
  pub best_candidate : OptimizationCandidate F V
  pub ranked_candidates : List (OptimizationCandidate F V)

pub record ExperimentRecord (F V : Type 0) : Type 0 where
  pub experiment_id : String
  pub strategy_id : String
  pub strategy_family : String
  pub symbol : String
  pub timeframe : String
  pub dataset_rows : ℕ
  pub parameters : Dict V
  pub metrics : Metrics F
  pub tags : List String
  pub notes : String

pub record RankedExperiment (F : Type 0) : Type 0 where
  pub experiment_id : String
  pub strategy_id : String
  pub composite_score : F
  pub total_return_pct : F
  pub sharpe_ratio : F
  pub max_drawdown_pct : F
  pub trade_count : ℕ

pub record OptimizationGuardrails (F : Type 0) : Type 0 where
  pub min_trade_count : ℕ
  pub max_drawdown_pct : F
  pub min_sharpe_ratio : F
  pub max_return_to_drawdown_ratio : F

pub record GuardrailDecision : Type 0 where
  pub accepted : Bool
  pub reason : String

-- What the search calls: the strategy of a choice of parameters, where `none` is an exception of its
-- constructor, the family of that strategy, and the identifier of the record that is saved after
-- so many.
pub record SearchOps (F V : Type 0) : Type 0 where
  pub strategy_factory : Dict V → Option (Strategy F)
  pub family_of : Dict V → String
  pub experiment_id : ℕ → String

-- `itertools.product`
abbrev pub with_each : {V : Type 0} → List V → List (List V) → List (List V)
with_each [] rest = []
with_each (v ∷ vs) rest = map (λ xs. v ∷ xs) rest ++ with_each vs rest

unfoldable pub product : {V : Type 0} → List (List V) → List (List V)
product [] = [] ∷ []
product (vs ∷ vss) = with_each vs (product vss)

-- `zip`
abbrev pub zip : {V : Type 0} → List String → List V → Dict V
zip (k ∷ ks) (v ∷ vs) = (k, v) ∷ zip ks vs
zip _ _ = []

unfoldable pub parameter_combinations : {V : Type 0} → Dict (List V) → List (Dict V)
parameter_combinations space = map (zip (keys space)) (product (values space))

abbrev pub rejected : String → GuardrailDecision
rejected reason = record { accepted = false; reason = reason }

module _ {F : Type 0} ⦃o : FloatOps F⦄ where
  -- `sort(key=..., reverse=True)`, which is stable
  unfoldable pub insert_descending : {A : Type 0} → (A → F) → A → List A → List A
  insert_descending key x [] = x ∷ []
  insert_descending key x (y ∷ ys) =
      if lt (key x) (key y) then y ∷ insert_descending key x ys else x ∷ y ∷ ys

  unfoldable pub sort_descending : {A : Type 0} → (A → F) → List A → List A
  sort_descending key [] = []
  sort_descending key (x ∷ xs) = insert_descending key x (sort_descending key xs)

  abbrev pub number : Option F → F
  number v = or_else v (decimal 0 0)

  abbrev pub trade_quality : ℕ → F
  trade_quality n = min (decimal 10 1) (div (decimal n 0) (decimal 1000 1))

  unfoldable pub score : Metrics F → F
  score m =
      add
        (sub
          (add (mul (number m.total_return_pct) (decimal 35 2))
            (mul (number m.sharpe_ratio) (decimal 350 1)))
          (mul (abs (number m.max_drawdown_pct)) (decimal 45 2)))
        (mul (trade_quality (or_else m.trade_count 0)) (decimal 150 1))

  -- `PortfolioBacktestEngine(initial_capital=...)`
  abbrev pub engine_with : F → PortfolioBacktestEngine F
  engine_with capital = record {
    initial_capital = capital;
    max_positions = 5;
    max_symbol_exposure_pct = decimal 35 2;
    risk_per_trade_pct = decimal 2 2;
    fee_bps = decimal 100 1;
    slippage_bps = decimal 50 1;
    holding_period_bars = 4;
  }

  abbrev pub default_guardrails : OptimizationGuardrails F
  default_guardrails = record {
    min_trade_count = 30;
    max_drawdown_pct = decimal 350 1;
    min_sharpe_ratio = decimal 5 1;
    max_return_to_drawdown_ratio = decimal 80 1;
  }

  unfoldable pub evaluate :
      {V : Type 0} → OptimizationGuardrails F → OptimizationCandidate F V → GuardrailDecision
  evaluate guardrails candidate =
      let m = candidate.metrics in
      let drawdown = abs (number m.max_drawdown_pct) in
      if ltb (or_else m.trade_count 0) guardrails.min_trade_count
      then rejected "insufficient_trade_count"
      else if lt guardrails.max_drawdown_pct drawdown
      then rejected "excessive_drawdown"
      else if lt (number m.sharpe_ratio) guardrails.min_sharpe_ratio
      then rejected "weak_sharpe_ratio"
      else if lt (decimal 0 0) drawdown
          && lt guardrails.max_return_to_drawdown_ratio (div (number m.total_return_pct) drawdown)
      then rejected "suspicious_return_profile"
      else record { accepted = true; reason = "accepted" }

  unfoldable pub rank_record : {V : Type 0} → ExperimentRecord F V → RankedExperiment F
  rank_record r =
      let m = r.metrics in
      let drawdown = abs (number m.max_drawdown_pct) in
      let trades = or_else m.trade_count 0 in
      record {
        experiment_id = r.experiment_id;
        strategy_id = r.strategy_id;
        composite_score =
            round
              (add
                (sub
                  (add (mul (number m.total_return_pct) (decimal 35 2))
                    (mul (number m.sharpe_ratio) (decimal 350 1)))
                  (mul drawdown (decimal 45 2)))
                (mul (trade_quality trades) (decimal 150 1)))
              4;
        total_return_pct = round (number m.total_return_pct) 4;
        sharpe_ratio = round (number m.sharpe_ratio) 4;
        max_drawdown_pct = round drawdown 4;
        trade_count = trades;
      }

  unfoldable pub rank : {V : Type 0} → List (ExperimentRecord F V) → List (RankedExperiment F)
  rank records = sort_descending (λ r. r.composite_score) (map rank_record records)

  module _ {V : Type 0} (ops : EngineOps F) (search : SearchOps F V) (frame : List (Bar F))
      (symbol timeframe : String) (capital : F) where
    -- the backtest of the strategy of a choice of parameters, or that it raises
    abbrev pub backtest_of : Strategy F → Option (PortfolioBacktestResult F)
    backtest_of strategy = run ops (engine_with capital) (strategy ∷ []) frame symbol timeframe

    -- the candidate of a choice of parameters and its backtest
    unfoldable pub candidate_of : Dict V → PortfolioBacktestResult F → OptimizationCandidate F V
    candidate_of parameters result =
        let metrics : Metrics F = record {
          total_return_pct = some result.total_return_pct;
          sharpe_ratio = some result.sharpe_ratio;
          max_drawdown_pct = some result.max_drawdown_pct;
          trade_count = some result.total_trades;
        } in
        record {
          parameters = parameters;
          metrics = metrics;
          composite_score = round (score metrics) 4;
        }

    -- the record that the tracker saves
    unfoldable pub record_of :
        String → Strategy F → OptimizationCandidate F V → ExperimentRecord F V
    record_of id strategy candidate = record {
      experiment_id = id;
      strategy_id = strategy.strategy_id;
      strategy_family = search.family_of candidate.parameters;
      symbol = symbol;
      timeframe = timeframe;
      dataset_rows = length frame;
      parameters = candidate.parameters;
      metrics = candidate.metrics;
      tags = "optimization" ∷ "grid_search" ∷ [];
      notes = "parameter optimization run";
    }

    -- the loop over the combinations: its candidates, or `none` if it raises, and the records that
    -- a tracker has saved by its end
    unfoldable pub search_from :
        ℕ → List (Dict V) → Option (List (OptimizationCandidate F V)) × List (ExperimentRecord F V)
    search_from n [] = (some [], [])
    search_from n (p ∷ ps) = elim (search.strategy_factory p) [
      | none ↦ (none, [])
      | some strategy ↦ elim (backtest_of strategy) [
        | none ↦ (none, [])
        | some result ↦
            let candidate = candidate_of p result in
            let (rest, records) = search_from (suc n) ps in
            (
              elim rest [ none ↦ none | some candidates ↦ some (candidate ∷ candidates) ],
              record_of (search.experiment_id n) strategy candidate ∷ records,
            )
      ]
    ]

    -- `ranked[0]` raises on the empty list: `none`
    abbrev pub result_of : List (OptimizationCandidate F V) → Option (OptimizationResult F V)
    result_of [] = none
    result_of (best ∷ ranked) = some (record {
      strategy_id = "dict";
      total_candidates = length (best ∷ ranked);
      best_candidate = best;
      ranked_candidates = best ∷ ranked;
    })

    -- the result, or that the call raises, with what a tracker has saved by then
    unfoldable pub optimize :
        Bool → Dict (List V) → Option (OptimizationResult F V) × List (ExperimentRecord F V)
    optimize tracks space =
        let (found, records) = search_from 0 (parameter_combinations space) in
        (
          (do candidates ← found; result_of (sort_descending (λ c. c.composite_score) candidates)),
          if tracks then records else [],
        )
