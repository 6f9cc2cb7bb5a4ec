-- ===== src/Basket/Samples.antt =====
-- Test data: rows, numbers and text methods at which the baskets and the cycles are run.
use crypto_trader_ver_9_alph.Prelude.{
  ℕ, ◌*◌, true, none, some, List, [], ◌∷◌, String, Option, length,
}
use crypto_trader_ver_9_alph.Prelude.Int.{ℤ, pos}
use crypto_trader_ver_9_alph.Prelude.Float.{add, div, decimal}
use crypto_trader_ver_9_alph.Prelude.Fixed.{fixed}
use crypto_trader_ver_9_alph.Prelude.Text.{TextOps}
use crypto_trader_ver_9_alph.Execution.Simulator.{Statistics}
use crypto_trader_ver_9_alph.Basket.{BasketRow}

instance abbrev pub plain_text : TextOps
plain_text = record {
  normalize_op = λ s. s;
  upper_op = λ s. s;
  lower_op = λ s. s;
  root_op = λ s. s;
}

abbrev pub sum : List ℤ → ℤ
sum [] = pos 0
sum (x ∷ xs) = add x (sum xs)

abbrev pub statistics : Statistics ℤ
statistics = record {
  mean = λ xs. div (sum xs) (decimal (length xs) 0);
  mean_int = λ xs. pos 0;
  total = sum;
}

abbrev pub age_days : Option String → ℤ
age_days updated_at = pos 0

abbrev pub row : String → String → ℕ → BasketRow ℤ
row id symbol profit = record {
  strategy_id = some id;
  candidate_id = none;
  symbol = some symbol;
  family = some "trend";
  regime = some "trend";
  timeframe = some "1h";
  status = some "deployable";
  updated_at = none;
  profit_factor = some (pos (profit * 1000000));
  return_pct = some (pos 9000000);
  max_drawdown_pct = some (pos 2000000);
  robustness_score = some (pos 700000);
  validation_score = some (pos 700000);
  correlation_hint = none;
  execution_quality_score = none;
  capital_multiplier = none;
  trades = some 120;
  validation_passed = some true;
  evidence = record {
    walk_forward_passed = true;
    monte_carlo_passed = true;
    perturbation_passed = true;
    cross_symbol_passed = true;
    walk_forward_score = none;
    monte_carlo_score = none;
    perturbation_score = none;
    cross_symbol_score = none;
  };
  candidate_score = none;
  basket_score = none;
  diversity_bonus = none;
  pair_penalty = none;
}
