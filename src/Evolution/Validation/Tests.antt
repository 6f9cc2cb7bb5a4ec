-- ===== src/Evolution/Validation/Tests.antt =====
-- The validation of a candidate with constant samples, and the theorem at it.
use crypto_trader_ver_9_alph.Prelude.{◌/◌, ◌≡◌, refl, true, false, not, some, none, [], ◌∷◌, arith}
use crypto_trader_ver_9_alph.Prelude.Int.{ℤ, pos, negsuc, pos_part}
use crypto_trader_ver_9_alph.Prelude.Float.{lt, le, decimal}
use crypto_trader_ver_9_alph.Prelude.Fixed.{fixed}
use crypto_trader_ver_9_alph.Basket.Samples.{plain_text, statistics}
use crypto_trader_ver_9_alph.Lifecycle.{Candidate}
use crypto_trader_ver_9_alph.Lifecycle.Basket.{
  auto_promote, can_enter_probationary_basket, can_enter_deployable_basket, basket_context,
  basket_novelty_score,
}
use crypto_trader_ver_9_alph.Evolution as Evolution
use crypto_trader_ver_9_alph.Evolution.{merge_validation}
use crypto_trader_ver_9_alph.Evolution.Validation.{ValidationOps, ValidationBundle}
use crypto_trader_ver_9_alph.Evolution.Validation.Bundle.{tested_symbols, validate_candidate}
use crypto_trader_ver_9_alph.Evolution.Validation.Passes.{IsIndex, is_empty, validate_candidate_lem}

abbrev ops : ValidationOps ℤ
ops = record {
  digest = λ text. 549755813888;
  sin = λ x. pos 0;
  cos = λ x. pos 1000000;
  tau = pos 6283185;
  mean = statistics.mean;
  pstdev = λ xs. pos 0;
  truncate = λ x. pos_part x / 1000000;
  starts_with = λ p s. false;
}

abbrev candidate : Candidate ℤ
candidate = record {
  strategy_id = "s1";
  status = some "candidate";
  symbol = some "BTC/USDT";
  family = some "trend";
  regime = some "trend";
  robustness_score = some (pos 450000);
  profit_factor = some (pos 2000000);
  max_drawdown_pct = some (negsuc 4999999);
  validation_score = none;
  validation_passed = false;
  transition_history = [];
}

two_peers : tested_symbols ops ("BTC/USDT" ∷ "ETH/USDT" ∷ []) candidate ≡ "ETH/USDT" ∷ []
unfolding tested_symbols
two_peers = refl

total : (a b : ℤ) → le a b ≡ not (lt b a)
total a b = ground arith

low : IsIndex ops (decimal 5 2)
low n h = ground arith

middle : IsIndex ops (decimal 50 2)
middle n h = ground arith

high : IsIndex ops (decimal 95 2)
high n h = ground arith

validate_candidate_lem_example :
    (b : ValidationBundle ℤ) × (validate_candidate ops 4 500 100 (some (pos 9000000)) candidate
      ≡ some b)
    × (b.walk_forward.passed ≡ is_empty b.walk_forward.reasons)
    × (b.cross_symbol.passed ≡ is_empty b.cross_symbol.reasons)
validate_candidate_lem_example =
    validate_candidate_lem ops low middle high total 4 500 100 (some (pos 9000000)) candidate

-- A robustness score of 0.45 becomes the Monte Carlo score, 3.2.
abbrev report : Evolution.ValidationReport ℤ
report = record {
  walk_forward_passed = true;
  monte_carlo_passed = true;
  perturbation_passed = true;
  cross_symbol_passed = true;
  evidence_robustness = some (pos 450000);
  cross_symbol_mean = some (pos 500000);
  monte_carlo_score = some (pos 3200000);
  stability_score = some (pos 1000000);
}

score_replaced : (merge_validation candidate report).candidate.robustness_score ≡ some (pos 3200000)
unfolding merge_validation auto_promote can_enter_probationary_basket can_enter_deployable_basket
    basket_context basket_novelty_score
score_replaced = refl
