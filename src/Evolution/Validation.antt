-- ===== src/Evolution/Validation.antt =====
-- ver9/validation.py: the results of the four validations of a candidate, and the walk-forward
-- one. Samples has the Monte Carlo and the perturbation validation, Bundle the one over other
-- symbols and all four. The digest of a seed, sine and cosine, the mean and the deviation, the cut
-- of a float to an integer and the test for a prefix are parameters. The records of the other
-- parts leave out `return_pct`, so it is an argument here. `none` stands for the exception of an
-- index out of range.
pub mod Samples
pub mod Bundle
pub mod Passes
mod Tests
use crypto_trader_ver_9_alph.Prelude.{
  ℕ, ◌+◌, Bool, false, not, Option, some, List, [], ◌∷◌, map, String, ltb, or_else, str_append,
  if◌then◌else◌, range_from,
}
use crypto_trader_ver_9_alph.Prelude.Float.{
  FloatOps, decimal, add, sub, mul, div, lt, round, abs, max, min,
}
use crypto_trader_ver_9_alph.Lifecycle.{Candidate, text_or}

-- The first ten hexadecimal digits of the digest of a text as a number, and the other calls.
pub record ValidationOps (F : Type 0) : Type 0 where
  pub digest : String → ℕ
  pub sin : F → F
  pub cos : F → F
  pub tau : F
  pub mean : List F → F
  pub pstdev : List F → F
  pub truncate : F → ℕ
  pub starts_with : String → String → Bool

pub record WalkForwardResult (F : Type 0) : Type 0 where
  pub fold_count : ℕ
  pub train_mean : F
  pub val_mean : F
  pub test_mean : F
  pub score_spread : F
  pub passed : Bool
  pub reasons : List String

pub record MonteCarloResult (F : Type 0) : Type 0 where
  pub iterations : ℕ
  pub p05_return_pct : F
  pub p50_return_pct : F
  pub p95_drawdown_pct : F
  pub failure_rate : F
  pub score : F
  pub passed : Bool

pub record PerturbationResult (F : Type 0) : Type 0 where
  pub trials : ℕ
  pub mean_return_pct : F
  pub mean_drawdown_pct : F
  pub stability_score : F
  pub passed : Bool

pub record CrossSymbolResult (F : Type 0) : Type 0 where
  pub symbols_tested : List String
  pub mean_score : F
  pub score_spread : F
  pub passed : Bool
  pub reasons : List String

pub record StrategyEvidence (F : Type 0) : Type 0 where
  pub monte_carlo_score : F
  pub perturbation_score : F
  pub walk_forward_score : F
  pub cross_symbol_score : F
  pub robustness_score : F

pub record ValidationBundle (F : Type 0) : Type 0 where
  pub walk_forward : WalkForwardResult F
  pub monte_carlo : MonteCarloResult F
  pub perturbation : PerturbationResult F
  pub cross_symbol : CrossSymbolResult F
  pub evidence : StrategyEvidence F

abbrev pub default_validation_symbols : List String
default_validation_symbols = "BTC/USDT" ∷ "ETH/USDT" ∷ "SOL/USDT" ∷ []

abbrev pub at_least : ℕ → ℕ → ℕ
at_least low n = if ltb low n then n else low

-- the texts of the tests that fail
abbrev pub failing : List (Bool × String) → List String
failing [] = []
failing ((b, reason) ∷ tests) = if b then reason ∷ failing tests else failing tests

-- The numbers that every validation reads of a candidate, `dd` without its sign.
pub record Numbers (F : Type 0) : Type 0 where
  pub pf : F
  pub ret : F
  pub dd : F
  pub rob : F

module _ {F : Type 0} ⦃o : FloatOps F⦄ where
  abbrev pub clamp : F → F → F → F
  clamp value minimum maximum = max minimum (min maximum value)

  abbrev pub number : Option F → F
  number v = or_else v (decimal 0 1)

  abbrev pub numbers_of : Option F → Candidate F → Numbers F
  numbers_of return_pct c = record {
    pf = number c.profit_factor;
    ret = number return_pct;
    dd = abs (number c.max_drawdown_pct);
    rob = number c.robustness_score;
  }

  abbrev pub name_of : Candidate F → String
  name_of c = text_or "unknown" (some c.strategy_id)

  module _ (ops : ValidationOps F) where
    unfoldable pub seed_value : String → String → F
    seed_value strategy_id salt =
        div (decimal (ops.digest (str_append strategy_id (str_append ":" salt))) 0)
          (decimal 1099511627775 0)

    -- the score of a fold, from the phase and what is added to it
    unfoldable pub fold_score : F → F → ℕ → (F → F) → (F → F) → ℕ → F
    fold_score base seed fold_count shift_phase shift_score idx =
        let phase =
          add (decimal 10 1)
            (mul (sub (decimal idx 0) (div (decimal fold_count 0) (decimal 20 1))) (decimal 4 2)) in
        let noise = mul (mul (sub seed (decimal 5 1)) (decimal 12 2)) (decimal (idx + 1) 0) in
        clamp (shift_score (add (mul base (shift_phase phase)) noise)) (decimal 0 1) (decimal 50 1)

    unfoldable pub run_walk_forward : ℕ → Option F → Candidate F → WalkForwardResult F
    run_walk_forward folds return_pct c =
        let n = numbers_of return_pct c in
        let seed = seed_value (name_of c) "wf" in
        let fold_count = at_least 2 folds in
        let base =
          div
            (add (add (mul n.pf (decimal 55 2)) (div n.ret (decimal 180 1)))
              (mul n.rob (decimal 25 1)))
            (max (div n.dd (decimal 100 1)) (decimal 8 1)) in
        let scores = λ (phase : F → F) (score : F → F).
          map (fold_score base seed fold_count phase score) (range_from 0 fold_count) in
        let train = ops.mean (scores (λ x. x) (λ x. add x (decimal 10 2))) in
        let val = ops.mean (scores (λ x. sub x (decimal 5 2)) (λ x. sub x (decimal 5 2))) in
        let test = ops.mean (scores (λ x. sub x (decimal 8 2)) (λ x. sub x (decimal 8 2))) in
        let spread = ops.pstdev (train ∷ val ∷ test ∷ []) in
        let val_weak = lt val (decimal 55 2) in
        let test_weak = lt test (decimal 55 2) in
        let spread_high = lt (decimal 65 2) spread in
        record {
          fold_count = fold_count;
          train_mean = round train 4;
          val_mean = round val 4;
          test_mean = round test 4;
          score_spread = round spread 4;
          passed = if spread_high then false else if test_weak then false else not val_weak;
          reasons = failing (
              (val_weak, "val_weak")
              ∷ (test_weak, "test_weak")
              ∷ (spread_high, "wf_spread_high")
              ∷ []);
        }
