-- ===== src/Evolution/Validation/Bundle.antt =====
-- ver9/validation.py: the validation over other symbols, and all four validations of a candidate.
use crypto_trader_ver_9_alph.Prelude.{
  ◌>>=◌, ℕ, ◌&&◌, ◌||◌, not, Option, some, List, [], ◌∷◌, map, String, length, ltb, select, str_eq,
  str_append, if◌then◌else◌,
}
use crypto_trader_ver_9_alph.Prelude.Float.{
  FloatOps, decimal, add, sub, mul, div, neg, lt, le, round,
}
use crypto_trader_ver_9_alph.Lifecycle.{Candidate, text_or}
use crypto_trader_ver_9_alph.Evolution.{ValidationReport}
use crypto_trader_ver_9_alph.Evolution.Validation.{
  seed_value, ValidationOps, CrossSymbolResult, ValidationBundle, default_validation_symbols,
  failing, clamp, number, name_of, run_walk_forward,
}
use crypto_trader_ver_9_alph.Evolution.Validation.Samples.{run_monte_carlo, run_perturbation}

module _ {F : Type 0} ⦃o : FloatOps F⦄ where
  module _ (ops : ValidationOps F) where
    unfoldable pub peer_score : Candidate F → String → F
    peer_score c peer =
        let family = text_or "unknown" c.family in
        let seed = seed_value ops (str_append (name_of c) (str_append ":" peer)) "xs" in
        let bonus =
          if str_eq family "mean_reversion" || str_eq family "volatility_compression"
          then decimal 5 2
          else neg (decimal 3 2) in
        let fit =
          if ops.starts_with "BTC" (text_or "" c.symbol) || ops.starts_with "BTC" peer
          then decimal 8 2
          else decimal 3 2 in
        clamp
          (add (add (add (number c.robustness_score) bonus) fit)
            (mul (sub seed (decimal 5 1)) (decimal 2 1)))
          (decimal 0 1) (decimal 10 1)

    -- `[...] or list(symbols)`
    abbrev pub peers_or : List String → List String → List String
    peers_or symbols [] = symbols
    peers_or symbols (x ∷ xs) = x ∷ xs

    unfoldable pub tested_symbols : List String → Candidate F → List String
    tested_symbols symbols c =
        peers_or symbols (select (λ s. not (str_eq s (text_or "" c.symbol))) symbols)

    unfoldable pub cross_symbol_of : List String → List F → CrossSymbolResult F
    cross_symbol_of tested scores =
        let mean = if ltb 0 (length scores) then ops.mean scores else decimal 0 1 in
        let spread = if ltb 1 (length scores) then ops.pstdev scores else decimal 0 1 in
        record {
          symbols_tested = tested;
          mean_score = round mean 4;
          score_spread = round spread 4;
          passed = le (decimal 48 2) mean && le spread (decimal 20 2);
          reasons = failing (
              (lt mean (decimal 48 2), "cross_symbol_weak")
              ∷ (lt (decimal 20 2) spread, "cross_symbol_spread_high")
              ∷ []);
        }

    unfoldable pub run_cross_symbol : List String → Candidate F → CrossSymbolResult F
    run_cross_symbol symbols c =
        let tested = tested_symbols symbols c in cross_symbol_of tested (map (peer_score c) tested)

    unfoldable pub validate_candidate :
        ℕ → ℕ → ℕ → Option F → Candidate F → Option (ValidationBundle F)
    validate_candidate folds iterations trials return_pct c = do
      let w = run_walk_forward ops folds return_pct c
      m ← run_monte_carlo ops iterations return_pct c
      let p = run_perturbation ops trials return_pct c
      let x = run_cross_symbol default_validation_symbols c
      some (record {
        walk_forward = w;
        monte_carlo = m;
        perturbation = p;
        cross_symbol = x;
        evidence = record {
          monte_carlo_score = m.score;
          perturbation_score = p.stability_score;
          walk_forward_score = div (add (add w.train_mean w.val_mean) w.test_mean) (decimal 30 1);
          cross_symbol_score = x.mean_score;
          robustness_score = number c.robustness_score;
        };
      })

  -- what a worker reads of a bundle
  abbrev pub report_of : ValidationBundle F → ValidationReport F
  report_of b = record {
    walk_forward_passed = b.walk_forward.passed;
    monte_carlo_passed = b.monte_carlo.passed;
    perturbation_passed = b.perturbation.passed;
    cross_symbol_passed = b.cross_symbol.passed;
    evidence_robustness = some b.evidence.robustness_score;
    cross_symbol_mean = some b.cross_symbol.mean_score;
    monte_carlo_score = some b.monte_carlo.score;
    stability_score = some b.perturbation.stability_score;
  }
