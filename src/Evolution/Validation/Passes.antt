-- ===== src/Evolution/Validation/Passes.antt =====
-- That the validation of a candidate returns, and what its results say of each other.
use crypto_trader_ver_9_alph.Prelude.{
  ℕ, suc, ◌-◌, ◌≤◌, ◌<◌, ◌≡◌, refl, ap, ◌∙◌, Bool, true, false, not, ◌&&◌, ltb, Option, none, some,
  List, String, [], ◌∷◌, map, length, length-map, arith, if◌then◌else◌, range_from,
  length-range_from, get_elem?_below,
}
use crypto_trader_ver_9_alph.Prelude.Float.{FloatOps, TotalOrder, decimal, mul, lt, le, max}
use crypto_trader_ver_9_alph.Prelude.Text.{TextOps}
use crypto_trader_ver_9_alph.Lifecycle.{Candidate}
use crypto_trader_ver_9_alph.Lifecycle.Basket.{auto_promote}
use crypto_trader_ver_9_alph.Evolution as Evolution
use crypto_trader_ver_9_alph.Evolution.{ValidationReport, merge_validation}
use crypto_trader_ver_9_alph.Evolution.Validation.{
  seed_value, ValidationOps, ValidationBundle, MonteCarloResult, at_least, failing, numbers_of,
  name_of, default_validation_symbols, run_walk_forward,
}
use crypto_trader_ver_9_alph.Evolution.Validation.Samples.{
  insert_ascending, ascending, at_share, outcome_at, drawdown_at, run_monte_carlo,
}
use crypto_trader_ver_9_alph.Evolution.Validation.Bundle.{
  peer_score, tested_symbols, cross_symbol_of, run_cross_symbol, validate_candidate,
}

abbrev pub is_empty : {A : Type 0} → List A → Bool
is_empty [] = true
is_empty (x ∷ xs) = false

module _ {F : Type 0} ⦃o : FloatOps F⦄ where
  length-insert_ascending : (x : F) (ys : List F) → length (insert_ascending x ys) ≡ suc (length ys)
  unfolding insert_ascending
  length-insert_ascending x [] = refl
  length-insert_ascending x (y ∷ ys) = ground (arith, length-insert_ascending x ys)

  length-ascending : (xs : List F) → length (ascending xs) ≡ length xs
  unfolding ascending
  length-ascending [] = refl
  length-ascending (x ∷ xs) =
      length-insert_ascending x (ascending xs) ∙ ap suc (length-ascending xs)

  lt-max_left : TotalOrder F → (a b : F) → lt (max a b) a ≡ false
  lt-max_left order a b = ground (arith, order.lt_asymm a b, order.lt_irrefl a)

  lt-max_right : TotalOrder F → (a b : F) → lt (max a b) b ≡ false
  lt-max_right order a b = ground (arith, order.lt_irrefl b)

  module _ ⦃t : TextOps⦄ where
    auto_promote-robustness :
        (r : Candidate F) → (auto_promote r none).robustness_score ≡ r.robustness_score
    unfolding auto_promote
    auto_promote-robustness r = ground arith

    -- Where the order of the numbers is total, a validated candidate has at least the robustness
    -- score that it had, and at least the Monte Carlo score, which is on another scale.
    merge_validation-robustness :
        TotalOrder F
        → (c : Candidate F) (v : ValidationReport F)
        → let x = Evolution.number (merge_validation c v).candidate.robustness_score in
          (lt x (Evolution.number c.robustness_score) ≡ false)
          × (lt x (Evolution.number v.monte_carlo_score) ≡ false)
    unfolding merge_validation
    merge_validation-robustness order c v =
        let first = Evolution.number c.robustness_score in
        let m1 = max first (Evolution.number v.evidence_robustness) in
        let m2 = max m1 (Evolution.number v.cross_symbol_mean) in
        let monte_carlo = Evolution.number v.monte_carlo_score in
        let m3 = max m2 monte_carlo in
        let m4 = max m3 (Evolution.number v.stability_score) in
        let above =
          λ (a b d : F) (p : lt a b ≡ false) (q : lt b d ≡ false). order.not_lt_trans a b d p q in
        let below = λ (a b : F). lt-max_left order a b in
        rw (auto_promote-robustness) (
          above m4 m3 first (below m3 _) (
              above m3 m2 first (below m2 monte_carlo)
                (above m2 m1 first (below m1 _) (below first _))),
          above m4 m3 monte_carlo (below m3 _) (lt-max_right order m2 monte_carlo),
        )

module _ {F : Type 0} ⦃o : FloatOps F⦄ (ops : ValidationOps F) where
  -- `int(share * (n - 1))` is an index of a list of `n` elements.
  abbrev pub IsIndex : F → Type 0
  IsIndex share = (n : ℕ) → 1 ≤ n → ops.truncate (mul share (decimal (n - 1) 0)) < n

  at_share_total :
      (share : F) (f : ℕ → F) (n : ℕ)
      → IsIndex share
      → 1 ≤ n
      → (x : F) × (at_share ops share n (ascending (map f (range_from 0 n))) ≡ some x)
  at_share_total share f n h k = get_elem?_below (ascending (map f (range_from 0 n))) _ (
      omega (
        arith,
        h n k,
        length-ascending (map f (range_from 0 n)),
        length-map f (range_from 0 n),
        length-range_from 0 n,
      ))

  module _ (low : IsIndex (decimal 5 2)) (middle : IsIndex (decimal 50 2))
      (high : IsIndex (decimal 95 2)) where
    run_monte_carlo_total :
        (iterations : ℕ) (return_pct : Option F) (c : Candidate F)
        → (m : MonteCarloResult F) × (run_monte_carlo ops iterations return_pct c ≡ some m)
    unfolding run_monte_carlo
    run_monte_carlo_total iterations return_pct c =
        let n = at_least 100 iterations in
        let k : 1 ≤ n = ground arith in
        let numbers = numbers_of return_pct c in
        let seed = seed_value ops (name_of c) "mc" in
        let (p05, e) = at_share_total (decimal 5 2) (outcome_at ops numbers seed) n low k in
        let (p50, g) = at_share_total (decimal 50 2) (outcome_at ops numbers seed) n middle k in
        let (p95, h) = at_share_total (decimal 95 2) (drawdown_at ops numbers seed) n high k in
        rw (e, g, h) (_, refl)

    run_walk_forward-passed :
        (folds : ℕ) (return_pct : Option F) (c : Candidate F)
        → (run_walk_forward ops folds return_pct c).passed
          ≡ is_empty (run_walk_forward ops folds return_pct c).reasons
    unfolding run_walk_forward
    run_walk_forward-passed folds return_pct c = ground arith

    both_or_reason :
        (mean spread : F)
        → le (decimal 48 2) mean ≡ not (lt mean (decimal 48 2))
        → le spread (decimal 20 2) ≡ not (lt (decimal 20 2) spread)
        → (le (decimal 48 2) mean && le spread (decimal 20 2))
          ≡ is_empty (
              failing (
                (lt mean (decimal 48 2), "cross_symbol_weak")
                ∷ (lt (decimal 20 2) spread, "cross_symbol_spread_high")
                ∷ []))
    both_or_reason mean spread p q = ground (arith, p, q)

    run_cross_symbol-passed :
        ((a b : F) → le a b ≡ not (lt b a))
        → (symbols : List String) (c : Candidate F)
        → (run_cross_symbol ops symbols c).passed
          ≡ is_empty (run_cross_symbol ops symbols c).reasons
    unfolding run_cross_symbol cross_symbol_of
    run_cross_symbol-passed total symbols c =
        let tested = tested_symbols ops symbols c in
        let scores = map (peer_score ops c) tested in
        let mean = if ltb 0 (length scores) then ops.mean scores else decimal 0 1 in
        let spread = if ltb 1 (length scores) then ops.pstdev scores else decimal 0 1 in
        both_or_reason mean spread (total (decimal 48 2) mean) (total spread (decimal 20 2))

    -- Where no number is NaN and the shares of a number of rounds are below it, the validation of a
    -- candidate returns, whatever the numbers of folds, rounds and trials; and its walk-forward and
    -- its cross-symbol validation have passed exactly where they give no reason.
    pub validate_candidate_lem :
        ((a b : F) → le a b ≡ not (lt b a))
        → (folds iterations trials : ℕ) (return_pct : Option F) (c : Candidate F)
        → (b : ValidationBundle F) × (validate_candidate ops folds iterations trials return_pct c
            ≡ some b)
          × (b.walk_forward.passed ≡ is_empty b.walk_forward.reasons)
          × (b.cross_symbol.passed ≡ is_empty b.cross_symbol.reasons)
    unfolding validate_candidate
    validate_candidate_lem total folds iterations trials return_pct c =
        let (m, e) = run_monte_carlo_total iterations return_pct c in
        rw e (
          _,
          refl,
          run_walk_forward-passed folds return_pct c,
          run_cross_symbol-passed total default_validation_symbols c,
        )
