-- ===== src/Research/Robustness.antt =====
-- ver9/research/validation/robustness: monte_carlo.py, stability.py and coordinator.py. The
-- shuffle of the random generator, which is called once for each path, and numpy's median, mean
-- and standard deviation are parameters. `none` stands for an exception: that of `min`
-- on an empty list, or a ZeroDivisionError.
pub mod Paths
pub mod Windows
mod Tests
use crypto_trader_ver_9_alph.Prelude.{
  ◌>>=◌, ℕ, ◌+◌, ◌/◌, Bool, false, ◌&&◌, Option, none, some, List, [], ◌∷◌, map, length, take, drop,
  select, if◌then◌else◌, range_from,
}
use crypto_trader_ver_9_alph.Prelude.Float.{
  FloatOps, decimal, add, sub, mul, div, lt, le, round, abs, max, min, least_of, largest_of,
  is_zero, unless_zero,
}
use crypto_trader_ver_9_alph.Evolution.{range_on, at_least_one}
use crypto_trader_ver_9_alph.Research.Search.{OptimizationCandidate}

pub record MonteCarloPath (F : Type 0) : Type 0 where
  pub path_id : ℕ
  pub ending_equity : F
  pub max_drawdown_pct : F
  pub return_pct : F

pub record MonteCarloResult (F : Type 0) : Type 0 where
  pub simulations : ℕ
  pub median_return_pct : F
  pub worst_return_pct : F
  pub best_return_pct : F
  pub median_drawdown_pct : F
  pub ruin_probability : F
  pub paths : List (MonteCarloPath F)

pub record MonteCarloValidator (F : Type 0) : Type 0 where
  pub simulations : ℕ
  pub ruin_threshold_pct : F

pub record StabilityWindow (F : Type 0) : Type 0 where
  pub window_id : ℕ
  pub score_mean : F
  pub score_std : F
  pub variability_ratio : F

pub record StabilityResult (F : Type 0) : Type 0 where
  pub stable : Bool
  pub mean_score : F
  pub score_std : F
  pub variability_ratio : F
  pub windows : List (StabilityWindow F)

pub record ValidationSummary (F : Type 0) : Type 0 where
  pub monte_carlo : MonteCarloResult F
  pub parameter_stability : StabilityResult F
  pub overall_pass : Bool
  pub summary_score : F

-- `shuffle n` is the shuffle of path number `n`.
pub record SampleOps (F : Type 0) : Type 0 where
  pub shuffle : ℕ → List F → List F
  pub median : List F → F
  pub mean : List F → F
  pub std : List F → F

abbrev pub chunk_size : {A : Type 0} → List A → ℕ
chunk_size scores = at_least_one (length scores / 5)

module _ {F : Type 0} ⦃o : FloatOps F⦄ where
  abbrev pub default_validator : MonteCarloValidator F
  default_validator = record {
    simulations = 500;
    ruin_threshold_pct = sub (decimal 0 0) (decimal 500 1);
  }

  -- the loop of `_max_drawdown`: a peak of 0 raises
  unfoldable pub drawdown_from : F → F → List F → Option F
  drawdown_from peak worst [] = some worst
  drawdown_from peak worst (equity ∷ curve) =
      let top = max peak equity in
      let rest =
        drawdown_from top (min worst (mul (div (sub equity top) top) (decimal 1000 1))) curve in
      if is_zero top then none else rest

  -- of the curve from its first number on
  unfoldable pub max_drawdown : F → List F → Option F
  max_drawdown first curve = do
    worst ← drawdown_from first (decimal 0 1) (first ∷ curve)
    some (abs worst)

  -- the loop over the trades: the last equity, and the curve after the first
  unfoldable pub grow : F → List F → F
  grow equity [] = equity
  grow equity (r ∷ returns) = grow (mul equity (add (decimal 10 1) r)) returns

  unfoldable pub curve_of : F → List F → List F
  curve_of equity [] = []
  curve_of equity (r ∷ returns) =
      let next = mul equity (add (decimal 10 1) r) in next ∷ curve_of next returns

  unfoldable pub return_of : F → F → F
  return_of capital equity = mul (div (sub equity capital) capital) (decimal 1000 1)

  abbrev pub no_returns : MonteCarloResult F
  no_returns = record {
    simulations = 0;
    median_return_pct = decimal 0 1;
    worst_return_pct = decimal 0 1;
    best_return_pct = decimal 0 1;
    median_drawdown_pct = decimal 0 1;
    ruin_probability = decimal 10 1;
    paths = [];
  }

  module _ (ops : SampleOps F) where
    module _ (returns : List F) (capital : F) where
      -- one round of the loop over the paths
      unfoldable pub path : ℕ → Option (MonteCarloPath F)
      path id =
          let shuffled = ops.shuffle id returns in
          let equity = grow capital shuffled in
          do
            return_pct ← unless_zero capital (return_of capital equity)
            drawdown ← max_drawdown capital (curve_of capital shuffled)
            some (record {
              path_id = id;
              ending_equity = round equity 4;
              max_drawdown_pct = round drawdown 4;
              return_pct = round return_pct 4;
            })

      -- the loop: the paths of the numbers, or that one of them raises
      unfoldable pub paths_of : List ℕ → Option (List (MonteCarloPath F))
      paths_of [] = some []
      paths_of (id ∷ ids) = let rest = paths_of ids in do p ← path id; ps ← rest; some (p ∷ ps)

      -- `if return_pct <= self.ruin_threshold_pct`, on the number before it is rounded
      unfoldable pub is_ruined : F → ℕ → Bool
      is_ruined threshold id =
          le (return_of capital (grow capital (ops.shuffle id returns))) threshold

    abbrev pub ruined : MonteCarloValidator F → List F → F → ℕ
    ruined v returns capital =
        length
          (select (is_ruined returns capital v.ruin_threshold_pct) (range_from 0 v.simulations))

    abbrev pub result_of :
        MonteCarloValidator F → List F → F → List (MonteCarloPath F) → Option (MonteCarloResult F)
    result_of v returns capital [] = none
    result_of v returns capital (p ∷ ps) = some (record {
      simulations = v.simulations;
      median_return_pct = round (ops.median (map (λ x. x.return_pct) (p ∷ ps))) 4;
      worst_return_pct = round (least_of p.return_pct (map (λ x. x.return_pct) ps)) 4;
      best_return_pct = round (largest_of p.return_pct (map (λ x. x.return_pct) ps)) 4;
      median_drawdown_pct = round (ops.median (map (λ x. x.max_drawdown_pct) (p ∷ ps))) 4;
      ruin_probability =
          round (div (decimal (ruined v returns capital) 0) (decimal v.simulations 0)) 4;
      paths = p ∷ ps;
    })

    unfoldable pub validate : MonteCarloValidator F → List F → F → Option (MonteCarloResult F)
    validate v [] capital = some no_returns
    validate v (r ∷ returns) capital = do
      ps ← paths_of (r ∷ returns) capital (range_from 0 v.simulations)
      result_of v (r ∷ returns) capital ps

    abbrev pub variability : F → F → F
    variability mean std = div std (add (abs mean) (decimal 1 8))

    abbrev pub window_of : ℕ → List F → StabilityWindow F
    window_of id chunk = record {
      window_id = id;
      score_mean = round (ops.mean chunk) 4;
      score_std = round (ops.std chunk) 4;
      variability_ratio = round (variability (ops.mean chunk) (ops.std chunk)) 4;
    }

    -- the windows of the chunks that start at the indices
    unfoldable pub windows_from : ℕ → List F → ℕ → List ℕ → List (StabilityWindow F)
    windows_from size scores id [] = []
    windows_from size scores id (index ∷ indices) = elim (take size (drop index scores)) [
      | [] ↦ windows_from size scores id indices
      | x ∷ xs ↦ window_of id (x ∷ xs) ∷ windows_from size scores (id + 1) indices
    ]

    unfoldable pub stability_windows : List F → List (StabilityWindow F)
    stability_windows scores =
        windows_from (chunk_size scores) scores 0
          (range_on (length scores) 0 (length scores) (chunk_size scores))

    unfoldable pub stability_of : F → List F → StabilityResult F
    stability_of threshold [] = record {
      stable = false;
      mean_score = decimal 0 1;
      score_std = decimal 0 1;
      variability_ratio = decimal 10 1;
      windows = [];
    }
    stability_of threshold (x ∷ scores) =
        let mean = ops.mean (x ∷ scores) in
        let std = ops.std (x ∷ scores) in
        record {
          stable = lt (variability mean std) threshold;
          mean_score = round mean 4;
          score_std = round std 4;
          variability_ratio = round (variability mean std) 4;
          windows = stability_windows (x ∷ scores);
        }

    abbrev pub scores_of : {V : Type 0} → List (OptimizationCandidate F V) → List F
    scores_of = map (λ c. c.composite_score)

    unfoldable pub summary_score : MonteCarloResult F → StabilityResult F → F
    summary_score m s =
        let lowered =
          sub (sub (decimal 1000 1) (mul m.ruin_probability (decimal 1000 1)))
            (mul s.variability_ratio (decimal 500 1)) in
        max (decimal 0 1) (if s.stable then lowered else sub lowered (decimal 150 1))

    unfoldable pub evaluate :
        {V : Type 0}
        → MonteCarloValidator F
        → F
        → List F
        → List (OptimizationCandidate F V)
        → F
        → Option (ValidationSummary F)
    evaluate v threshold returns candidates capital =
        let s = stability_of threshold (scores_of candidates) in
        elim (validate v returns capital) [
          | none ↦ none
          | some m ↦
              let score = summary_score m s in
              some (record {
                monte_carlo = m;
                parameter_stability = s;
                overall_pass =
                    lt m.ruin_probability (decimal 25 2) && s.stable && le (decimal 500 1) score;
                summary_score = round score 4;
              })
        ]
