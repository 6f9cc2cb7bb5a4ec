-- ===== src/Research/Robustness/Paths.antt =====
-- What the Monte Carlo validation says of its paths.
use crypto_trader_ver_9_alph.Prelude.{
  ℕ, ◌+◌, ◌≤◌, ◌≡◌, ◌⊎◌, true, false, Option, none, some, List, [], ◌∷◌, map, All, if◌then◌else◌,
  range_from,
}
use crypto_trader_ver_9_alph.Prelude.Float.{
  FloatOps, TotalOrder, decimal, sub, mul, div, lt, le, round, is_zero,
}
use crypto_trader_ver_9_alph.Research.Search.Choices.{Member}
use crypto_trader_ver_9_alph.Research.Robustness.{
  MonteCarloPath, MonteCarloResult, MonteCarloValidator, SampleOps, grow, curve_of, max_drawdown,
}

module _ {F : Type 0} ⦃o : FloatOps F⦄ (order : TotalOrder F) where
  -- The number is one of the list, and none is below it.
  abbrev pub IsLeast : F → List F → Type 0
  IsLeast m xs = Member m xs × All (λ x. lt x m ≡ false) xs

  -- The number is one of the list, and none is above it.
  abbrev pub IsLargest : F → List F → Type 0
  IsLargest m xs = Member m xs × All (λ x. lt m x ≡ false) xs

module _ {F : Type 0} ⦃o : FloatOps F⦄ (order : TotalOrder F) (ops : SampleOps F) (returns : List F)
    (capital : F) where
  -- The return in percent of the trades in the order of path number `id`.
  abbrev pub return_on : ℕ → F
  return_on id =
      mul (div (sub (grow capital (ops.shuffle id returns)) capital) capital) (decimal 1000 1)

  -- The capital is 0, or the peak of the path's equity is 0 at some point.
  abbrev pub Raises : ℕ → Type 0
  Raises id =
      (is_zero capital ≡ true)
      ⊎ (max_drawdown capital (curve_of capital (ops.shuffle id returns)) ≡ none)

  -- The paths are those of the numbers, one for each, in their order.
  abbrev pub ArePaths : List ℕ → List (MonteCarloPath F) → Type 0
  ArePaths [] [] = Unit
  ArePaths [] (p ∷ ps) = ⊥
  ArePaths (id ∷ ids) [] = ⊥
  ArePaths (id ∷ ids) (p ∷ ps) =
      ((p.path_id ≡ id) × (p.return_pct ≡ round (return_on id) 4)) × ArePaths ids ps

  -- How many of the paths of the numbers have a return that is at most the threshold.
  abbrev pub count_ruined : F → List ℕ → ℕ
  count_ruined threshold [] = 0
  count_ruined threshold (id ∷ ids) =
      (if le (return_on id) threshold then 1 else 0) + count_ruined threshold ids

  -- The result of a validation: its paths, the least and the largest of their returns, and the
  -- share of the ruined ones.
  abbrev pub Reports : MonteCarloValidator F → MonteCarloResult F → Type 0
  Reports v m =
      let ids = range_from 0 v.simulations in
      let values = map (λ p. p.return_pct) m.paths in
      ArePaths ids m.paths
      × ((w : F) × IsLeast order w values × (m.worst_return_pct ≡ round w 4))
      × ((b : F) × IsLargest order b values × (m.best_return_pct ≡ round b 4))
      × (count_ruined v.ruin_threshold_pct ids ≤ v.simulations)
      × (m.ruin_probability
          ≡ round
              (div (decimal (count_ruined v.ruin_threshold_pct ids) 0) (decimal v.simulations 0)) 4)

  -- A validation that raises, for one of the three reasons, or returns.
  abbrev pub Validated : MonteCarloValidator F → Option (MonteCarloResult F) → Type 0
  Validated v r =
      ((r ≡ none)
        × ((v.simulations ≡ 0) ⊎ ((id : ℕ) × Member id (range_from 0 v.simulations) × Raises id)))
      ⊎ ((m : MonteCarloResult F) × (r ≡ some m) × Reports v m)
