-- ===== src/Research/Robustness/Tests.antt =====
-- A Monte Carlo validation in whole numbers, the windows of six scores, and the theorems at them.
use crypto_trader_ver_9_alph.Prelude.{
  ℕ, zero, suc, ◌+◌, ◌-◌, ◌*◌, ◌/◌, ◌^◌, ◌≤◌, ◌≡◌, refl, none, some, List, [], ◌∷◌, map, length,
  ltb, leb, All, range_from,
}
use crypto_trader_ver_9_alph.Prelude.Float.{FloatOps}
use crypto_trader_ver_9_alph.Evolution.{chunk, range_on}
use crypto_trader_ver_9_alph.Evolution.Batches.{concat, IsBatch}
use crypto_trader_ver_9_alph.Research.Robustness.{
  MonteCarloValidator, MonteCarloResult, SampleOps, validate, paths_of, path, is_ruined, grow,
  curve_of, return_of, max_drawdown, drawdown_from, stability_windows, windows_from, chunk_size,
}
use crypto_trader_ver_9_alph.Research.Robustness.Windows.{stability_windows_lem}

-- whole numbers, on which the arithmetic is exact
instance abbrev whole : FloatOps ℕ
whole = record {
  decimal_op = λ m e. m / 10 ^ e;
  neg_op = λ a. 0;
  add_op = λ a b. a + b;
  sub_op = λ a b. a - b;
  mul_op = λ a b. a * b;
  div_op = λ a b. a / b;
  lt_op = ltb;
  le_op = leb;
  round_op = λ a n. a;
}

abbrev exchange : List ℕ → List ℕ
exchange (a ∷ b ∷ l) = b ∷ a ∷ l
exchange l = l

-- every second path has its first two returns exchanged
abbrev shuffled : ℕ → List ℕ → List ℕ
shuffled zero l = l
shuffled (suc zero) l = exchange l
shuffled (suc (suc n)) l = shuffled n l

abbrev ops : SampleOps ℕ
ops = record { shuffle = shuffled; median = λ xs. 0; mean = length; std = λ xs. 0 }

abbrev returns : List ℕ
returns = 1 ∷ 2 ∷ 0 ∷ []

abbrev validator : MonteCarloValidator ℕ
validator = record { simulations = 3; ruin_threshold_pct = 500 }

-- 100 grows to 600 on each of the three paths: a return of 500 percent, at the threshold
all_ruined :
    (m : MonteCarloResult ℕ) × (validate ops validator returns 100 ≡ some m)
    × (map (λ p. p.return_pct) m.paths ≡ 500 ∷ 500 ∷ 500 ∷ [])
    × (m.ruin_probability ≡ 1)
unfolding validate paths_of path is_ruined grow curve_of return_of max_drawdown drawdown_from
all_ruined = (_, refl, refl, refl)

-- without a capital the first path raises
no_capital : validate ops validator returns 0 ≡ none
unfolding validate paths_of path
no_capital = refl

abbrev scores : List ℕ
scores = 4 ∷ 5 ∷ 6 ∷ 7 ∷ 8 ∷ 9 ∷ []

six_windows : length (stability_windows ops scores) ≡ 6
unfolding stability_windows windows_from range_on
six_windows = refl

stability_windows_lem_example :
    let ws = stability_windows ops scores in
    let chunks = chunk (length scores / 5) scores in
    (map (λ w. w.score_mean) ws ≡ map length chunks)
    × (concat chunks ≡ scores)
    × All (IsBatch (chunk_size scores)) chunks
    × (map (λ w. w.window_id) ws ≡ range_from 0 (length ws))
    × (length ws ≤ 9)
stability_windows_lem_example = stability_windows_lem ops scores
