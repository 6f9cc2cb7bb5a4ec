-- ===== src/Evolution/Validation/Samples.antt =====
-- ver9/validation.py: the Monte Carlo and the perturbation validation.
use crypto_trader_ver_9_alph.Prelude.{
  ◌>>=◌, ℕ, ◌+◌, ◌-◌, Bool, ◌&&◌, ◌||◌, Option, some, List, [], ◌∷◌, map, length, select,
  if◌then◌else◌, range_from, get_elem?,
}
use crypto_trader_ver_9_alph.Prelude.Float.{
  FloatOps, decimal, add, sub, mul, div, lt, le, round, abs, max,
}
use crypto_trader_ver_9_alph.Lifecycle.{Candidate}
use crypto_trader_ver_9_alph.Evolution.Validation.{
  seed_value, ValidationOps, MonteCarloResult, PerturbationResult, at_least, Numbers, numbers_of,
  name_of,
}

module _ {F : Type 0} ⦃o : FloatOps F⦄ where
  -- `sorted`
  unfoldable pub insert_ascending : F → List F → List F
  insert_ascending x [] = x ∷ []
  insert_ascending x (y ∷ ys) = if lt y x then y ∷ insert_ascending x ys else x ∷ y ∷ ys

  unfoldable pub ascending : List F → List F
  ascending [] = []
  ascending (x ∷ xs) = insert_ascending x (ascending xs)

  module _ (ops : ValidationOps F) where
    -- the noise of a round of the Monte Carlo validation
    abbrev pub noise_at : F → ℕ → F
    noise_at seed i =
        let wave = ops.sin (add (mul (decimal (i + 1) 0) (decimal 73 2)) (mul seed ops.tau)) in
        add (mul (sub seed (decimal 5 1)) (decimal 12 1)) (mul wave (decimal 18 2))

    abbrev pub outcome_at : Numbers F → F → ℕ → F
    outcome_at n seed i =
        add
          (add (mul n.ret (add (decimal 10 1) (mul (noise_at seed i) (decimal 12 2))))
            (mul (sub n.pf (decimal 10 1)) (decimal 17 1)))
          (mul (sub n.rob (decimal 5 1)) (decimal 80 1))

    abbrev pub drawdown_at : Numbers F → F → ℕ → F
    drawdown_at n seed i =
        add (mul n.dd (add (decimal 10 1) (mul (abs (noise_at seed i)) (decimal 35 2))))
          (mul (sub (decimal 10 1) n.rob) (decimal 30 1))

    unfoldable pub is_failure : Numbers F → F → ℕ → Bool
    is_failure n seed i =
        le (outcome_at n seed i) (decimal 0 0)
        || le (max (decimal 180 1) (mul n.dd (decimal 18 1))) (drawdown_at n seed i)

    -- `xs[int(share * (n - 1))]`
    abbrev pub at_share : F → ℕ → List F → Option F
    at_share share n xs = get_elem? xs (ops.truncate (mul share (decimal (n - 1) 0)))

    unfoldable pub monte_carlo_of : Numbers F → ℕ → ℕ → F → F → F → MonteCarloResult F
    monte_carlo_of n iterations failures p05 p50 p95 =
        let failure_rate = div (decimal failures 0) (decimal iterations 0) in
        let score = max (decimal 0 1) (
          sub
            (sub
              (add (add (mul n.pf (decimal 9 1)) (mul n.rob (decimal 40 1)))
                (div p50 (decimal 60 1)))
              (div p95 (decimal 100 1)))
            (mul failure_rate (decimal 25 1))) in
        record {
          iterations = iterations;
          p05_return_pct = round p05 4;
          p50_return_pct = round p50 4;
          p95_drawdown_pct = round p95 4;
          failure_rate = round failure_rate 4;
          score = round score 4;
          passed =
              le failure_rate (decimal 28 2)
              && lt (decimal 0 1) p05
              && le p95 (max (decimal 150 1) (mul n.dd (decimal 16 1)));
        }

    unfoldable pub run_monte_carlo : ℕ → Option F → Candidate F → Option (MonteCarloResult F)
    run_monte_carlo iterations return_pct c =
        let n = numbers_of return_pct c in
        let seed = seed_value ops (name_of c) "mc" in
        let count = at_least 100 iterations in
        let outcomes = ascending (map (outcome_at n seed) (range_from 0 count)) in
        let drawdowns = ascending (map (drawdown_at n seed) (range_from 0 count)) in
        let failures = length (select (is_failure n seed) (range_from 0 count)) in
        do
          p05 ← at_share (decimal 5 2) count outcomes
          p50 ← at_share (decimal 50 2) count outcomes
          p95 ← at_share (decimal 95 2) count drawdowns
          some (monte_carlo_of n count failures p05 p50 p95)

    unfoldable pub factor_at : Numbers F → F → ℕ → F
    factor_at n seed i =
        let drift =
          add (mul (decimal (i + 1) 0) (decimal 13 3))
            (mul (sub seed (decimal 5 1)) (decimal 4 1)) in
        add (add (decimal 10 1) (mul (ops.cos (mul drift ops.tau)) (decimal 6 2)))
          (mul (sub n.rob (decimal 5 1)) (decimal 8 2))

    unfoldable pub run_perturbation : ℕ → Option F → Candidate F → PerturbationResult F
    run_perturbation trials return_pct c =
        let n = numbers_of return_pct c in
        let seed = seed_value ops (name_of c) "pt" in
        let count = at_least 25 trials in
        let mean_return = ops.mean (
          map
            (λ i.
              add (mul n.ret (factor_at n seed i)) (mul (sub n.pf (decimal 10 1)) (decimal 45 2)))
            (range_from 0 count)) in
        let mean_dd = ops.mean (
          map
            (λ i. mul n.dd (
              add (decimal 10 1)
                (mul (abs (sub (factor_at n seed i) (decimal 10 1))) (decimal 9 1))))
            (range_from 0 count)) in
        record {
          trials = count;
          mean_return_pct = round mean_return 4;
          mean_drawdown_pct = round mean_dd 4;
          stability_score =
              round
                (max (decimal 0 1)
                  (add (sub (div mean_return (decimal 100 1)) (div mean_dd (decimal 200 1))) n.rob))
                4;
          passed =
              lt (mul n.ret (decimal 85 2)) mean_return
              && le mean_dd (max (mul n.dd (decimal 135 2)) (add n.dd (decimal 15 1)));
        }
