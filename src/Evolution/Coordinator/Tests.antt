-- ===== src/Evolution/Coordinator/Tests.antt =====
-- A run of the pool over one batch whose second record the registry refuses, and the theorem at it.
use crypto_trader_ver_9_alph.Basket.Build.{allocate}
use crypto_trader_ver_9_alph.Prelude.{
  map, ℕ, ◌+◌, ◌==◌, ◌≡◌, refl, true, false, none, some, List, [], ◌∷◌, String, length,
  if◌then◌else◌,
}
use crypto_trader_ver_9_alph.Prelude.Int.{ℤ}
use crypto_trader_ver_9_alph.Prelude.Fixed.{fixed}
use crypto_trader_ver_9_alph.Lifecycle.{Candidate}
use crypto_trader_ver_9_alph.Basket.Samples.{plain_text, statistics, age_days, row}
use crypto_trader_ver_9_alph.Evolution.{
  ValidationReport, Worker, WorkerBatchResult, returned, no_result, process_candidate, chunk,
  range_on,
}
use crypto_trader_ver_9_alph.Evolution.Coordinator.{
  Pool, submitted, worked, begin, work, collect, Run, here, next, summary_of, promoted_candidates,
}
use crypto_trader_ver_9_alph.Evolution.Coordinator.Runs.{standing, records_of, summary_of-counts}

abbrev report : ValidationReport ℤ
report = record {
  walk_forward_passed = true;
  monte_carlo_passed = true;
  perturbation_passed = true;
  cross_symbol_passed = true;
  evidence_robustness = none;
  cross_symbol_mean = none;
  monte_carlo_score = none;
  stability_score = none;
}

abbrev candidate : String → Candidate ℤ
candidate name = record {
  strategy_id = name;
  status = none;
  symbol = some "BTC/USDT";
  family = some "trend";
  regime = none;
  robustness_score = none;
  profit_factor = none;
  max_drawdown_pct = none;
  validation_score = none;
  validation_passed = false;
  transition_history = [];
}

-- a registry that counts, and refuses the second record
abbrev worker : Worker ℤ ℕ
worker = record {
  validate_candidate = λ c. returned report;
  upsert_candidate = λ v n. (if 1 == n then some "disk full" else none, n + 1);
}

abbrev generated : List (Candidate ℤ)
generated = candidate "a" ∷ candidate "b" ∷ []

abbrev begun : Pool ℤ ℕ
begun = record (submitted 2 generated 0) {
  queue = [];
  active = record { index = 0; rest = generated; result = no_result } ∷ [];
}

abbrev half : Pool ℤ ℕ
half = worked worker [] 0 (candidate "a") (candidate "b" ∷ []) no_result [] begun

abbrev one_result : WorkerBatchResult ℤ
one_result = (process_candidate worker (candidate "a") (no_result, 0)).0

abbrev whole : Pool ℤ ℕ
whole = worked worker [] 0 (candidate "b") [] one_result [] half

abbrev results : WorkerBatchResult ℤ
results = (process_candidate worker (candidate "b") (one_result, 1)).0

abbrev ended : Pool ℤ ℕ
ended = record whole { active = []; collected = (0, results) ∷ [] }

the_run : Run worker (submitted 2 generated 0) 4 ended
unfolding chunk range_on worked process_candidate
the_run =
    next
      (next
        (next (next here (begin (submitted 2 generated 0) 0 generated [] refl))
          (work begun [] 0 (candidate "a") (candidate "b" ∷ []) no_result [] refl))
        (work half [] 0 (candidate "b") [] one_result [] refl))
      (collect whole [] 0 results [] refl)

one_of_each : (results.promoted ≡ 1) × (results.failed ≡ 1) × (results.errors ≡ "b: disk full" ∷ [])
unfolding process_candidate
one_of_each = (refl, refl, refl)

summary_of-counts_example :
    let r =
      summary_of age_days statistics
        (λ v. row v.candidate.strategy_id "BTC/USDT" 2)
        4
        3
        generated
        ended in
    (r.processed ≡ r.generated)
    × (r.promoted + r.failed ≡ r.generated)
    × (length (promoted_candidates ended.collected) ≡ r.promoted)
    × (length r.batch_results ≡ length (chunk 2 generated))
    × (r.portfolio_size ≡ length r.portfolio)
    × (r.portfolio
        ≡ allocate age_days statistics
            (map
              (λ v. row v.candidate.strategy_id "BTC/USDT" 2)
              (standing (records_of ended.collected)))
            3
            2
            true)
unfolding worked
summary_of-counts_example =
    summary_of-counts worker 2 generated 0 age_days statistics
      (λ v. row v.candidate.strategy_id "BTC/USDT" 2) 4 3 4 ended the_run (refl, refl)
