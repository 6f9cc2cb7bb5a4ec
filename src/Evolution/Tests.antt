-- ===== src/Evolution/Tests.antt =====
-- Runs of the worker, the batches and the plan, and their theorems at concrete inputs.
use crypto_trader_ver_9_alph.Prelude.{
  ℕ, ◌+◌, ◌==◌, ◌≡◌, refl, true, false, ◌&&◌, Option, none, some, List, [], ◌∷◌, String, All,
  if◌then◌else◌,
}
use crypto_trader_ver_9_alph.Prelude.Int.{ℤ, pos, negsuc}
use crypto_trader_ver_9_alph.Prelude.Dict.{Dict, lookup, insert, mem}
use crypto_trader_ver_9_alph.Prelude.Fixed.{fixed}
use crypto_trader_ver_9_alph.Prelude.Text.{TextOps}
use crypto_trader_ver_9_alph.Lifecycle.{Candidate}
use crypto_trader_ver_9_alph.Evolution.{
  range_on, at_least_one, chunk, ValidationReport, Worker, returned, process_batch, process_from,
  process_candidate, smaller, normalize_quota_map, rows_of_family, rows,
  build_generation_quota_plan,
}
use crypto_trader_ver_9_alph.Evolution.Batches.{concat, IsBatch, chunk_lem}
use crypto_trader_ver_9_alph.Evolution.Quotas.{planned, limit, build_generation_quota_plan_lem}

instance abbrev plain : TextOps
plain = record { normalize_op = λ s. s; upper_op = λ s. s; lower_op = λ s. s; root_op = λ s. s }

three_chunks :
    chunk {A = ℕ} 2 (1 ∷ 2 ∷ 3 ∷ 4 ∷ 5 ∷ []) ≡ (1 ∷ 2 ∷ []) ∷ (3 ∷ 4 ∷ []) ∷ (5 ∷ []) ∷ []
unfolding chunk range_on
three_chunks = refl

chunk_lem_example :
    (concat {A = ℕ} (chunk 2 (1 ∷ 2 ∷ 3 ∷ [])) ≡ 1 ∷ 2 ∷ 3 ∷ [])
    × All (IsBatch {A = ℕ} (at_least_one 2)) (chunk 2 (1 ∷ 2 ∷ 3 ∷ []))
chunk_lem_example = chunk_lem 2 (1 ∷ 2 ∷ 3 ∷ [])

abbrev report : ValidationReport ℤ
report = record {
  walk_forward_passed = true;
  monte_carlo_passed = true;
  perturbation_passed = false;
  cross_symbol_passed = true;
  evidence_robustness = some (pos 700000);
  cross_symbol_mean = none;
  monte_carlo_score = some (pos 400000);
  stability_score = none;
}

abbrev candidate : String → Candidate ℤ
candidate name = record {
  strategy_id = name;
  status = none;
  symbol = some "BTC/USDT";
  family = some "trend";
  regime = none;
  robustness_score = none;
  profit_factor = none;
  max_drawdown_pct = none;
  validation_score = none;
  validation_passed = false;
  transition_history = [];
}

-- a registry that counts, and refuses the second record
abbrev worker : Worker ℤ ℕ
worker = record {
  validate_candidate = λ c. returned report;
  upsert_candidate = λ v n. (if 1 == n then some "disk full" else none, n + 1);
}

abbrev batch : List (Candidate ℤ)
batch = candidate "a" ∷ candidate "b" ∷ candidate "c" ∷ []

one_fails : (process_batch worker batch 0).0.errors ≡ "b: disk full" ∷ []
unfolding process_batch process_from process_candidate
one_fails = refl

abbrev families : List String
families = "trend" ∷ "carry" ∷ []

abbrev symbols : List String
symbols = "BTC" ∷ "ETH" ∷ []

abbrev family_quota : Dict (Option ℤ)
family_quota = ("trend", some (pos 3)) ∷ ("carry", some (negsuc 0)) ∷ []

abbrev symbol_quota : Dict (Option ℤ)
symbol_quota = ("BTC", some (pos 2)) ∷ []

-- the family whose quota is 3 gets 2 and 3 rows
five_trends :
    let plan = build_generation_quota_plan 9 families symbols family_quota symbol_quota in
    planned "trend" "BTC" plan + planned "trend" "ETH" plan ≡ 5
unfolding build_generation_quota_plan rows rows_of_family normalize_quota_map lookup insert
five_trends = refl

build_generation_quota_plan_lem_example :
    let cap = at_least_one 9 in
    planned "trend" "ETH" (build_generation_quota_plan 9 families symbols family_quota symbol_quota)
    ≡ (if mem "trend" families && mem "ETH" symbols
        then smaller (smaller cap (limit family_quota cap "trend")) (limit symbol_quota cap "ETH")
        else 0)
build_generation_quota_plan_lem_example =
    build_generation_quota_plan_lem 9 families symbols family_quota symbol_quota "trend" "ETH"
      (refl, (refl, tt)) (refl, (refl, tt))
