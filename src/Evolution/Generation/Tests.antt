-- ===== src/Evolution/Generation/Tests.antt =====
-- A generation of a trending market, and the theorem at it.
use crypto_trader_ver_9_alph.Prelude.{
  ◌+◌, ◌/◌, ◌≡◌, refl, true, false, [], ◌∷◌, List, String, map, length,
}
use crypto_trader_ver_9_alph.Prelude.Int.{ℤ, pos, pos_part}
use crypto_trader_ver_9_alph.Prelude.Dict.{lookup, insert}
use crypto_trader_ver_9_alph.Prelude.Fixed.{fixed}
use crypto_trader_ver_9_alph.Basket.Samples.{plain_text}
use crypto_trader_ver_9_alph.Evolution.{
  build_generation_quota_plan, rows, rows_of_family, normalize_quota_map,
}
use crypto_trader_ver_9_alph.Evolution.Quotas.{planned}
use crypto_trader_ver_9_alph.Evolution.Tuner.{TunerOps, infer_regime}
use crypto_trader_ver_9_alph.Evolution.Generation.{
  SeedOps, Generated, build_candidate, parameter_strength, build_generation_plan,
  generation_quota_report, candidates_of, candidates_for, generate_candidates,
}
use crypto_trader_ver_9_alph.Evolution.Generation.Counts.{generated, generate_candidates_lem}

abbrev ops : TunerOps ℤ
ops = record {
  mean = λ xs. pos 0;
  round_int = λ x. pos ((pos_part x + 500000) / 1000000);
  text_lt = λ a b. false;
}

abbrev seeds : SeedOps ℤ
seeds = record {
  digest = λ seed. 0;
  truncate = λ x. pos_part x / 1000000;
  digits = λ n. "0";
  slug = λ s. "btc_usdt";
}

abbrev names : List (Generated ℤ) → List String
names = map (λ g. g.candidate.strategy_id)

-- one iteration of a fixed plan, for the one symbol whose quota is given as positive
one_name :
    names (
      generate_candidates ops seeds 1
        (("mean_reversion", pos 0) ∷ ("volatility_compression", pos 0) ∷ [])
        (("ETH/USDT", pos 0) ∷ ("SOL/USDT", pos 0) ∷ [])
        "adaptive"
        []
        false)
    ≡ "trend_btc_usdt_trend_0" ∷ []
unfolding generate_candidates candidates_for candidates_of build_candidate parameter_strength
    build_generation_plan build_generation_quota_plan rows rows_of_family normalize_quota_map
    infer_regime lookup insert
one_name = refl

generate_candidates_lem_example :
    let gs = generate_candidates ops seeds 2 [] [] "adaptive" [] true in
    let report = generation_quota_report ops 2 [] [] "adaptive" [] true in
    (generated "trend" "BTC/USDT" gs ≡ planned "trend" "BTC/USDT" report.plan)
    × (length gs ≡ report.total_planned)
generate_candidates_lem_example =
    generate_candidates_lem ops seeds 2 [] [] "adaptive" [] true "trend" "BTC/USDT"
