-- ===== src/Evolution/Generation.antt =====
-- ver9/generation.py and ver9/mutation_spaces.py: the candidates that a generation makes of the
-- plan. The digest of a seed (_stable_float), the cut of a float to an integer, the decimal text
-- of a number and the spelling of a symbol in an identifier are parameters.
pub mod Counts
mod Tests
use crypto_trader_ver_9_alph.Prelude.{
  ℕ, zero, suc, ◌+◌, Bool, false, Option, none, some, List, [], ◌∷◌, ◌++◌, map, String, or_else,
  str_append, str_eq, if◌then◌else◌,
}
use crypto_trader_ver_9_alph.Prelude.Int.{ℤ, pos}
use crypto_trader_ver_9_alph.Prelude.Dict.{Dict, lookup, values}
use crypto_trader_ver_9_alph.Prelude.Float.{FloatOps, decimal, add, sub, mul, div, neg, round}
use crypto_trader_ver_9_alph.Prelude.Text.{TextOps, lower}
use crypto_trader_ver_9_alph.Lifecycle.{Candidate}
use crypto_trader_ver_9_alph.Evolution.{PlanRow, at_least_one, build_generation_quota_plan}
use crypto_trader_ver_9_alph.Evolution.Tuner.{
  TunerOps, counts_from, infer_regime, build_regime_quota_plan, default_families, default_symbols,
  default_family_quotas, default_symbol_quotas,
}

-- The first eight hexadecimal digits of the digest of a text as a number, and the other calls.
pub record SeedOps (F : Type 0) : Type 0 where
  pub digest : String → ℕ
  pub truncate : F → ℕ
  pub digits : ℕ → String
  pub slug : String → String

-- A generated row: what the later parts read of it, and the rest.
pub record Generated (F : Type 0) : Type 0 where
  pub candidate : Candidate F
  pub timeframe : String
  pub return_pct : F
  pub trades : ℕ
  pub parameter_strength : F

pub record GenerationReport : Type 0 where
  pub iterations : ℕ
  pub adaptive : Bool
  pub regime : String
  pub total_planned : ℕ
  pub family_counts : Dict ℕ
  pub symbol_counts : Dict ℕ
  pub plan : List PlanRow

abbrev pub default_regime : String
default_regime = "adaptive"

abbrev pub family_regime_map : Dict String
family_regime_map =
    ("mean_reversion", "mean_reversion")
    ∷ ("volatility_compression", "volatility_compression")
    ∷ ("trend", "trend")
    ∷ []

-- `family_quota or DEFAULT_FAMILY_QUOTAS`, as the plan takes it
abbrev pub given_or : Dict ℕ → Dict ℤ → Dict (Option ℤ)
given_or default [] = map (λ x. (x.0, some (pos (x.1)))) default
given_or default (x ∷ given) = map (λ y. (y.0, some (y.1))) (x ∷ given)

-- the texts with a separator between them
abbrev pub join : String → List String → String
join sep [] = ""
join sep (x ∷ []) = x
join sep (x ∷ y ∷ xs) = str_append x (str_append sep (join sep (y ∷ xs)))

abbrev pub total_count : List PlanRow → ℕ
total_count [] = 0
total_count (row ∷ plan) = row.count + total_count plan

module _ {F : Type 0} ⦃o : FloatOps F⦄ where
  unfoldable pub stable_float : SeedOps F → String → F → F → F
  stable_float seeds seed minimum maximum =
      add minimum
        (mul (sub maximum minimum) (div (decimal (seeds.digest seed) 0) (decimal 4294967295 0)))

  abbrev pub mutation_spaces : Dict (Dict (List F))
  mutation_spaces =
      (
        "mean_reversion",
        (
          "zscore_window",
          decimal 10 0 ∷ decimal 14 0 ∷ decimal 20 0 ∷ decimal 30 0 ∷ decimal 50 0 ∷ [],
        )
            ∷ ("reclaim_threshold", decimal 8 1 ∷ decimal 10 1 ∷ decimal 12 1 ∷ decimal 15 1 ∷ [])
            ∷ ("volatility_band", decimal 15 1 ∷ decimal 20 1 ∷ decimal 25 1 ∷ decimal 30 1 ∷ [])
            ∷ ("cooldown_bars", decimal 1 0 ∷ decimal 2 0 ∷ decimal 3 0 ∷ decimal 5 0 ∷ [])
            ∷ [],
      )
      ∷ (
        "trend",
        ("atr_multiplier", decimal 15 1 ∷ decimal 20 1 ∷ decimal 25 1 ∷ decimal 30 1 ∷ [])
            ∷ ("breakout_window", decimal 20 0 ∷ decimal 30 0 ∷ decimal 50 0 ∷ decimal 100 0 ∷ [])
            ∷ ("momentum_threshold", decimal 5 1 ∷ decimal 10 1 ∷ decimal 15 1 ∷ [])
            ∷ ("continuation_bars", decimal 2 0 ∷ decimal 3 0 ∷ decimal 5 0 ∷ decimal 8 0 ∷ [])
            ∷ [],
      )
      ∷ (
        "volatility_compression",
        ("compression_window", decimal 10 0 ∷ decimal 20 0 ∷ decimal 30 0 ∷ [])
            ∷ ("squeeze_threshold", decimal 15 2 ∷ decimal 20 2 ∷ decimal 25 2 ∷ [])
            ∷ ("expansion_trigger", decimal 12 1 ∷ decimal 15 1 ∷ decimal 20 1 ∷ [])
            ∷ ("breakout_confirmation", decimal 1 0 ∷ decimal 2 0 ∷ decimal 3 0 ∷ [])
            ∷ [],
      )
      ∷ []

  abbrev pub get_mutation_space : String → Dict (List F)
  get_mutation_space family = or_else (lookup family mutation_spaces) []

  module _ (ops : TunerOps F) where
    abbrev pub mean_or_zero : List F → F
    mean_or_zero [] = decimal 0 0
    mean_or_zero (x ∷ xs) = ops.mean (x ∷ xs)

    unfoldable pub parameter_strength : String → F
    parameter_strength family = mean_or_zero (map mean_or_zero (values (get_mutation_space family)))

    module _ ⦃t : TextOps⦄ where
      abbrev pub family_regime : String → String → String
      family_regime family fallback = or_else (lookup (lower family) family_regime_map) fallback

      abbrev pub regime_for : String → String → String
      regime_for family regime =
          if str_eq regime default_regime then family_regime family regime else regime

      unfoldable pub build_candidate : SeedOps F → String → String → ℕ → String → Generated F
      build_candidate seeds family symbol iteration regime =
          let kind = regime_for family regime in
          let number = seeds.digits iteration in
          let base = join ":" (family ∷ symbol ∷ number ∷ kind ∷ []) in
          let draw = λ (salt : String) (low : F) (high : F).
            stable_float seeds (str_append base salt) low high in
          record {
            candidate = record {
              strategy_id = join "_" (family ∷ seeds.slug symbol ∷ kind ∷ number ∷ []);
              status = some "candidate";
              symbol = some symbol;
              family = some family;
              regime = some kind;
              robustness_score = some (round (draw ":rob" (decimal 45 2) (decimal 96 2)) 3);
              profit_factor = some (round (draw ":pf" (decimal 11 1) (decimal 34 1)) 2);
              max_drawdown_pct = some (round (neg (draw ":dd" (decimal 15 1) (decimal 140 1))) 2);
              validation_score = none;
              validation_passed = false;
              transition_history = [];
            };
            timeframe = "1h";
            return_pct = round (draw ":ret" (decimal 20 1) (decimal 280 1)) 2;
            trades = seeds.truncate (draw ":trades" (decimal 40 0) (decimal 320 0));
            parameter_strength = round (parameter_strength family) 3;
          }

      unfoldable pub build_generation_plan :
          ℕ → Dict ℤ → Dict ℤ → String → List (Candidate F) → Bool → List PlanRow
      build_generation_plan iterations families symbols regime history adaptive =
          if adaptive
          then build_regime_quota_plan ops iterations (infer_regime ops history regime) families
              symbols history
          else build_generation_quota_plan iterations default_families default_symbols
              (given_or default_family_quotas families) (given_or default_symbol_quotas symbols)

      unfoldable pub generation_quota_report :
          ℕ → Dict ℤ → Dict ℤ → String → List (Candidate F) → Bool → GenerationReport
      generation_quota_report iterations families symbols regime history adaptive =
          let plan = build_generation_plan iterations families symbols regime history adaptive in
          record {
            iterations = at_least_one iterations;
            adaptive = adaptive;
            regime = infer_regime ops history regime;
            total_planned = total_count plan;
            family_counts = counts_from (map (λ x. x.family) plan) [];
            symbol_counts = counts_from (map (λ x. x.symbol) plan) [];
            plan = plan;
          }

      module _ (seeds : SeedOps F) where
        -- `for iteration in range(count)`, from some iteration on
        unfoldable pub candidates_of : String → String → String → ℕ → ℕ → List (Generated F)
        candidates_of regime family symbol iteration zero = []
        candidates_of regime family symbol iteration (suc n) =
            build_candidate seeds family symbol iteration regime
            ∷ candidates_of regime family symbol (iteration + 1) n

        unfoldable pub candidates_for : String → List PlanRow → List (Generated F)
        candidates_for regime [] = []
        candidates_for regime (row ∷ plan) =
            candidates_of regime (row.family) (row.symbol) 0 (row.count)
            ++ candidates_for regime plan

        unfoldable pub generate_candidates :
            ℕ → Dict ℤ → Dict ℤ → String → List (Candidate F) → Bool → List (Generated F)
        generate_candidates iterations families symbols regime history adaptive =
            let kind = infer_regime ops history regime in
            candidates_for kind
              (build_generation_plan iterations families symbols kind history adaptive)
