-- ===== src/Evolution/Tuner.antt =====
-- ver9/quota_tuner.py: the regime that a history of candidates points to, the quotas tuned to a
-- regime, and the plan that they give. The mean, the rounding of a float to an integer and the
-- order of texts are parameters.
pub mod Positive
mod Tests
use crypto_trader_ver_9_alph.Prelude.{
  ℕ, ◌+◌, ◌-◌, ◌==◌, Bool, true, ◌&&◌, not, Option, some, List, [], ◌∷◌, ◌++◌, map, String, length,
  ltb, leb, or_else, str_eq, if◌then◌else◌,
}
use crypto_trader_ver_9_alph.Prelude.Int.{ℤ, pos, negsuc}
use crypto_trader_ver_9_alph.Prelude.Dict.{Dict, lookup, contains, insert}
use crypto_trader_ver_9_alph.Prelude.Float.{FloatOps, decimal, add, mul, lt, le, round}
use crypto_trader_ver_9_alph.Prelude.Text.{TextOps, lower}
use crypto_trader_ver_9_alph.Lifecycle.{Candidate, text_or}
use crypto_trader_ver_9_alph.Evolution.{PlanRow, build_generation_quota_plan}

-- `round_int` is `int(round(x))`, of a number that is finite: it is only called on a quota times a
-- bias, which is a constant of the tables below and a bonus. `text_lt` is the order of texts.
pub record TunerOps (F : Type 0) : Type 0 where
  pub mean : List F → F
  pub round_int : F → ℤ
  pub text_lt : String → String → Bool

pub record RegimeQuotaReport (F : Type 0) : Type 0 where
  pub regime : String
  pub family_quotas : Dict ℕ
  pub symbol_quotas : Dict ℕ
  pub plan : List PlanRow
  pub history_size : ℕ
  pub dominant_family : String
  pub dominant_symbol : String
  pub dominant_regime : String
  pub adaptive_multiplier : F

abbrev pub default_family_quotas : Dict ℕ
default_family_quotas = ("mean_reversion", 5) ∷ ("volatility_compression", 4) ∷ ("trend", 3) ∷ []

abbrev pub default_symbol_quotas : Dict ℕ
default_symbol_quotas = ("BTC/USDT", 4) ∷ ("ETH/USDT", 4) ∷ ("SOL/USDT", 3) ∷ []

abbrev pub default_families : List String
default_families = "mean_reversion" ∷ "volatility_compression" ∷ "trend" ∷ []

abbrev pub default_symbols : List String
default_symbols = "BTC/USDT" ∷ "ETH/USDT" ∷ "SOL/USDT" ∷ []

module _ {F : Type 0} ⦃o : FloatOps F⦄ where
  abbrev pub biases : F → F → F → List String → Dict F
  biases a b c (x ∷ y ∷ z ∷ []) = (x, a) ∷ (y, b) ∷ (z, c) ∷ []
  biases a b c _ = []

  abbrev pub regime_family_bias : Dict (Dict F)
  regime_family_bias =
      ("trend", biases (decimal 78 2) (decimal 98 2) (decimal 135 2) default_families)
      ∷ ("mean_reversion", biases (decimal 135 2) (decimal 105 2) (decimal 72 2) default_families)
      ∷ (
        "volatility_compression",
        biases (decimal 92 2) (decimal 145 2) (decimal 82 2) default_families,
      )
      ∷ ("adaptive", biases (decimal 105 2) (decimal 10 1) (decimal 95 2) default_families)
      ∷ []

  abbrev pub regime_symbol_bias : Dict (Dict F)
  regime_symbol_bias =
      ("trend", biases (decimal 110 2) (decimal 105 2) (decimal 108 2) default_symbols)
      ∷ ("mean_reversion", biases (decimal 115 2) (decimal 110 2) (decimal 95 2) default_symbols)
      ∷ (
        "volatility_compression",
        biases (decimal 100 2) (decimal 118 2) (decimal 112 2) default_symbols,
      )
      ∷ ("adaptive", biases (decimal 10 1) (decimal 10 1) (decimal 10 1) default_symbols)
      ∷ []

  -- `TABLE.get(regime, TABLE["adaptive"])`
  abbrev pub bias_for : Dict (Dict F) → String → Dict F
  bias_for table regime = or_else (lookup regime table) (or_else (lookup "adaptive" table) [])

-- `counter[k]` and `counter[k] += 1`
abbrev pub count_at : String → Dict ℕ → ℕ
count_at k d = or_else (lookup k d) 0

abbrev pub counts_from : List String → Dict ℕ → Dict ℕ
counts_from [] d = d
counts_from (k ∷ ks) d = counts_from ks (insert k (count_at k d + 1) d)

-- `base[key] = max(0, int(value))` for each given quota
abbrev pub nonnegative : ℤ → ℕ
nonnegative (pos n) = n
nonnegative (negsuc n) = 0

unfoldable pub override_quotas : Dict ℤ → Dict ℕ → Dict ℕ
override_quotas [] base = base
override_quotas ((k, v) ∷ given) base = override_quotas given (insert k (nonnegative v) base)

module _ {F : Type 0} (ops : TunerOps F) where
  -- `(count, key)` of the first is below that of the second
  abbrev pub is_below : String × ℕ → String × ℕ → Bool
  is_below (j, m) (k, n) = if m == n then ops.text_lt j k else ltb m n

  abbrev pub largest_of : String × ℕ → Dict ℕ → String × ℕ
  largest_of best [] = best
  largest_of best (x ∷ d) = largest_of (if is_below best x then x else best) d

  unfoldable pub dominant_key : Dict ℕ → String
  dominant_key [] = "unknown"
  dominant_key (x ∷ d) = (largest_of x d).0

  -- the loop over `REGIME_FAMILY_PRIORITY`
  abbrev pub first_near : List String → ℕ → Dict ℕ → String → String
  first_near [] best counts default = default
  first_near (family ∷ families) best counts default =
      let n = count_at family counts in
      let near = if ltb (best - 1) 1 then 1 else best - 1 in
      if ltb 0 n && (if n == best then true else leb near n)
      then family
      else first_near families best counts default

  unfoldable pub priority_family : Dict ℕ → String
  priority_family [] = "unknown"
  priority_family (x ∷ d) =
      let (key, best) = largest_of x d in first_near default_families best (x ∷ d) key

  module _ ⦃o : FloatOps F⦄ ⦃t : TextOps⦄ where
    abbrev pub regime_name : Candidate F → String
    regime_name r = lower (text_or "adaptive" r.regime)

    abbrev pub family_name : Candidate F → String
    family_name r = lower (text_or "unknown" r.family)

    abbrev pub knows_regime : String → Bool
    knows_regime regime = contains regime (regime_family_bias {F = F})

    -- `infer_regime` for a history that is not empty
    abbrev pub regime_from : Dict ℕ → Dict ℕ → String → String
    regime_from families regimes fallback =
        let pressure = priority_family families in
        let dominant = dominant_key regimes in
        if knows_regime pressure
        then pressure
        else if knows_regime dominant && not (str_eq dominant "adaptive")
        then dominant
        else if leb (count_at "trend" families + 1) (count_at "mean_reversion" families)
        then "mean_reversion"
        else if leb (count_at "trend" families) (count_at "volatility_compression" families)
        then "volatility_compression"
        else fallback

    unfoldable pub infer_regime : List (Candidate F) → String → String
    infer_regime [] fallback = fallback
    infer_regime (r ∷ rs) fallback =
        regime_from (counts_from (map family_name (r ∷ rs)) [])
          (counts_from (map regime_name (r ∷ rs)) []) fallback

    -- the score of a row of the history
    abbrev pub history_score : Candidate F → F
    history_score r =
        let score = or_else r.validation_score (decimal 0 0) in
        if le score (decimal 0 0) then or_else r.robustness_score (decimal 0 0) else score

    abbrev pub scores_from :
        (Candidate F → String) → List (Candidate F) → Dict (List F) → Dict (List F)
    scores_from name [] d = d
    scores_from name (r ∷ rs) d = scores_from name rs (
        if lt (decimal 0 0) (history_score r)
        then insert (name r) (or_else (lookup (name r) d) [] ++ history_score r ∷ []) d
        else d)

    -- `(mean, len, key)` of the first is below that of the second
    abbrev pub is_worse : String × List F → String × List F → Bool
    is_worse (j, xs) (k, ys) =
        let a = ops.mean xs in
        let b = ops.mean ys in
        if le a b && le b a then is_below (j, length xs) (k, length ys) else lt a b

    abbrev pub best_of : String × List F → Dict (List F) → String
    best_of (k, xs) [] = k
    best_of best (x ∷ d) = best_of (if is_worse best x then x else best) d

    -- the bias with the bonus of the best name of the history
    abbrev pub reward : F → Dict (List F) → Dict F → Dict F
    reward bonus [] bias = bias
    reward bonus (x ∷ d) bias =
        let best = best_of x d in
        insert best (add (or_else (lookup best bias) (decimal 10 1)) bonus) bias

    abbrev pub weighted_round : ℕ → F → ℕ
    weighted_round base multiplier = nonnegative (ops.round_int (mul (decimal base 0) multiplier))

    -- a tuned quota: one that was positive stays so
    abbrev pub tuned_count : Dict F → String → ℕ → ℕ
    tuned_count bias k n =
        let m = weighted_round n (or_else (lookup k bias) (decimal 10 1)) in
        if ltb 0 n && m == 0 then 1 else m

    unfoldable pub tune_quotas : Dict F → Dict ℕ → Dict ℕ
    tune_quotas bias [] = []
    tune_quotas bias ((k, n) ∷ base) = (k, tuned_count bias k n) ∷ tune_quotas bias base

    unfoldable pub tune_family_quotas : String → Dict ℤ → List (Candidate F) → Dict ℕ
    tune_family_quotas regime given history =
        tune_quotas
          (reward (decimal 15 2) (scores_from family_name history [])
            (bias_for regime_family_bias (lower (text_or "adaptive" (some regime)))))
          (override_quotas given default_family_quotas)

    unfoldable pub tune_symbol_quotas : String → Dict ℤ → List (Candidate F) → Dict ℕ
    tune_symbol_quotas regime given history =
        tune_quotas
          (reward (decimal 10 2) (scores_from (λ r. text_or "" r.symbol) history [])
            (bias_for regime_symbol_bias (lower (text_or "adaptive" (some regime)))))
          (override_quotas given default_symbol_quotas)

    -- the tuned quotas as the plan takes them
    abbrev pub as_given : Dict ℕ → Dict (Option ℤ)
    as_given d = map (λ x. (x.0, some (pos (x.1)))) d

    unfoldable pub build_regime_quota_plan :
        ℕ → String → Dict ℤ → Dict ℤ → List (Candidate F) → List PlanRow
    build_regime_quota_plan iterations regime families symbols history =
        build_generation_quota_plan iterations default_families default_symbols
          (as_given (tune_family_quotas regime families history))
          (as_given (tune_symbol_quotas regime symbols history))

    abbrev pub multiplier_of : String → F
    multiplier_of regime =
        or_else
          (lookup regime (
            ("trend", decimal 115 2)
            ∷ ("mean_reversion", decimal 112 2)
            ∷ ("volatility_compression", decimal 118 2)
            ∷ []))
          (decimal 10 1)

    unfoldable pub regime_quota_report :
        ℕ → String → Dict ℤ → Dict ℤ → List (Candidate F) → RegimeQuotaReport F
    regime_quota_report iterations regime families symbols history =
        let plan = build_regime_quota_plan iterations regime families symbols history in
        let dominant = infer_regime history regime in
        record {
          regime = regime;
          family_quotas = tune_family_quotas regime families history;
          symbol_quotas = tune_symbol_quotas regime symbols history;
          plan = plan;
          history_size = length history;
          dominant_family = dominant_key (counts_from (map (λ x. x.family) plan) []);
          dominant_symbol = dominant_key (counts_from (map (λ x. x.symbol) plan) []);
          dominant_regime = dominant;
          adaptive_multiplier = round (multiplier_of dominant) 4;
        }
