-- ===== src/Broker/Telemetry.antt =====
-- ver9/execution.py: `_build_telemetry`, its loop over the orders and the numbers it makes of the
-- tally.
use crypto_trader_ver_9_alph.Prelude.{
  ℕ, ◌+◌, ◌==◌, Option, none, some, List, [], ◌∷◌, ◌++◌, map, String, length, or_else, is_some,
  str_eq, if◌then◌else◌,
}
use mathlib.Core.Option
use crypto_trader_ver_9_alph.Prelude.Dict.{Dict, lookup, insert, mem, keys}
use crypto_trader_ver_9_alph.Prelude.Float.{
  FloatOps, decimal, add, sub, mul, div, round, abs, max, min,
}
use crypto_trader_ver_9_alph.Basket.{zero_float, one_float}
use crypto_trader_ver_9_alph.Broker.{
  OrderRequest, ExecutionResult, RejectedOrder, AcceptanceRow, StrategyStats, RejectionTelemetry,
  BrokerOps, ratio_of, slippage_bps, has_key,
}

-- The counters of the loop.
pub record Tally (F : Type 0) : Type 0 where
  pub request_by_strategy : Dict ℕ
  pub fill_by_strategy : Dict ℕ
  pub reject_by_strategy : Dict ℕ
  pub slippage_by_strategy : Dict (List F)
  pub rejection_reasons : Dict ℕ
  pub acceptance_history : List (AcceptanceRow F)

abbrev pub no_tally : {F : Type 0} → Tally F
no_tally = record {
  request_by_strategy = [];
  fill_by_strategy = [];
  reject_by_strategy = [];
  slippage_by_strategy = [];
  rejection_reasons = [];
  acceptance_history = [];
}

-- `counter[k]` and `counter[k] += 1`
abbrev pub count_in : String → Dict ℕ → ℕ
count_in k d = or_else (lookup k d) 0

abbrev pub bump : String → Dict ℕ → Dict ℕ
bump k d = insert k (count_in k d + 1) d

-- the keys of a set's members, each once
abbrev pub join_keys : List String → List String → List String
join_keys [] ks = ks
join_keys (j ∷ js) ks = join_keys js (if mem j ks then ks else ks ++ j ∷ [])

abbrev pub flatten : {A : Type 0} → Dict (List A) → List A
flatten [] = []
flatten ((k, xs) ∷ d) = xs ++ flatten d

module _ {F : Type 0} ⦃o : FloatOps F⦄ where
  -- `fills_by_key.get(key)`: the last fill with the key
  unfoldable pub fill_for : OrderRequest F → List (ExecutionResult F) → Option (ExecutionResult F)
  fill_for r [] = none
  fill_for r (f ∷ fs) =
      let later = fill_for r fs in
      if is_some later then later else if has_key r f then some f else none

  -- the reason of the first rejection of the order's strategy
  unfoldable pub reason_for : OrderRequest F → List (RejectedOrder F) → String
  reason_for r [] = "unfilled"
  reason_for r (x ∷ xs) =
      if str_eq (x.strategy_id) (r.strategy_id) then x.reason else reason_for r xs

  module _ (ops : BrokerOps F) where
    abbrev pub acceptance_row :
        OrderRequest F → Option (ExecutionResult F) → Option String → AcceptanceRow F
    acceptance_row r fill reason = record {
      strategy_id = r.strategy_id;
      symbol = r.symbol;
      side = r.side;
      requested_quantity = round r.quantity 8;
      expected_price = Option.map (λ p. round p 4) r.price;
      fill_price = Option.map (λ f. round f.average_fill_price 4) fill;
      accepted = is_some fill;
      fill_ratio = round (ratio_of ops r) 4;
      slippage_bps = Option.map (λ f. round (slippage_bps r.price f.average_fill_price) 4) fill;
      rejection_reason = reason;
    }

    -- the body of the loop
    unfoldable pub tally_order :
        List (ExecutionResult F) → List (RejectedOrder F) → OrderRequest F → Tally F → Tally F
    tally_order fills rejections r t =
        let id = r.strategy_id in
        elim (fill_for r fills) [
          | some f ↦
              let slippage = round (slippage_bps r.price f.average_fill_price) 4 in
              record t {
                request_by_strategy = bump id t.request_by_strategy;
                fill_by_strategy = bump id t.fill_by_strategy;
                slippage_by_strategy =
                    insert id (or_else (lookup id t.slippage_by_strategy) [] ++ slippage ∷ [])
                      t.slippage_by_strategy;
                acceptance_history = t.acceptance_history ++ acceptance_row r (some f) none ∷ [];
              }
          | none ↦
              let reason = reason_for r rejections in
              record t {
                request_by_strategy = bump id t.request_by_strategy;
                reject_by_strategy = bump id t.reject_by_strategy;
                rejection_reasons =
                    bump (if str_eq reason "" then "unfilled" else reason) t.rejection_reasons;
                acceptance_history =
                    t.acceptance_history ++ acceptance_row r none (some reason) ∷ [];
              }
        ]

    unfoldable pub tally_orders :
        List (ExecutionResult F)
        → List (RejectedOrder F)
        → List (OrderRequest F)
        → Tally F
        → Tally F
    tally_orders fills rejections [] t = t
    tally_orders fills rejections (r ∷ rs) t =
        tally_orders fills rejections rs (tally_order fills rejections r t)

    -- `a / b if b else 0.0`, and the mean of the slippages
    abbrev pub rate : ℕ → ℕ → F
    rate a b = if b == 0 then zero_float else div (decimal a 0) (decimal b 0)

    abbrev pub average : List F → F
    average [] = zero_float
    average (x ∷ xs) = div (ops.total (x ∷ xs)) (decimal (length (x ∷ xs)) 0)

    -- `1.0 - min(abs(slippage) / 250.0, 1.0)`
    abbrev pub smoothness : F → F
    smoothness slippage = sub one_float (min (div (abs slippage) (decimal 2500 1)) one_float)

    unfoldable pub strategy_stats : Tally F → String → StrategyStats F
    strategy_stats t id =
        let requested = count_in id t.request_by_strategy in
        let filled = count_in id t.fill_by_strategy in
        let fill_rate = rate filled requested in
        let slippage = average (or_else (lookup id t.slippage_by_strategy) []) in
        record {
          requested_orders = requested;
          filled_orders = filled;
          rejected_orders = count_in id t.reject_by_strategy;
          fill_rate = round fill_rate 6;
          average_slippage_bps = round slippage 4;
          execution_quality_score =
              round
                (max zero_float
                  (add (mul fill_rate (decimal 55 2)) (mul (smoothness slippage) (decimal 45 2))))
                6;
        }

    abbrev pub strategies_of : Tally F → List String
    strategies_of t = ops.sorted (
        join_keys (keys t.reject_by_strategy)
          (join_keys (keys t.fill_by_strategy) (join_keys (keys t.request_by_strategy) [])))

    unfoldable pub per_strategy_stats : Tally F → Dict (StrategyStats F)
    per_strategy_stats t = map (λ id. (id, strategy_stats t id)) (strategies_of t)

    abbrev pub rejection_telemetry : Tally F → List (RejectedOrder F) → RejectionTelemetry
    rejection_telemetry t rejections = record {
      reasons = t.rejection_reasons;
      total_rejections = length rejections;
      unique_strategies_rejected = length t.reject_by_strategy;
    }

    unfoldable pub overall_fill_rate : List (OrderRequest F) → List (ExecutionResult F) → F
    overall_fill_rate orders fills = round (rate (length fills) (length orders)) 6

    abbrev pub overall_slippage : Tally F → F
    overall_slippage t = round (average (flatten t.slippage_by_strategy)) 4

    unfoldable pub overall_quality : List (OrderRequest F) → List (RejectedOrder F) → F → F → F
    overall_quality orders rejections fill_rate slippage =
        round
          (max zero_float (
            min one_float (
              add (add (mul fill_rate (decimal 5 1)) (mul (smoothness slippage) (decimal 35 2)))
                (mul (sub one_float (rate (length rejections) (length orders))) (decimal 15 2)))))
          6
