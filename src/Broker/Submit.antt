-- ===== src/Broker/Submit.antt =====
-- ver9/execution.py: `PaperBroker.submit`, `LiveBroker.submit`, `build_orders_from_allocations` and
-- `execute_allocations`.
use crypto_trader_ver_9_alph.Prelude.{
  Bool, none, some, List, [], ◌∷◌, ◌++◌, String, length, or_else, str_append, if◌then◌else◌,
}
use crypto_trader_ver_9_alph.Prelude.Dict.{mem}
use crypto_trader_ver_9_alph.Prelude.Float.{
  FloatOps, decimal, add, sub, mul, div, lt, le, round, max,
}
use crypto_trader_ver_9_alph.Basket.{zero_float}
use crypto_trader_ver_9_alph.Basket.Build.{AllocationRow, AllocationDecision}
use crypto_trader_ver_9_alph.Broker.{
  OrderRequest, ExecutionResult, RejectedOrder, ExecutionSummary, BrokerOps, ratio_of, slippage_bps,
}
use crypto_trader_ver_9_alph.Broker.Telemetry.{
  no_tally, tally_orders, rejection_telemetry, per_strategy_stats, overall_fill_rate,
  overall_slippage, overall_quality,
}

pub record PaperBroker (F : Type 0) : Type 0 where
  pub equity : F
  pub fill_threshold : F

-- The variables of the loop of `submit`, and the orders, whose status it writes.
pub record Progress (F : Type 0) : Type 0 where
  pub fills : List (ExecutionResult F)
  pub rejections : List (RejectedOrder F)
  pub committed : F
  pub orders : List (OrderRequest F)

-- An allocation is a decision or a dictionary.
pub data Allocation (F : Type 0) : Type 0 where
  decision : AllocationDecision F → Allocation F
  dictionary : AllocationRow F → Allocation F

module _ {F : Type 0} ⦃o : FloatOps F⦄ (ops : BrokerOps F) where
  abbrev pub price_of : OrderRequest F → F
  price_of r = or_else r.price (add (decimal 1000 1) (mul (ratio_of ops r) (decimal 75 1)))

  abbrev pub fill_of : OrderRequest F → ExecutionResult F
  fill_of r =
      let price = price_of r in
      record {
        strategy_id = r.strategy_id;
        symbol = r.symbol;
        side = r.side;
        requested_qty = round r.quantity 8;
        filled_qty = round r.quantity 8;
        requested_price = or_else r.price price;
        average_fill_price = round price 4;
        slippage_bps = round (slippage_bps r.price price) 4;
        latency_ms = ops.truncate (add (decimal 50 0) (mul (ratio_of ops r) (decimal 150 0)));
        status = "filled";
        rejection_reason = none;
      }

  abbrev pub rejection_of : OrderRequest F → RejectedOrder F
  rejection_of r = record {
    strategy_id = r.strategy_id;
    symbol = r.symbol;
    reason = "fill_simulation_below_threshold";
    fill_ratio = round (ratio_of ops r) 4;
  }

  module _ (broker : PaperBroker F) where
    -- `ratio < self.fill_threshold`, for an order
    abbrev pub is_refused : OrderRequest F → Bool
    is_refused r = lt (ratio_of ops r) broker.fill_threshold

    -- the body of the loop
    unfoldable pub submit_order : OrderRequest F → Progress F → Progress F
    submit_order r p =
        if is_refused r
        then record p {
          rejections = p.rejections ++ rejection_of r ∷ [];
          orders = p.orders ++ record r { status = "rejected" } ∷ [];
        }
        else record p {
          fills = p.fills ++ fill_of r ∷ [];
          committed = add p.committed (mul r.quantity (price_of r));
          orders = p.orders ++ record r { status = "filled" } ∷ [];
        }

    unfoldable pub submit_orders : List (OrderRequest F) → Progress F → Progress F
    submit_orders [] p = p
    submit_orders (r ∷ rs) p = submit_orders rs (submit_order r p)

    abbrev pub no_progress : Progress F
    no_progress = record { fills = []; rejections = []; committed = zero_float; orders = [] }

    unfoldable pub submit : List (OrderRequest F) → ExecutionSummary F
    submit orders =
        let p = submit_orders orders no_progress in
        let t = tally_orders ops p.fills p.rejections p.orders no_tally in
        let fill_rate = overall_fill_rate ops p.orders p.fills in
        let slippage = overall_slippage ops t in
        let equity_after = max zero_float (sub broker.equity (mul p.committed (decimal 1 3))) in
        record {
          mode = "paper";
          requested_orders = length orders;
          filled_orders = length p.fills;
          rejected_orders = length p.rejections;
          fills = p.fills;
          rejections = p.rejections;
          acceptance_history = t.acceptance_history;
          rejection_telemetry = rejection_telemetry ops t p.rejections;
          per_strategy_stats = per_strategy_stats ops t;
          fill_rate = fill_rate;
          average_slippage_bps = slippage;
          execution_quality_score = overall_quality ops p.orders p.rejections fill_rate slippage;
          equity_before = broker.equity;
          equity_after = round equity_after 4;
          capital_committed = round p.committed 4;
        }

    -- `LiveBroker.submit`
    unfoldable pub submit_live : List (OrderRequest F) → ExecutionSummary F
    submit_live orders =
        let summary = submit orders in
        record summary {
          mode = "live";
          equity_after = max zero_float (mul summary.equity_after (decimal 9995 4));
        }

  abbrev pub order_from : F → F → String → String → String → OrderRequest F
  order_from capital pct strategy_id symbol family = record {
    strategy_id = strategy_id;
    symbol = symbol;
    side = if mem family ("mean_reversion" ∷ "volatility_compression" ∷ []) then "buy" else "buy";
    quantity = round (max zero_float (div (mul capital pct) (decimal 1000 1))) 8;
    price = some (
        add (decimal 1000 1)
          (mul (ops.stable_ratio (str_append strategy_id symbol)) (decimal 90 1)));
    order_type = "market";
    time_in_force = "ioc";
    status = "pending";
  }

  -- the body of the loop of `build_orders_from_allocations`
  unfoldable pub order_for : F → Allocation F → List (OrderRequest F)
  order_for capital (decision d) =
      if le d.weight zero_float
      then []
      else order_from capital d.weight d.strategy_id d.symbol (or_else d.metadata.family "") ∷ []
  order_for capital (dictionary a) =
      if le a.allocation_pct zero_float
      then []
      else order_from capital a.allocation_pct a.strategy_id (or_else a.symbol "")
          (or_else a.family "")
        ∷ []

  unfoldable pub build_orders : List (Allocation F) → F → List (OrderRequest F)
  build_orders [] capital = []
  build_orders (a ∷ rest) capital = order_for capital a ++ build_orders rest capital

  unfoldable pub execute_allocations : List (Allocation F) → F → Bool → ExecutionSummary F
  execute_allocations allocations capital live =
      let broker : PaperBroker F = record { equity = capital; fill_threshold = decimal 35 2 } in
      let orders = build_orders allocations capital in
      if live then submit_live broker orders else submit broker orders
