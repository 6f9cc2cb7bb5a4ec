-- ===== src/Execution/Simulator.antt =====
-- ver9/execution/simulator: the models and the execution simulator. The random generator
-- (`random.Random`) is a parameter: a state `R` with the three draws that the simulator makes. Of
-- `statistics.mean` and `sum` nothing is assumed. A side is the text that the order carries. Where
-- `randint` raises, on a reversed range, a call gives `none` with the state that it has left.
pub mod Orders
mod Tests
use crypto_trader_ver_9_alph.Prelude.{
  ℕ, ◌+◌, Bool, true, false, Option, none, some, ltb, List, [], ◌∷◌, map, String, length, select,
  str_eq, if◌then◌else◌,
}
use crypto_trader_ver_9_alph.Prelude.Float.{FloatOps, decimal, add, sub, mul, div, lt, round, max}

pub data FillStatus : Type 0 where
  filled partial rejected : FillStatus

pub record SimulatedOrder (F : Type 0) : Type 0 where
  pub strategy_id : String
  pub symbol : String
  pub side : String
  pub order_type : String
  pub requested_quantity : F
  pub requested_price : F
  pub confidence : F
  pub timestamp : String

pub record SimulatedFill (F : Type 0) : Type 0 where
  pub strategy_id : String
  pub symbol : String
  pub side : String
  pub requested_quantity : F
  pub filled_quantity : F
  pub requested_price : F
  pub executed_price : F
  pub slippage_pct : F
  pub fees_paid : F
  pub latency_ms : ℕ
  pub status : FillStatus
  pub timestamp : String

pub record ExecutionMetrics (F : Type 0) : Type 0 where
  pub total_orders : ℕ
  pub filled_orders : ℕ
  pub rejected_orders : ℕ
  pub partial_fills : ℕ
  pub average_slippage_pct : F
  pub average_latency_ms : F
  pub total_fees_paid : F
  pub fill_rate : F

pub record SimulationResult (F : Type 0) : Type 0 where
  pub fills : List (SimulatedFill F)
  pub metrics : ExecutionMetrics F

-- `random()`, `uniform(a, b)` and `randint(a, b)`
pub record Random (R F : Type 0) : Type 0 where
  pub draw : R → F × R
  pub uniform : F → F → R → F × R
  pub randint : ℕ → ℕ → R → ℕ × R

-- `mean` of floats and of integers, and `sum` of floats
pub record Statistics (F : Type 0) : Type 0 where
  pub mean : List F → F
  pub mean_int : List ℕ → F
  pub total : List F → F

-- The attributes of the simulator, but for the generator's state.
pub record ExecutionSimulator (F : Type 0) : Type 0 where
  pub fee_rate : F
  pub base_slippage_pct : F
  pub latency_range_ms : ℕ × ℕ
  pub partial_fill_probability : F
  pub rejection_probability : F

abbrev pub has_status : {F : Type 0} → FillStatus → SimulatedFill F → Bool
has_status filled fill = elim fill.status [ filled ↦ true | partial ↦ false | rejected ↦ false ]
has_status partial fill = elim fill.status [ filled ↦ false | partial ↦ true | rejected ↦ false ]
has_status rejected fill = elim fill.status [ filled ↦ false | partial ↦ false | rejected ↦ true ]

abbrev pub count_status : {F : Type 0} → FillStatus → List (SimulatedFill F) → ℕ
count_status s fills = length (select (has_status s) fills)

abbrev pub no_metrics : {F : Type 0} ⦃o : FloatOps F⦄ → ExecutionMetrics F
no_metrics = record {
  total_orders = 0;
  filled_orders = 0;
  rejected_orders = 0;
  partial_fills = 0;
  average_slippage_pct = decimal 0 0;
  average_latency_ms = decimal 0 0;
  total_fees_paid = decimal 0 0;
  fill_rate = decimal 0 0;
}

unfoldable pub build_metrics :
    {F : Type 0} ⦃o : FloatOps F⦄ → Statistics F → List (SimulatedFill F) → ExecutionMetrics F
build_metrics statistics [] = no_metrics
build_metrics statistics (fill ∷ rest) =
    let fills = fill ∷ rest in
    record {
      total_orders = length fills;
      filled_orders = count_status filled fills;
      rejected_orders = count_status rejected fills;
      partial_fills = count_status partial fills;
      average_slippage_pct = round (statistics.mean (map (λ f. f.slippage_pct) fills)) 6;
      average_latency_ms = round (statistics.mean_int (map (λ f. f.latency_ms) fills)) 4;
      total_fees_paid = round (statistics.total (map (λ f. f.fees_paid) fills)) 8;
      fill_rate =
          round
            (div (decimal (count_status filled fills + count_status partial fills) 0)
              (decimal (length fills) 0))
            6;
    }

module _ {R F : Type 0} ⦃o : FloatOps F⦄ (random : Random R F)
    (simulator : ExecutionSimulator F) where
  unfoldable pub simulate_fill_quantity : F → R → F × FillStatus × R
  simulate_fill_quantity requested r =
      let (rejection_roll, r1) = random.draw r in
      let (partial_roll, r2) = random.draw r1 in
      let (fill_ratio, r3) = random.uniform (decimal 3 1) (decimal 95 2) r2 in
      if lt rejection_roll simulator.rejection_probability
      then (decimal 0 0, rejected, r1)
      else if lt partial_roll simulator.partial_fill_probability
      then (mul requested fill_ratio, partial, r3)
      else (requested, filled, r2)

  unfoldable pub simulate_slippage : F → R → F × R
  simulate_slippage confidence r =
      let (volatility_multiplier, r') = random.uniform (decimal 5 1) (decimal 25 1) r in
      (
        mul (mul simulator.base_slippage_pct volatility_multiplier)
            (max (decimal 5 1) (sub (decimal 15 1) confidence)),
        r',
      )

  abbrev pub price_with : String → F → F → F
  price_with side price slippage_pct =
      if str_eq side "buy"
      then mul price (add (decimal 1 0) slippage_pct)
      else mul price (sub (decimal 1 0) slippage_pct)

  -- one round of the loop of `execute`
  unfoldable pub execute_order : SimulatedOrder F → R → Option (SimulatedFill F) × R
  execute_order order r =
      let (filled_quantity, status, r1) = simulate_fill_quantity order.requested_quantity r in
      let (slippage_pct, r2) = simulate_slippage order.confidence r1 in
      let executed_price = price_with order.side order.requested_price slippage_pct in
      let (low, high) = simulator.latency_range_ms in
      let (latency_ms, r3) = random.randint low high r2 in
      let fees_paid = mul (mul filled_quantity executed_price) simulator.fee_rate in
      if ltb high low then (none, r2) else (
        some (record {
          strategy_id = order.strategy_id;
          symbol = order.symbol;
          side = order.side;
          requested_quantity = round order.requested_quantity 8;
          filled_quantity = round filled_quantity 8;
          requested_price = round order.requested_price 8;
          executed_price = round executed_price 8;
          slippage_pct = round (mul slippage_pct (decimal 100 0)) 6;
          fees_paid = round fees_paid 8;
          latency_ms = latency_ms;
          status = status;
          timestamp = order.timestamp;
        }),
        r3,
      )

  unfoldable pub execute_orders : List (SimulatedOrder F) → R → Option (List (SimulatedFill F)) × R
  execute_orders [] r = (some [], r)
  execute_orders (order ∷ orders) r =
      let (fill, r') = execute_order order r in
      elim fill [
        | none ↦ (none, r')
        | some f ↦
            let (rest, r'') = execute_orders orders r' in
            (elim rest [ none ↦ none | some fills ↦ some (f ∷ fills) ], r'')
      ]

  unfoldable pub simulate :
      Statistics F → List (SimulatedOrder F) → R → Option (SimulationResult F) × R
  simulate statistics orders r =
      let (executed, r') = execute_orders orders r in
      (
        elim executed [
          | none ↦ none
          | some fills ↦ some (record { fills = fills; metrics = build_metrics statistics fills })
        ],
        r',
      )
