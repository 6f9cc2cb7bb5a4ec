-- ===== src/Execution/Simulator/Orders.antt =====
-- What the fills of the simulator say of the orders.
use crypto_trader_ver_9_alph.Prelude.{
  ◌+◌, ◌<◌, ◌≤◌, ◌≡◌, refl, ◌∙◌, ◌⊎◌, inl, inr, Option, none, some, ltb, Bool-cases, if◌then◌else◌,
  Bool, true, false, List, [], ◌∷◌, length, arith,
}
use crypto_trader_ver_9_alph.Prelude.Float.{FloatOps, decimal, mul, lt, round}
use crypto_trader_ver_9_alph.Execution.Simulator.{
  FillStatus, filled, partial, rejected, SimulatedOrder, SimulatedFill, SimulationResult, Random,
  Statistics, ExecutionSimulator, count_status, build_metrics, simulate_fill_quantity,
  simulate_slippage, execute_order, execute_orders, simulate,
}

module _ {F : Type 0} where
  -- Each status is exactly one of the three.
  pub statuses_add :
      (fills : List (SimulatedFill F))
      → count_status filled fills + count_status partial fills + count_status rejected fills
        ≡ length fills
  statuses_add [] = omega arith
  statuses_add (fill ∷ fills) = ground (arith, statuses_add fills)

module _ {R F : Type 0} ⦃o : FloatOps F⦄ (random : Random R F)
    (simulator : ExecutionSimulator F) where
  -- The draws for a quantity from a state on, by the status of the fill: what the rolls were, the
  -- quantity and the state that they leave.
  abbrev pub Rolled : F → FillStatus → F → R → R → Type 0
  Rolled requested status q r s =
      let (rejection_roll, r1) = random.draw r in
      let (partial_roll, r2) = random.draw r1 in
      let (ratio, r3) = random.uniform (decimal 3 1) (decimal 95 2) r2 in
      elim status [
        | rejected ↦
            (lt rejection_roll simulator.rejection_probability ≡ true)
            × (q ≡ round (decimal 0 0) 8)
            × (s ≡ r1)
        | partial ↦
            (lt rejection_roll simulator.rejection_probability ≡ false)
            × (lt partial_roll simulator.partial_fill_probability ≡ true)
            × (q ≡ round (mul requested ratio) 8)
            × (s ≡ r3)
        | filled ↦
            (lt rejection_roll simulator.rejection_probability ≡ false)
            × (lt partial_roll simulator.partial_fill_probability ≡ false)
            × (q ≡ round requested 8)
            × (s ≡ r2)
      ]

  -- A fill that answers an order, by the draws from one state to another: those for its quantity,
  -- one for its slippage and one for its latency, in a range that is not reversed.
  pub record Answers (order : SimulatedOrder F) (fill : SimulatedFill F) (r s : R) : Type 0 where
    pub same_strategy : fill.strategy_id ≡ order.strategy_id
    pub same_symbol : fill.symbol ≡ order.symbol
    pub same_side : fill.side ≡ order.side
    pub same_timestamp : fill.timestamp ≡ order.timestamp
    pub rolled_state : R
    pub quantity : Rolled order.requested_quantity fill.status fill.filled_quantity r rolled_state
    pub range : simulator.latency_range_ms.0 ≤ simulator.latency_range_ms.1
    pub latency :
        random.randint simulator.latency_range_ms.0 simulator.latency_range_ms.1
          (random.uniform (decimal 5 1) (decimal 25 1) rolled_state).1
        ≡ (fill.latency_ms, s)

  -- The fills answer the orders, one each and in their order, by the draws from one state to
  -- another.
  abbrev pub AllAnswer : List (SimulatedOrder F) → List (SimulatedFill F) → R → R → Type 0
  AllAnswer [] [] r s = s ≡ r
  AllAnswer [] (f ∷ fills) r s = ⊥
  AllAnswer (order ∷ orders) [] r s = ⊥
  AllAnswer (order ∷ orders) (fill ∷ fills) r s =
      (t : R) × Answers order fill r t × AllAnswer orders fills t s

  by_roll :
      (q : F) (r : R) (b c : Bool)
      → let (rejection_roll, r1) = random.draw r in
        let (partial_roll, r2) = random.draw r1 in
        let (ratio, r3) = random.uniform (decimal 3 1) (decimal 95 2) r2 in
        let x : F × FillStatus × R =
          (if b
            then (decimal 0 0, rejected, r1)
            else if c
            then (mul q ratio, partial, r3)
            else (q, filled, r2)) in
        lt rejection_roll simulator.rejection_probability ≡ b
        → lt partial_roll simulator.partial_fill_probability ≡ c
        → Rolled q x.1 (round x.0 8) r x.2
  by_roll q r true c e f = (e, refl, refl)
  by_roll q r false true e f = (e, f, refl, refl)
  by_roll q r false false e f = (e, f, refl, refl)

  simulate_fill_quantity-Rolled :
      (q : F) (r : R)
      → let (p, s, r') = simulate_fill_quantity random simulator q r in Rolled q s (round p 8) r r'
  unfolding simulate_fill_quantity
  simulate_fill_quantity-Rolled q r =
      let (rejection_roll, r1) = random.draw r in
      let (partial_roll, r2) = random.draw r1 in
      by_roll q r (lt rejection_roll simulator.rejection_probability)
        (lt partial_roll simulator.partial_fill_probability) refl refl

  abbrev is_reversed : Bool
  is_reversed = ltb simulator.latency_range_ms.1 simulator.latency_range_ms.0

  -- An order is answered, unless the range of the latency is reversed.
  abbrev Executed : SimulatedOrder F → R → Option (SimulatedFill F) × R → Type 0
  Executed order r (fill, s) =
      ((fill ≡ none) × (is_reversed ≡ true))
      ⊎ ((f : SimulatedFill F) × (fill ≡ some f) × (is_reversed ≡ false) × Answers order f r s)

  execute_order-Executed :
      (order : SimulatedOrder F) (r : R) → Executed order r (execute_order random simulator order r)
  unfolding execute_order simulate_slippage
  execute_order-Executed order r = elim (Bool-cases is_reversed) [
    | inl e ↦ rw e (inl (refl, refl))
    | inr e ↦
        let rolled = simulate_fill_quantity-Rolled order.requested_quantity r in
        let range : simulator.latency_range_ms.0 ≤ simulator.latency_range_ms.1 =
          ground (arith, e) in
        rw e (
          inr (
            _,
            refl,
            refl,
            record {
              same_strategy = refl;
              same_symbol = refl;
              same_side = refl;
              same_timestamp = refl;
              rolled_state = (simulate_fill_quantity random simulator order.requested_quantity r).2;
              quantity = rolled;
              range = range;
              latency = refl;
            },
          ))
  ]

  -- The orders are answered, unless there is one and the range of the latency is reversed.
  abbrev pub AllExecuted :
      List (SimulatedOrder F) → R → Option (List (SimulatedFill F)) × R → Type 0
  AllExecuted orders r (executed, s) =
      ((executed ≡ none)
        × (simulator.latency_range_ms.1 < simulator.latency_range_ms.0)
        × (1 ≤ length orders))
      ⊎ ((fills : List (SimulatedFill F)) × (executed ≡ some fills) × AllAnswer orders fills r s)

  pub execute_orders-AllExecuted :
      (orders : List (SimulatedOrder F)) (r : R)
      → AllExecuted orders r (execute_orders random simulator orders r)
  unfolding execute_orders
  execute_orders-AllExecuted [] r = inr ([], refl, refl)
  execute_orders-AllExecuted (order ∷ orders) r = elim (execute_order-Executed order r) [
    | inl (n, e) ↦ rw (n, execute_orders) (inl (refl, ground (arith, e), omega arith))
    | inr (f, n, e, a) ↦
        let t = (execute_order random simulator order r).1 in
        elim (execute_orders-AllExecuted orders t) [
          | inl (m, l, k) ↦ absurd (ground (arith, e, l))
          | inr (fills, m, b) ↦ rw (n, execute_orders, m) (inr (f ∷ fills, refl, (t, a, b)))
        ]
  ]

  pub length-AllAnswer :
      (orders : List (SimulatedOrder F)) (fills : List (SimulatedFill F)) (r s : R)
      → AllAnswer orders fills r s
      → length fills ≡ length orders
  length-AllAnswer [] [] r s a = refl
  length-AllAnswer [] (f ∷ fills) r s a = absurd a
  length-AllAnswer (order ∷ orders) [] r s a = absurd a
  length-AllAnswer (order ∷ orders) (f ∷ fills) r s (t, a, b) =
      omega (arith, length-AllAnswer orders fills t s b)

  metrics_add :
      (statistics : Statistics F) (fills : List (SimulatedFill F))
      → let m = build_metrics statistics fills in
        (m.total_orders ≡ length fills)
        × (m.filled_orders + m.partial_fills + m.rejected_orders ≡ length fills)
  unfolding build_metrics
  metrics_add statistics [] = (refl, refl)
  metrics_add statistics (fill ∷ fills) = (refl, statuses_add (fill ∷ fills))

  -- What a simulation of some orders from a state gives: nothing, on a reversed range, or a fill
  -- for each order and metrics that count every order once.
  abbrev pub Simulated : List (SimulatedOrder F) → R → Option (SimulationResult F) × R → Type 0
  Simulated orders r (simulation, s) =
      ((simulation ≡ none)
        × (simulator.latency_range_ms.1 < simulator.latency_range_ms.0)
        × (1 ≤ length orders))
      ⊎ ((result : SimulationResult F) × (simulation ≡ some result)
          × AllAnswer orders result.fills r s
          × (result.metrics.total_orders ≡ length orders)
          × (result.metrics.filled_orders + result.metrics.partial_fills
                + result.metrics.rejected_orders
              ≡ length orders))

  -- A simulation raises exactly if there is an order and the range of the latency is reversed. Else
  -- it answers every order with one fill, in the order of the orders: of the same strategy, symbol,
  -- side and time stamp, rejected with the quantity 0 if the first draw is below the probability of
  -- a rejection, else partial if the second draw is below that of a partial fill, with the
  -- requested quantity times a third draw between 0.3 and 0.95, else filled with the requested
  -- quantity, each rounded to eight digits, and with the latency drawn after that of the slippage;
  -- the draws for an order start where those for the one before it ended; and the metrics count
  -- every order once, as filled, partial or rejected.
  pub simulate-AllAnswer :
      (statistics : Statistics F) (orders : List (SimulatedOrder F)) (r : R)
      → Simulated orders r (simulate random simulator statistics orders r)
  unfolding simulate
  simulate-AllAnswer statistics orders r = elim (execute_orders-AllExecuted orders r) [
    | inl (e, l, k) ↦ rw (e, simulate) (inl (refl, l, k))
    | inr (fills, e, a) ↦
        let (total, sum) = metrics_add statistics fills in
        let n = length-AllAnswer orders fills r (execute_orders random simulator orders r).1 a in
        rw (e, simulate) (inr (_, refl, a, total ∙ n, sum ∙ n))
  ]
