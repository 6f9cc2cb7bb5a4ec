-- ===== src/Execution/Simulator/Tests.antt =====
-- A run of the simulator, with a generator that counts its draws.
use crypto_trader_ver_9_alph.Prelude.{
  ℕ, ◌+◌, ◌*◌, ◌≡◌, refl, Option, none, some, List, [], ◌∷◌, map,
}
use crypto_trader_ver_9_alph.Prelude.Int.{ℤ, pos}
use crypto_trader_ver_9_alph.Prelude.Fixed.{fixed}
use crypto_trader_ver_9_alph.Execution.Simulator.{
  FillStatus, filled, rejected, SimulationResult, SimulatedOrder, Random, Statistics,
  ExecutionSimulator, simulate, execute_order, execute_orders, simulate_fill_quantity,
  simulate_slippage, build_metrics,
}
use crypto_trader_ver_9_alph.Execution.Simulator.Orders.{Simulated, simulate-AllAnswer}

-- draws 0, 50000, 100000, ... millionths
abbrev counting : Random ℕ ℤ
counting = record {
  draw = λ r. (pos (r * 50000), r + 1);
  uniform = λ a b r. (a, r + 1);
  randint = λ a b r. (a, r + 1);
}

abbrev no_statistics : Statistics ℤ
no_statistics = record { mean = λ xs. pos 0; mean_int = λ xs. pos 0; total = λ xs. pos 0 }

abbrev simulator : ExecutionSimulator ℤ
simulator = record {
  fee_rate = pos 400;
  base_slippage_pct = pos 800;
  latency_range_ms = (20, 250);
  partial_fill_probability = pos 80000;
  rejection_probability = pos 10000;
}

abbrev order : SimulatedOrder ℤ
order = record {
  strategy_id = "s1";
  symbol = "BTC/USDT";
  side = "buy";
  order_type = "market";
  requested_quantity = pos 2000000;
  requested_price = pos 100000000;
  confidence = pos 500000;
  timestamp = "t";
}

abbrev statuses : Option (SimulationResult ℤ) → List FillStatus
statuses none = []
statuses (some result) = map (λ f. f.status) result.fills

-- the first order is rejected on the draw 0; the second is filled
rejected_then_filled :
    statuses (simulate counting simulator no_statistics (order ∷ order ∷ []) 0).0
    ≡ rejected ∷ filled ∷ []
unfolding simulate execute_order execute_orders simulate_fill_quantity simulate_slippage
    build_metrics
rejected_then_filled = refl

-- a reversed range raises, after the draws for the quantity and the slippage
reversed_range :
    simulate counting
      (record simulator { latency_range_ms = (250, 20) })
      no_statistics
      (order ∷ order ∷ [])
      0
    ≡ (none, 2)
unfolding simulate execute_order execute_orders simulate_fill_quantity simulate_slippage
reversed_range = refl

simulate-AllAnswer_example :
    Simulated counting simulator
      (order ∷ order ∷ [])
      0
      (simulate counting simulator no_statistics (order ∷ order ∷ []) 0)
simulate-AllAnswer_example =
    simulate-AllAnswer counting simulator no_statistics (order ∷ order ∷ []) 0
