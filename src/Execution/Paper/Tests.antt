-- ===== src/Execution/Paper/Tests.antt =====
-- Runs of the paper session, and its theorems at concrete inputs.
use crypto_trader_ver_9_alph.Prelude.{ℕ, ◌+◌, refl, inr, List, [], ◌∷◌, String, arith}
use crypto_trader_ver_9_alph.Prelude.Int.{ℤ, pos}
use crypto_trader_ver_9_alph.Prelude.Dict.{lookup}
use crypto_trader_ver_9_alph.Prelude.Fixed.{fixed}
use crypto_trader_ver_9_alph.Execution.Simulator.{
  filled, SimulatedFill, SimulatedOrder, Random, Statistics, ExecutionSimulator, simulate,
  simulate_fill_quantity, simulate_slippage, execute_order, execute_orders,
}
use crypto_trader_ver_9_alph.Execution.Paper.{PaperSession, process_orders}
use crypto_trader_ver_9_alph.Execution.Paper.Account.{
  SumAbove, IsSound, Answered, process_orders-IsSound,
}

fixed-SumAbove : SumAbove ℤ
fixed-SumAbove = record { sum_above = λ a b p q. ground arith }

-- a generator that never rejects and never fills in part
abbrev steady : Random ℕ ℤ
steady = record {
  draw = λ r. (pos 500000, r + 1);
  uniform = λ a b r. (a, r + 1);
  randint = λ a b r. (a, r + 1);
}

abbrev no_statistics : Statistics ℤ
no_statistics = record { mean = λ xs. pos 0; mean_int = λ xs. pos 0; total = λ xs. pos 0 }

abbrev simulator : ExecutionSimulator ℤ
simulator = record {
  fee_rate = pos 400;
  base_slippage_pct = pos 800;
  latency_range_ms = (20, 250);
  partial_fill_probability = pos 80000;
  rejection_probability = pos 10000;
}

abbrev order : String → SimulatedOrder ℤ
order side = record {
  strategy_id = "s1";
  symbol = "BTC/USDT";
  side = side;
  order_type = "market";
  requested_quantity = pos 2000000;
  requested_price = pos 100000000;
  confidence = pos 500000;
  timestamp = "t";
}

abbrev session : PaperSession ℤ
session = record {
  account = record {
    total_equity = pos 1000000000;
    available_cash = pos 1000000000;
    positions = [];
  };
  statistics = record {
    submitted_orders = 0;
    processed_fills = 0;
    rejected_orders = 0;
    cumulative_fees = pos 0;
  };
  execution_history = [];
}

abbrev orders : List (SimulatedOrder ℤ)
orders = order "buy" ∷ order "sell" ∷ []

session-IsSound : IsSound session
unfolding lookup
session-IsSound = (λ k p e. ground arith, refl, (refl, refl))

process_orders-IsSound_example :
    Answered simulator orders session
      (process_orders steady simulator no_statistics orders (session, 0))
unfolding simulate simulate_fill_quantity simulate_slippage execute_order execute_orders
process_orders-IsSound_example =
    process_orders-IsSound fixed-SumAbove steady simulator no_statistics orders session 0
      (inr refl, (inr refl, tt)) session-IsSound

abbrev sale : SimulatedFill ℤ
sale = record {
  strategy_id = "s1";
  symbol = "BTC/USDT";
  side = "sell";
  requested_quantity = pos 2000000;
  filled_quantity = pos 2000000;
  requested_price = pos 100000000;
  executed_price = pos 100000000;
  slippage_pct = pos 0;
  fees_paid = pos 80000;
  latency_ms = 20;
  status = filled;
  timestamp = "t";
}

-- nothing is held
