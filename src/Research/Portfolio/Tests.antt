-- ===== src/Research/Portfolio/Tests.antt =====
-- A backtest of one strategy that gains, and the theorem at that input.
use crypto_trader_ver_9_alph.Prelude.{◌≡◌, refl, true, none, some, List, [], ◌∷◌}
use crypto_trader_ver_9_alph.Prelude.Int.{ℤ, pos, negsuc}
use crypto_trader_ver_9_alph.Prelude.Dict.{lookup, insert}
use crypto_trader_ver_9_alph.Prelude.Float.{add}
use crypto_trader_ver_9_alph.Prelude.Fixed.{fixed}
use crypto_trader_ver_9_alph.Research.Portfolio.{
  Bar, Strategy, PortfolioBacktestEngine, EngineOps, run, strategy_signals, take_strategies,
  take_signals, take_signal, trade_signal, bars_of, timestamp_index, calculate_position_size,
  current_symbol_exposure, remove_position,
}
use crypto_trader_ver_9_alph.Research.Portfolio.Limits.{with_limit, reporting_limit, run-limit}

abbrev sum : List ℤ → ℤ
sum [] = pos 0
sum (x ∷ xs) = add x (sum xs)

abbrev ops : EngineOps ℤ
ops = record { total = sum; sharpe = λ xs. pos 0; same = λ p q. true }

abbrev engine : PortfolioBacktestEngine ℤ
engine = record {
  initial_capital = pos 10000000000;
  max_positions = 5;
  max_symbol_exposure_pct = pos 350000;
  risk_per_trade_pct = pos 20000;
  fee_bps = pos 0;
  slippage_bps = pos 0;
  holding_period_bars = 1;
}

abbrev frame : List (Bar ℤ)
frame =
    record { timestamp = "t0"; close = pos 100000000 }
    ∷ record { timestamp = "t1"; close = pos 120000000 }
    ∷ []

abbrev buyer : Strategy ℤ
buyer = record {
  strategy_id = "s1";
  generate_signals =
      λ bars. some (record { timestamp = "t0"; side = "buy"; confidence = pos 1000000 } ∷ []);
}

-- The capital only rises, from 10000 to 10040, and the drawdown is -0.3984 percent all the same.
drawdown_of_a_gain :
    elim (run ops engine (buyer ∷ []) frame "BTC" "1h") [
      | none ↦ []
      | some r ↦ r.max_drawdown_pct ∷ r.equity_curve
    ]
    ≡ negsuc 398399 ∷ pos 10000000000 ∷ pos 10040000000 ∷ []
unfolding run strategy_signals take_strategies take_signals take_signal trade_signal bars_of
    timestamp_index calculate_position_size current_symbol_exposure remove_position lookup insert
drawdown_of_a_gain = refl

run-limit_example :
    run ops (with_limit 1 engine) (buyer ∷ []) frame "BTC" "1h"
    ≡ reporting_limit 1 (run ops (with_limit 5 engine) (buyer ∷ []) frame "BTC" "1h")
run-limit_example = run-limit ops (λ p. refl) engine frame "BTC" 0 4 (buyer ∷ []) "1h"
