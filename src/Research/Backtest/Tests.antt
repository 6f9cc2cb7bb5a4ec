-- ===== src/Research/Backtest/Tests.antt =====
-- A signal to sell on a rising frame, and the theorem at it.
use crypto_trader_ver_9_alph.Prelude.{◌≡◌, refl, none, some, List, [], ◌∷◌, map}
use crypto_trader_ver_9_alph.Prelude.Int.{ℤ, pos}
use crypto_trader_ver_9_alph.Prelude.Fixed.{fixed}
use crypto_trader_ver_9_alph.Research.Portfolio.{Bar, Signal}
use crypto_trader_ver_9_alph.Research.Backtest.{
  BacktestEngine, candle_at, trade_at, take_signals, result_of, run_signals,
}
use crypto_trader_ver_9_alph.Research.Backtest.Sides.{
  with_side, result_with_side, run_signals-with_side,
}

abbrev engine : BacktestEngine ℤ
engine = record { fee_bps = pos 0; slippage_bps = pos 0; initial_capital = pos 10000000000 }

abbrev frame : List (Bar ℤ)
frame = record { timestamp = "t0"; close = pos 100000000 } ∷ []

abbrev signals : List (Signal ℤ)
signals = record { timestamp = "t0"; side = "sell"; confidence = pos 1000000 } ∷ []

-- every trade without costs gains 0.2 percent
a_sale_gains :
    elim (run_signals engine (λ xs. pos 0) "s1" frame "BTC" "1h" signals) [
      | none ↦ []
      | some r ↦ r.equity_curve
    ]
    ≡ pos 10000000000 ∷ pos 10000200000 ∷ []
unfolding run_signals result_of take_signals candle_at trade_at
a_sale_gains = refl

run_signals-with_side_example :
    run_signals engine (λ xs. pos 0) "s1" frame "BTC" "1h" (map (with_side engine "buy") signals)
    ≡ result_with_side engine "buy" (run_signals engine (λ xs. pos 0) "s1" frame "BTC" "1h" signals)
run_signals-with_side_example =
    run_signals-with_side engine "buy" (λ xs. pos 0) "s1" frame "BTC" "1h" signals
