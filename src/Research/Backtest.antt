-- ===== src/Research/Backtest.antt =====
-- ver9/research/backtesting/engine.py: the backtest of one strategy. A frame is a list of bars;
-- the Sharpe ratio of a curve is a parameter. `none` is an exception: that of the
-- strategy, or a ZeroDivisionError of the return or the drawdown.
pub mod Sides
mod Tests
use crypto_trader_ver_9_alph.Prelude.{
  ◌>>=◌, ℕ, zero, suc, ◌+◌, Option, none, some, List, [], ◌∷◌, ◌++◌, map, String, length, str_eq,
  if◌then◌else◌,
}
use crypto_trader_ver_9_alph.Prelude.Float.{
  FloatOps, decimal, add, sub, mul, div, lt, round, max, least_of, unless_zero,
}
use crypto_trader_ver_9_alph.Research.Portfolio.{Bar, Signal, Strategy}

pub record Trade (F : Type 0) : Type 0 where
  pub timestamp : String
  pub symbol : String
  pub side : String
  pub quantity : F
  pub entry_price : F
  pub exit_price : F
  pub pnl : F
  pub fees : F
  pub slippage_bps : F

pub record BacktestResult (F : Type 0) : Type 0 where
  pub strategy_id : String
  pub symbol : String
  pub timeframe : String
  pub total_return_pct : F
  pub max_drawdown_pct : F
  pub sharpe_ratio : F
  pub win_rate : F
  pub trade_count : ℕ
  pub trades : List (Trade F)
  pub equity_curve : List F

pub record BacktestEngine (F : Type 0) : Type 0 where
  pub fee_bps : F
  pub slippage_bps : F
  pub initial_capital : F

-- The variables of the loop.
pub record Progress (F : Type 0) : Type 0 where
  pub capital : F
  pub peak_equity : F
  pub wins : ℕ
  pub trades : List (Trade F)
  pub equity_curve : List F

module _ {F : Type 0} where
  -- the first row of the frame with a time stamp
  unfoldable pub candle_at : String → List (Bar F) → Option (Bar F)
  candle_at t [] = none
  candle_at t (b ∷ bars) = if str_eq b.timestamp t then some b else candle_at t bars

module _ {F : Type 0} ⦃o : FloatOps F⦄ where
  abbrev pub default_engine : BacktestEngine F
  default_engine = record {
    fee_bps = decimal 100 1;
    slippage_bps = decimal 50 1;
    initial_capital = decimal 100000 1;
  }

module _ {F : Type 0} ⦃o : FloatOps F⦄ (engine : BacktestEngine F) where
  -- the trade of a signal at its candle
  unfoldable pub trade_at : String → Signal F → Bar F → Progress F → Progress F
  trade_at symbol signal candle p =
      let entry =
        mul candle.close (add (decimal 1 0) (div engine.slippage_bps (decimal 100000 1))) in
      let exit = mul candle.close (decimal 1002 3) in
      let fees = mul entry (div engine.fee_bps (decimal 100000 1)) in
      let net = sub (sub exit entry) fees in
      let capital = add p.capital net in
      record {
        capital = capital;
        peak_equity = max p.peak_equity capital;
        wins = if lt (decimal 0 0) net then p.wins + 1 else p.wins;
        trades =
            p.trades
            ++ record {
              timestamp = signal.timestamp;
              symbol = symbol;
              side = signal.side;
              quantity = decimal 10 1;
              entry_price = round entry 4;
              exit_price = round exit 4;
              pnl = round net 4;
              fees = round fees 4;
              slippage_bps = engine.slippage_bps;
            }
              ∷ [];
        equity_curve = p.equity_curve ++ capital ∷ [];
      }

  unfoldable pub take_signals : List (Bar F) → String → List (Signal F) → Progress F → Progress F
  take_signals frame symbol [] p = p
  take_signals frame symbol (signal ∷ signals) p =
      take_signals frame symbol signals (elim (candle_at signal.timestamp frame) [
        | none ↦ p
        | some candle ↦ trade_at symbol signal candle p
      ])

  abbrev pub start : Progress F
  start = record {
    capital = engine.initial_capital;
    peak_equity = engine.initial_capital;
    wins = 0;
    trades = [];
    equity_curve = engine.initial_capital ∷ [];
  }

  abbrev pub win_rate_of : ℕ → ℕ → F
  win_rate_of wins zero = decimal 0 1
  win_rate_of wins (suc n) = div (decimal wins 0) (decimal (suc n) 0)

  -- `run` from the end of the loop
  unfoldable pub result_of :
      (List F → F) → String → String → String → Progress F → Option (BacktestResult F)
  result_of sharpe strategy_id symbol timeframe p =
      let result : BacktestResult F = record {
        strategy_id = strategy_id;
        symbol = symbol;
        timeframe = timeframe;
        total_return_pct =
            round
              (mul (div (sub p.capital engine.initial_capital) engine.initial_capital)
                (decimal 1000 1))
              4;
        max_drawdown_pct =
            round
              (mul
                (div (sub (least_of engine.initial_capital p.equity_curve) p.peak_equity)
                  p.peak_equity)
                (decimal 1000 1))
              4;
        sharpe_ratio = round (sharpe p.equity_curve) 4;
        win_rate = round (win_rate_of p.wins (length p.trades)) 4;
        trade_count = length p.trades;
        trades = p.trades;
        equity_curve = map (λ x. round x 4) p.equity_curve;
      } in
      do checked ← unless_zero engine.initial_capital result; unless_zero p.peak_equity checked

  abbrev pub no_signals : String → String → String → BacktestResult F
  no_signals strategy_id symbol timeframe = record {
    strategy_id = strategy_id;
    symbol = symbol;
    timeframe = timeframe;
    total_return_pct = decimal 0 1;
    max_drawdown_pct = decimal 0 1;
    sharpe_ratio = decimal 0 1;
    win_rate = decimal 0 1;
    trade_count = 0;
    trades = [];
    equity_curve = [];
  }

  -- `run` once the strategy has given its signals
  unfoldable pub run_signals :
      (List F → F)
      → String
      → List (Bar F)
      → String
      → String
      → List (Signal F)
      → Option (BacktestResult F)
  run_signals sharpe strategy_id frame symbol timeframe [] =
      some (no_signals strategy_id symbol timeframe)
  run_signals sharpe strategy_id frame symbol timeframe (x ∷ xs) =
      result_of sharpe strategy_id symbol timeframe (take_signals frame symbol (x ∷ xs) start)

  unfoldable pub run :
      (List F → F) → Strategy F → List (Bar F) → String → String → Option (BacktestResult F)
  run sharpe strategy frame symbol timeframe = elim (strategy.generate_signals frame) [
    | none ↦ none
    | some signals ↦ run_signals sharpe strategy.strategy_id frame symbol timeframe signals
  ]
