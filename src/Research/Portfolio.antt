-- ===== src/Research/Portfolio.antt =====
-- ver9/research/backtesting/portfolio_engine.py: the backtest of several strategies on one frame.
-- A frame is a list of bars; what a strategy signals on it, or that it raises, is a field of the
-- strategy. The sum of numbers, the Sharpe ratio of a curve and the equality of positions are
-- parameters.
pub mod Limits
mod Tests
use crypto_trader_ver_9_alph.Prelude.{
  ◌>>=◌, ℕ, ◌+◌, Bool, Option, none, some, List, [], ◌∷◌, ◌++◌, map, String, length, leb, or_else,
  str_eq, select, if◌then◌else◌, get_elem?,
}
use crypto_trader_ver_9_alph.Prelude.Dict.{Dict, lookup, insert}
use crypto_trader_ver_9_alph.Prelude.Float.{
  FloatOps, decimal, add, sub, mul, div, lt, le, round, max, min, least_of, unless_zero,
}

pub record Bar (F : Type 0) : Type 0 where
  pub timestamp : String
  pub close : F

pub record Signal (F : Type 0) : Type 0 where
  pub timestamp : String
  pub side : String
  pub confidence : F

pub record Strategy (F : Type 0) : Type 0 where
  pub strategy_id : String
  pub generate_signals : List (Bar F) → Option (List (Signal F))

pub record Position (F : Type 0) : Type 0 where
  pub strategy_id : String
  pub symbol : String
  pub side : String
  pub quantity : F
  pub entry_price : F
  pub entry_timestamp : String
  pub confidence : F

pub record PortfolioTrade (F : Type 0) : Type 0 where
  pub strategy_id : String
  pub symbol : String
  pub entry_timestamp : String
  pub exit_timestamp : String
  pub side : String
  pub quantity : F
  pub entry_price : F
  pub exit_price : F
  pub gross_pnl : F
  pub net_pnl : F
  pub fees : F
  pub slippage_bps : F

pub record PortfolioBacktestEngine (F : Type 0) : Type 0 where
  pub initial_capital : F
  pub max_positions : ℕ
  pub max_symbol_exposure_pct : F
  pub risk_per_trade_pct : F
  pub fee_bps : F
  pub slippage_bps : F
  pub holding_period_bars : ℕ

-- The variables of the loop.
pub record Run (F : Type 0) : Type 0 where
  pub capital : F
  pub peak_equity : F
  pub equity_curve : List F
  pub positions : List (Position F)
  pub trades : List (PortfolioTrade F)
  pub symbol_exposure : Dict F

pub record PortfolioMetadata (F : Type 0) : Type 0 where
  pub timeframe : String
  pub max_positions : ℕ
  pub risk_per_trade_pct : F
  pub fee_bps : F
  pub slippage_bps : F

pub record PortfolioBacktestResult (F : Type 0) : Type 0 where
  pub initial_capital : F
  pub ending_capital : F
  pub total_return_pct : F
  pub max_drawdown_pct : F
  pub sharpe_ratio : F
  pub total_trades : ℕ
  pub winning_trades : ℕ
  pub losing_trades : ℕ
  pub active_strategies : List String
  pub symbol_exposure : Dict F
  pub equity_curve : List F
  pub trades : List (PortfolioTrade F)
  pub metadata : PortfolioMetadata F

-- What the engine calls: `same` is `==` of two positions.
pub record EngineOps (F : Type 0) : Type 0 where
  pub total : List F → F
  pub sharpe : List F → F
  pub same : Position F → Position F → Bool

module _ {F : Type 0} where
  -- the loop of `timestamp_index`: a later bar of the same time stamp replaces an earlier one
  unfoldable pub timestamp_index : ℕ → List (Bar F) → Dict ℕ → Dict ℕ
  timestamp_index i [] d = d
  timestamp_index i (b ∷ bars) d = timestamp_index (i + 1) bars (insert (b.timestamp) i d)

  -- `positions.remove(position)`
  unfoldable pub remove_position :
      (Position F → Position F → Bool) → Position F → List (Position F) → List (Position F)
  remove_position same p [] = []
  remove_position same p (q ∷ qs) = if same q p then qs else q ∷ remove_position same p qs

  -- the first loop of `run`: strategies that share an identifier share the signals of the last one
  unfoldable pub strategy_signals :
      List (Bar F) → List (Strategy F) → Dict (List (Signal F)) → Dict (List (Signal F))
  strategy_signals frame [] d = d
  strategy_signals frame (x ∷ xs) d =
      strategy_signals frame xs (insert (x.strategy_id) (or_else (x.generate_signals frame) []) d)

  abbrev pub signals_of : Dict (List (Signal F)) → Strategy F → List (Signal F)
  signals_of signals x = or_else (lookup x.strategy_id signals) []

module _ {F : Type 0} (engine : PortfolioBacktestEngine F) where
  -- the bars of entry and exit of a signal, where both are in the frame
  unfoldable pub bars_of : List (Bar F) → Signal F → Option (Bar F × Bar F)
  bars_of frame signal = do
    i ← lookup signal.timestamp (timestamp_index 0 frame [])
    entry ← get_elem? frame i
    exit ← get_elem? frame (i + engine.holding_period_bars)
    some (entry, exit)

module _ {F : Type 0} ⦃o : FloatOps F⦄ (engine : PortfolioBacktestEngine F) where
  unfoldable pub calculate_position_size : F → F → F → F
  calculate_position_size capital confidence price =
      let risk_budget = mul capital engine.risk_per_trade_pct in
      let notional = mul risk_budget (max (decimal 25 2) (min (decimal 10 1) confidence)) in
      if le price (decimal 0 0) then decimal 0 0 else div notional price

module _ {F : Type 0} ⦃o : FloatOps F⦄ (ops : EngineOps F) where
  unfoldable pub current_symbol_exposure : List (Position F) → String → F → F
  current_symbol_exposure positions symbol capital =
      if le capital (decimal 0 0)
      then decimal 0 0
      else div
          (ops.total (
            map (λ p. mul p.quantity p.entry_price)
              (select (λ p. str_eq (p.symbol) symbol) positions)))
          capital

  module _ (engine : PortfolioBacktestEngine F) where
    module _ (frame : List (Bar F)) (symbol strategy_id : String) where
      -- a trade, from the test of the quantity on
      unfoldable pub trade_signal : Signal F → Bar F → Bar F → F → Run F → Run F
      trade_signal signal entry exit quantity s =
          let position : Position F = record {
            strategy_id = strategy_id;
            symbol = symbol;
            side = signal.side;
            quantity = quantity;
            entry_price = entry.close;
            entry_timestamp = signal.timestamp;
            confidence = signal.confidence;
          } in
          let positions = s.positions ++ position ∷ [] in
          let effective_entry =
            mul entry.close (add (decimal 1 0) (div engine.slippage_bps (decimal 100000 1))) in
          let gross =
            if str_eq signal.side "buy"
            then mul (sub exit.close effective_entry) quantity
            else mul (sub effective_entry exit.close) quantity in
          let fees = mul (mul effective_entry quantity) (div engine.fee_bps (decimal 100000 1)) in
          let net = sub gross fees in
          let capital = add s.capital net in
          record {
            capital = capital;
            peak_equity = max s.peak_equity capital;
            equity_curve = s.equity_curve ++ capital ∷ [];
            positions = remove_position ops.same position positions;
            trades =
                s.trades
                ++ record {
                  strategy_id = strategy_id;
                  symbol = symbol;
                  entry_timestamp = signal.timestamp;
                  exit_timestamp = exit.timestamp;
                  side = signal.side;
                  quantity = round quantity 6;
                  entry_price = round effective_entry 4;
                  exit_price = round exit.close 4;
                  gross_pnl = round gross 4;
                  net_pnl = round net 4;
                  fees = round fees 4;
                  slippage_bps = engine.slippage_bps;
                }
                  ∷ [];
            symbol_exposure =
                insert symbol (round (current_symbol_exposure positions symbol capital) 4)
                  s.symbol_exposure;
          }

      -- the body of the inner loop
      unfoldable pub take_signal : Signal F → Run F → Run F
      take_signal signal s =
          if leb engine.max_positions (length s.positions)
          then s
          else elim (bars_of engine frame signal) [
            | none ↦ s
            | some (entry, exit) ↦
                let quantity =
                  calculate_position_size engine s.capital signal.confidence entry.close in
                if le engine.max_symbol_exposure_pct
                  (current_symbol_exposure s.positions symbol s.capital)
                then s
                else if le quantity (decimal 0 0)
                then s
                else trade_signal signal entry exit quantity s
          ]

      unfoldable pub take_signals : List (Signal F) → Run F → Run F
      take_signals [] s = s
      take_signals (x ∷ xs) s = take_signals xs (take_signal x s)

    unfoldable pub take_strategies :
        List (Bar F) → String → Dict (List (Signal F)) → List (Strategy F) → Run F → Run F
    take_strategies frame symbol signals [] s = s
    take_strategies frame symbol signals (x ∷ xs) s =
        take_strategies frame symbol signals xs
          (take_signals frame symbol x.strategy_id (signals_of signals x) s)

    abbrev pub start : Run F
    start = record {
      capital = engine.initial_capital;
      peak_equity = engine.initial_capital;
      equity_curve = engine.initial_capital ∷ [];
      positions = [];
      trades = [];
      symbol_exposure = [];
    }

    abbrev pub percent_of : F → F → F
    percent_of part whole = mul (div part whole) (decimal 1000 1)

    -- the result from the end of the loop on
    abbrev pub result_of : List (Strategy F) → String → Run F → PortfolioBacktestResult F
    result_of strategies timeframe s = record {
      initial_capital = engine.initial_capital;
      ending_capital = round s.capital 4;
      total_return_pct =
          round (percent_of (sub s.capital engine.initial_capital) engine.initial_capital) 4;
      max_drawdown_pct =
          round
            (percent_of (sub (least_of engine.initial_capital s.equity_curve) s.peak_equity)
              s.peak_equity)
            4;
      sharpe_ratio = round (ops.sharpe s.equity_curve) 4;
      total_trades = length s.trades;
      winning_trades = length (select (λ t. lt (decimal 0 0) t.net_pnl) s.trades);
      losing_trades = length (select (λ t. le t.net_pnl (decimal 0 0)) s.trades);
      active_strategies = map (λ x. x.strategy_id) strategies;
      symbol_exposure = s.symbol_exposure;
      equity_curve = map (λ x. round x 4) s.equity_curve;
      trades = s.trades;
      metadata = record {
        timeframe = timeframe;
        max_positions = engine.max_positions;
        risk_per_trade_pct = engine.risk_per_trade_pct;
        fee_bps = engine.fee_bps;
        slippage_bps = engine.slippage_bps;
      };
    }

    -- `none` is the ZeroDivisionError of the drawdown or of the return
    unfoldable pub run :
        List (Strategy F) → List (Bar F) → String → String → Option (PortfolioBacktestResult F)
    run strategies frame symbol timeframe =
        let signals = strategy_signals frame strategies [] in
        let s = take_strategies frame symbol signals strategies start in
        do
          checked ← unless_zero s.peak_equity s
          unless_zero engine.initial_capital (result_of strategies timeframe checked)
