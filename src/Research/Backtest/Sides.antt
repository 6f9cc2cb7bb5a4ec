-- ===== src/Research/Backtest/Sides.antt =====
-- What the backtest makes of the sides of the signals.
use crypto_trader_ver_9_alph.Prelude.{
  ◌≡◌, refl, ap, ◌∙◌, Option, none, some, Bool-cases, List, [], ◌∷◌, map, map-append, String,
  length-map, Option-cases, inl, inr,
}
use crypto_trader_ver_9_alph.Prelude.Float.{FloatOps, is_zero}
use crypto_trader_ver_9_alph.Research.Portfolio.{Bar, Signal}
use crypto_trader_ver_9_alph.Research.Backtest.{
  Trade, BacktestResult, BacktestEngine, Progress, candle_at, trade_at, take_signals, start,
  result_of, run_signals,
}

module _ {F : Type 0} ⦃o : FloatOps F⦄ (engine : BacktestEngine F) (side : String) where
  abbrev pub with_side : Signal F → Signal F
  with_side signal = record signal { side = side }

  abbrev pub trade_with_side : Trade F → Trade F
  trade_with_side trade = record trade { side = side }

  abbrev progress_with_side : Progress F → Progress F
  progress_with_side p = record p { trades = map trade_with_side p.trades }

  -- A result, if there is one, whose trades are labelled with the side.
  abbrev pub result_with_side : Option (BacktestResult F) → Option (BacktestResult F)
  result_with_side none = none
  result_with_side (some r) = some (record r { trades = map trade_with_side r.trades })

  trade_at-with_side :
      (symbol : String) (signal : Signal F) (candle : Bar F) (p : Progress F)
      → trade_at engine symbol (with_side signal) candle (progress_with_side p)
        ≡ progress_with_side (trade_at engine symbol signal candle p)
  unfolding trade_at
  trade_at-with_side symbol signal candle p = rw (map-append)

  take_signals-with_side :
      (frame : List (Bar F)) (symbol : String) (signals : List (Signal F)) (p : Progress F)
      → take_signals engine frame symbol (map with_side signals) (progress_with_side p)
        ≡ progress_with_side (take_signals engine frame symbol signals p)
  unfolding take_signals
  take_signals-with_side frame symbol [] p = refl
  take_signals-with_side frame symbol (x ∷ xs) p =
      elim (Option-cases (candle_at x.timestamp frame)) [
        | inl e ↦ rw (e, take_signals) (take_signals-with_side frame symbol xs p)
        | inr (candle, e) ↦
            rw (e, take_signals)
              (ap (take_signals engine frame symbol (map with_side xs))
                  (trade_at-with_side symbol x candle p)
                ∙ take_signals-with_side frame symbol xs (trade_at engine symbol x candle p))
      ]

  result_of-with_side :
      (sharpe : List F → F) (strategy_id symbol timeframe : String) (p : Progress F)
      → result_of engine sharpe strategy_id symbol timeframe (progress_with_side p)
        ≡ result_with_side (result_of engine sharpe strategy_id symbol timeframe p)
  unfolding result_of
  result_of-with_side sharpe strategy_id symbol timeframe p =
      elim (Bool-cases (is_zero engine.initial_capital)) [
        | inl c ↦ rw c refl
        | inr c ↦ elim (Bool-cases (is_zero p.peak_equity)) [
          | inl d ↦ rw c rw d refl
          | inr d ↦ rw c rw d rw (length-map trade_with_side p.trades) refl
        ]
      ]

  -- The backtest trades a signal to sell as one to buy: giving all signals one side changes the
  -- labels of the trades and nothing else, no return, drawdown, win or equity, and no exception.
  pub run_signals-with_side :
      (sharpe : List F → F) (strategy_id : String) (frame : List (Bar F))
      (symbol timeframe : String) (signals : List (Signal F))
      → run_signals engine sharpe strategy_id frame symbol timeframe (map with_side signals)
        ≡ result_with_side (run_signals engine sharpe strategy_id frame symbol timeframe signals)
  unfolding run_signals
  run_signals-with_side sharpe strategy_id frame symbol timeframe [] = refl
  run_signals-with_side sharpe strategy_id frame symbol timeframe (x ∷ xs) =
      ap (result_of engine sharpe strategy_id symbol timeframe)
        (take_signals-with_side frame symbol (x ∷ xs) (start engine))
      ∙ result_of-with_side sharpe strategy_id symbol timeframe
          (take_signals engine frame symbol (x ∷ xs) (start engine))
