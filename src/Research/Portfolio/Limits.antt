-- ===== src/Research/Portfolio/Limits.antt =====
-- The engine closes a position in the round that opens it, so the limits on open positions stop
-- nothing.
use crypto_trader_ver_9_alph.Prelude.{
  ℕ, suc, ◌+◌, ◌≡◌, refl, ap, ◌∙◌, inl, inr, true, false, Option, some, none, List, [], ◌∷◌, String,
  length, length-append, leb, arith, Bool-cases, Option-cases,
}
use crypto_trader_ver_9_alph.Prelude.Dict.{Dict}
use crypto_trader_ver_9_alph.Prelude.Float.{FloatOps, decimal, le, is_zero}
use crypto_trader_ver_9_alph.Research.Portfolio.{
  Bar, Signal, Strategy, Position, PortfolioBacktestEngine, PortfolioBacktestResult, Run, EngineOps,
  strategy_signals, signals_of, remove_position, bars_of, calculate_position_size,
  current_symbol_exposure, trade_signal, take_signal, take_signals, take_strategies, start, run,
}

abbrev pub with_limit : {F : Type 0} → ℕ → PortfolioBacktestEngine F → PortfolioBacktestEngine F
with_limit n engine = record engine { max_positions = n }

-- The result with another limit in its metadata.
abbrev pub reporting_limit :
    {F : Type 0} → ℕ → Option (PortfolioBacktestResult F) → Option (PortfolioBacktestResult F)
reporting_limit n none = none
reporting_limit n (some r) = some (record r { metadata = record r.metadata { max_positions = n } })

-- No position is open, and the curve has a point more than there are trades.
pub record IsClosed {F : Type 0} (s : Run F) : Type 0 where
  pub closed : s.positions ≡ []
  pub points : length s.equity_curve ≡ length s.trades + 1

module _ {F : Type 0} ⦃o : FloatOps F⦄ (ops : EngineOps F)
    (reflexive : (p : Position F) → ops.same p p ≡ true) where
  module _ (engine : PortfolioBacktestEngine F) (frame : List (Bar F)) (symbol : String) where
    trade_signal-IsClosed :
        (id : String) (signal : Signal F) (entry exit : Bar F) (quantity : F) (s : Run F)
        → IsClosed s
        → IsClosed (trade_signal ops engine frame symbol id signal entry exit quantity s)
    unfolding trade_signal remove_position
    trade_signal-IsClosed id signal entry exit quantity s h = record {
      closed = rw h.closed rw (reflexive _) refl;
      points =
          omega (
            arith,
            h.points,
            length-append s.equity_curve (_ ∷ []),
            length-append s.trades (_ ∷ []),
          );
    }

    take_signal-IsClosed :
        (id : String) (signal : Signal F) (s : Run F)
        → IsClosed s
        → IsClosed (take_signal ops engine frame symbol id signal s)
    unfolding take_signal
    take_signal-IsClosed id signal s h =
        elim (Bool-cases (leb engine.max_positions (length s.positions))) [
          | inl e ↦ rw e h
          | inr e ↦ elim (Option-cases (bars_of engine frame signal)) [
            | inl b ↦ rw e rw b h
            | inr ((entry, exit), b) ↦
                let quantity =
                  calculate_position_size engine s.capital signal.confidence entry.close in
                elim (Bool-cases (
                  le engine.max_symbol_exposure_pct
                    (current_symbol_exposure ops s.positions symbol s.capital))) [
                      | inl x ↦ rw e rw b rw x h
                      | inr x ↦ elim (Bool-cases (le quantity (decimal 0 0))) [
                        | inl q ↦ rw e rw b rw x rw q h
                        | inr q ↦
                            rw e rw b rw x rw q
                              (trade_signal-IsClosed id signal entry exit quantity s h)
                      ]
                    ]
          ]
        ]

    take_signals-IsClosed :
        (id : String) (signals : List (Signal F)) (s : Run F)
        → IsClosed s
        → IsClosed (take_signals ops engine frame symbol id signals s)
    unfolding take_signals
    take_signals-IsClosed id [] s h = h
    take_signals-IsClosed id (x ∷ xs) s h =
        take_signals-IsClosed id xs (take_signal ops engine frame symbol id x s)
          (take_signal-IsClosed id x s h)

    take_strategies-IsClosed :
        (signals : Dict (List (Signal F))) (strategies : List (Strategy F)) (s : Run F)
        → IsClosed s
        → IsClosed (take_strategies ops engine frame symbol signals strategies s)
    unfolding take_strategies
    take_strategies-IsClosed signals [] s h = h
    take_strategies-IsClosed signals (x ∷ xs) s h =
        take_strategies-IsClosed signals xs
          (take_signals ops engine frame symbol x.strategy_id (signals_of signals x) s)
          (take_signals-IsClosed x.strategy_id (signals_of signals x) s h)

  module _ (engine : PortfolioBacktestEngine F) (frame : List (Bar F)) (symbol : String)
      (n m : ℕ) where
    take_signal-limit :
        (id : String) (signal : Signal F) (s : Run F)
        → IsClosed s
        → take_signal ops (with_limit (suc n) engine) frame symbol id signal s
          ≡ take_signal ops (with_limit (suc m) engine) frame symbol id signal s
    unfolding take_signal bars_of calculate_position_size trade_signal
    take_signal-limit id signal s h =
        let p : leb (suc n) (length s.positions) ≡ false = ground (arith, ap length h.closed) in
        let q : leb (suc m) (length s.positions) ≡ false = ground (arith, ap length h.closed) in
        rw p rw q refl

    take_signals-limit :
        (id : String) (signals : List (Signal F)) (s : Run F)
        → IsClosed s
        → take_signals ops (with_limit (suc n) engine) frame symbol id signals s
          ≡ take_signals ops (with_limit (suc m) engine) frame symbol id signals s
    unfolding take_signals
    take_signals-limit id [] s h = refl
    take_signals-limit id (x ∷ xs) s h =
        ap (take_signals ops (with_limit (suc n) engine) frame symbol id xs)
          (take_signal-limit id x s h)
        ∙ take_signals-limit id xs (take_signal ops (with_limit (suc m) engine) frame symbol id x s)
            (take_signal-IsClosed (with_limit (suc m) engine) frame symbol id x s h)

    take_strategies-limit :
        (signals : Dict (List (Signal F))) (strategies : List (Strategy F)) (s : Run F)
        → IsClosed s
        → take_strategies ops (with_limit (suc n) engine) frame symbol signals strategies s
          ≡ take_strategies ops (with_limit (suc m) engine) frame symbol signals strategies s
    unfolding take_strategies
    take_strategies-limit signals [] s h = refl
    take_strategies-limit signals (x ∷ xs) s h =
        ap (take_strategies ops (with_limit (suc n) engine) frame symbol signals xs)
          (take_signals-limit x.strategy_id (signals_of signals x) s h)
        ∙ take_strategies-limit signals xs
            (take_signals ops (with_limit (suc m) engine) frame symbol x.strategy_id
              (signals_of signals x) s)
            (take_signals-IsClosed (with_limit (suc m) engine) frame symbol x.strategy_id
              (signals_of signals x) s h)

    -- Every limit of open positions but 0 gives the same backtest, exceptions included, but for the
    -- limit itself, which its metadata repeat, whatever the strategies and the frame are, if a
    -- position equals itself.
    pub run-limit :
        (strategies : List (Strategy F)) (timeframe : String)
        → run ops (with_limit (suc n) engine) strategies frame symbol timeframe
          ≡ reporting_limit
              (suc n)
              (run ops (with_limit (suc m) engine) strategies frame symbol timeframe)
    unfolding run
    run-limit strategies timeframe =
        let s =
          take_strategies ops (with_limit (suc m) engine) frame symbol
            (strategy_signals frame strategies []) strategies (start ops engine) in
        rw
          (take_strategies-limit (strategy_signals frame strategies []) strategies
            (start ops engine) (record { closed = refl; points = omega arith }))
          (elim (Bool-cases (is_zero s.peak_equity)) [
            | inl p ↦ rw p refl
            | inr p ↦ elim (Bool-cases (is_zero engine.initial_capital)) [
              | inl q ↦ rw p rw q refl
              | inr q ↦ rw p rw q refl
            ]
          ])
