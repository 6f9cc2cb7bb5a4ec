-- ===== src/Research.antt =====
-- The research part: ver9/research, of which the backtests, the validations, the parameter
-- search with its ranking, and the regimes are modelled.
pub mod Walkforward
pub mod Portfolio
pub mod Search
pub mod Robustness
pub mod Backtest
pub mod Regime
