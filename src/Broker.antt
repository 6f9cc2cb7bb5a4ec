-- ===== src/Broker.antt =====
-- ver9/execution.py: orders, their results and the brokers. The digest of a seed, the truncation
-- of a float and the sorting of texts are parameters, and the time stamp of a result is left out.
-- Two floats are equal where neither is less, which differs from Python on NaN only.
pub mod Telemetry
pub mod Submit
mod Counts
pub mod Keys
pub mod Answers
mod Tests
use crypto_trader_ver_9_alph.Prelude.{
  ℕ, Bool, ◌&&◌, Option, none, some, List, String, str_eq, if◌then◌else◌,
}
use crypto_trader_ver_9_alph.Prelude.Dict.{Dict}
use crypto_trader_ver_9_alph.Prelude.Float.{FloatOps, decimal, sub, mul, div, le, round}
use crypto_trader_ver_9_alph.Basket.{zero_float}

pub record OrderRequest (F : Type 0) : Type 0 where
  pub strategy_id : String
  pub symbol : String
  pub side : String
  pub quantity : F
  pub price : Option F
  pub order_type : String
  pub time_in_force : String
  pub status : String

pub record ExecutionResult (F : Type 0) : Type 0 where
  pub strategy_id : String
  pub symbol : String
  pub side : String
  pub requested_qty : F
  pub filled_qty : F
  pub requested_price : F
  pub average_fill_price : F
  pub slippage_bps : F
  pub latency_ms : ℕ
  pub status : String
  pub rejection_reason : Option String

pub record RejectedOrder (F : Type 0) : Type 0 where
  pub strategy_id : String
  pub symbol : String
  pub reason : String
  pub fill_ratio : F

-- A row of `acceptance_history`.
pub record AcceptanceRow (F : Type 0) : Type 0 where
  pub strategy_id : String
  pub symbol : String
  pub side : String
  pub requested_quantity : F
  pub expected_price : Option F
  pub fill_price : Option F
  pub accepted : Bool
  pub fill_ratio : F
  pub slippage_bps : Option F
  pub rejection_reason : Option String

pub record StrategyStats (F : Type 0) : Type 0 where
  pub requested_orders : ℕ
  pub filled_orders : ℕ
  pub rejected_orders : ℕ
  pub fill_rate : F
  pub average_slippage_bps : F
  pub execution_quality_score : F

pub record RejectionTelemetry : Type 0 where
  pub reasons : Dict ℕ
  pub total_rejections : ℕ
  pub unique_strategies_rejected : ℕ

pub record ExecutionSummary (F : Type 0) : Type 0 where
  pub mode : String
  pub requested_orders : ℕ
  pub filled_orders : ℕ
  pub rejected_orders : ℕ
  pub fills : List (ExecutionResult F)
  pub rejections : List (RejectedOrder F)
  pub acceptance_history : List (AcceptanceRow F)
  pub rejection_telemetry : RejectionTelemetry
  pub per_strategy_stats : Dict (StrategyStats F)
  pub fill_rate : F
  pub average_slippage_bps : F
  pub execution_quality_score : F
  pub equity_before : F
  pub equity_after : F
  pub capital_committed : F

-- What the module calls: `order_ratio` is `_stable_ratio` of the seed that is made of an order's
-- strategy, symbol, side and quantity.
pub record BrokerOps (F : Type 0) : Type 0 where
  pub stable_ratio : String → F
  pub order_ratio : String → String → String → F → F
  pub truncate : F → ℕ
  pub sorted : List String → List String
  pub total : List F → F

module _ {F : Type 0} ⦃o : FloatOps F⦄ where
  abbrev pub float_eq : F → F → Bool
  float_eq a b = le a b && le b a

  abbrev pub ratio_of : BrokerOps F → OrderRequest F → F
  ratio_of ops r = ops.order_ratio r.strategy_id r.symbol r.side r.quantity

  unfoldable pub slippage_bps : Option F → F → F
  slippage_bps none fill_price = zero_float
  slippage_bps (some expected) fill_price =
      if le expected zero_float
      then zero_float
      else mul (div (sub fill_price expected) expected) (decimal 10000 0)

  -- the key of an order in `fills_by_key`, as the test that a fill has it
  abbrev pub has_key : OrderRequest F → ExecutionResult F → Bool
  has_key r f =
      str_eq (f.strategy_id) (r.strategy_id)
      && str_eq (f.symbol) (r.symbol)
      && str_eq (f.side) (r.side)
      && float_eq (round f.filled_qty 8) (round r.quantity 8)
