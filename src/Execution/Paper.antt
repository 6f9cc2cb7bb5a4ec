-- ===== src/Execution/Paper.antt =====
-- ver9/execution/simulator/session_state.py: the paper trading session. The fills of the simulator
-- are the argument of the loop of `process_orders`. A method that raises gives the exception's text
-- and leaves the session as far as it came.
pub mod Account
mod Tests
use crypto_trader_ver_9_alph.Prelude.{
  ℕ, zero, ◌+◌, Bool, ◌&&◌, Option, none, some, List, [], ◌∷◌, ◌++◌, String, length, str_eq,
  if◌then◌else◌,
}
use crypto_trader_ver_9_alph.Prelude.Dict.{Dict, lookup, insert, erase, values}
use crypto_trader_ver_9_alph.Prelude.Float.{FloatOps, decimal, add, sub, mul, div, le}
use crypto_trader_ver_9_alph.Execution.Simulator.{
  SimulatedOrder, SimulatedFill, rejected, has_status, Random, Statistics, ExecutionSimulator,
  simulate,
}

pub record SessionPosition (F : Type 0) : Type 0 where
  pub asset : String
  pub quantity : F
  pub average_price : F

pub record SessionAccountState (F : Type 0) : Type 0 where
  pub total_equity : F
  pub available_cash : F
  pub positions : Dict (SessionPosition F)

pub record SessionStatistics (F : Type 0) : Type 0 where
  pub submitted_orders : ℕ
  pub processed_fills : ℕ
  pub rejected_orders : ℕ
  pub cumulative_fees : F

pub record PaperSession (F : Type 0) : Type 0 where
  pub account : SessionAccountState F
  pub statistics : SessionStatistics F
  pub execution_history : List (SimulatedFill F)

module _ {F : Type 0} ⦃o : FloatOps F⦄ where
  unfoldable pub new_session : F → PaperSession F
  new_session starting_equity = record {
    account = record {
      total_equity = starting_equity;
      available_cash = starting_equity;
      positions = [];
    };
    statistics = record {
      submitted_orders = 0;
      processed_fills = 0;
      rejected_orders = 0;
      cumulative_fees = decimal 0 0;
    };
    execution_history = [];
  }

  -- a divisor at which Python's `/` raises
  abbrev pub is_zero : F → Bool
  is_zero q = le q (decimal 0 0) && le (decimal 0 0) q

  abbrev pub gross_value : SimulatedFill F → F
  gross_value fill = mul fill.executed_price fill.filled_quantity

  abbrev pub equity_from : F → List (SessionPosition F) → F
  equity_from equity [] = equity
  equity_from equity (p ∷ ps) = equity_from (add equity (mul p.quantity p.average_price)) ps

  unfoldable pub refresh_equity : SessionAccountState F → SessionAccountState F
  refresh_equity a = record a { total_equity = equity_from a.available_cash (values a.positions) }

  abbrev pub put_position : String → F → F → SessionAccountState F → SessionAccountState F
  put_position symbol quantity price a = record a {
    positions =
        insert symbol (record { asset = symbol; quantity = quantity; average_price = price })
          a.positions;
  }

  abbrev pub blend : SessionPosition F → SimulatedFill F → F
  blend existing fill =
      div
        (add (mul existing.quantity existing.average_price)
          (mul fill.filled_quantity fill.executed_price))
        (add existing.quantity fill.filled_quantity)

  -- the branch of `_apply_fill` for a purchase, without `_refresh_equity`
  unfoldable pub buy :
      SimulatedFill F → SessionAccountState F → Option String × SessionAccountState F
  buy fill a =
      let paid : SessionAccountState F = record a {
        available_cash = sub a.available_cash (add (gross_value fill) fill.fees_paid);
      } in
      elim (lookup fill.symbol a.positions) [
        | none ↦ (none, put_position fill.symbol fill.filled_quantity fill.executed_price paid)
        | some existing ↦
            let total = add existing.quantity fill.filled_quantity in
            if is_zero total then (some "float division by zero", paid) else (
              none,
              record paid {
                positions =
                    insert fill.symbol
                      (record existing { quantity = total; average_price = blend existing fill })
                      paid.positions;
              },
            )
      ]

  -- the other branch
  unfoldable pub sell : SimulatedFill F → SessionAccountState F → SessionAccountState F
  sell fill a =
      let paid : SessionAccountState F = record a {
        available_cash = add a.available_cash (sub (gross_value fill) fill.fees_paid);
      } in
      elim (lookup fill.symbol a.positions) [
        | none ↦ paid
        | some existing ↦
            let left = sub existing.quantity fill.filled_quantity in
            record paid {
              positions =
                  if le left (decimal 0 0)
                  then erase fill.symbol paid.positions
                  else insert fill.symbol (record existing { quantity = left }) paid.positions;
            }
      ]

  unfoldable pub apply_simulated_fill :
      SimulatedFill F → SessionAccountState F → Option String × SessionAccountState F
  apply_simulated_fill fill a =
      if str_eq fill.side "buy"
      then (let (error, a') = buy fill a in
          elim error [ none ↦ (none, refresh_equity a') | some e ↦ (some e, a') ])
      else (none, refresh_equity (sell fill a))

  abbrev pub keep_fill : SimulatedFill F → PaperSession F → PaperSession F
  keep_fill fill s = record s { execution_history = s.execution_history ++ fill ∷ [] }

  abbrev pub count_rejected : PaperSession F → PaperSession F
  count_rejected s = record s {
    statistics = record (s.statistics) { rejected_orders = s.statistics.rejected_orders + 1 };
  }

  abbrev pub count_processed : SimulatedFill F → PaperSession F → PaperSession F
  count_processed fill s = record s {
    statistics = record (s.statistics) {
      processed_fills = s.statistics.processed_fills + 1;
      cumulative_fees = add s.statistics.cumulative_fees fill.fees_paid;
    };
  }

  -- one round of the loop of `process_orders`
  unfoldable pub process_fill : SimulatedFill F → PaperSession F → Option String × PaperSession F
  process_fill fill s =
      let kept = keep_fill fill s in
      if has_status rejected fill
      then (none, count_rejected kept)
      else (let (error, a) = apply_simulated_fill fill s.account in
          (error, record (count_processed fill kept) { account = a }))

  unfoldable pub process_fills :
      List (SimulatedFill F) → PaperSession F → Option String × PaperSession F
  process_fills [] s = (none, s)
  process_fills (fill ∷ fills) s =
      let (error, s') = process_fill fill s in
      elim error [ none ↦ process_fills fills s' | some e ↦ (some e, s') ]

  -- `process_orders`; the fills that it returns are those given to the loop
  unfoldable pub process_orders :
      {R : Type 0}
      → Random R F
      → ExecutionSimulator F
      → Statistics F
      → List (SimulatedOrder F)
      → PaperSession F × R
      → Option String × PaperSession F × R
  process_orders random simulator statistics orders (s, r) =
      let submitted : PaperSession F = record s {
        statistics = record (s.statistics) {
          submitted_orders = s.statistics.submitted_orders + length orders;
        };
      } in
      let (simulation, r') = simulate random simulator statistics orders r in
      elim simulation [
        | none ↦ (some "empty range for randrange()", submitted, r')
        | some result ↦ let (error, s') = process_fills result.fills submitted in (error, s', r')
      ]
