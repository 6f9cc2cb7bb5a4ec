-- ===== src/Execution/Tests.antt =====
-- Runs of the order execution, and its theorems at concrete inputs.
use crypto_trader_ver_9_alph.Prelude.{
  ℕ, ◌+◌, ◌≡◌, refl, Option, none, some, List, [], ◌∷◌, String, leb, if◌then◌else◌,
}
use crypto_trader_ver_9_alph.Prelude.Int.{ℤ, pos}
use crypto_trader_ver_9_alph.Prelude.Float.{le}
use crypto_trader_ver_9_alph.Prelude.Fixed.{fixed}
use crypto_trader_ver_9_alph.Execution.Order.{
  OrderStatus, OrderSide, market, created, submitted, acknowledged, partially_filled, filled,
  cancel_pending, ExecutionOrder, ok, transition, remaining_quantity,
}
use crypto_trader_ver_9_alph.Execution.Order.Transitions.{Life, here, next}
use crypto_trader_ver_9_alph.Execution.Fills.{apply_fill, apply_fills, sum_from, apply_fills_lem}
use crypto_trader_ver_9_alph.Execution.Retry.{
  Attempt, returned, raised, execute_from, Ends, default_config,
}
use crypto_trader_ver_9_alph.Execution.Retry.Attempts.{execute_from-Ends}
use crypto_trader_ver_9_alph.Execution.Engine.{
  Session, ExecutionEngine, order_record, submit_order, execute, change_status,
}
use crypto_trader_ver_9_alph.Execution.Engine.Submission.{Completes, submit_order-Completes}
use crypto_trader_ver_9_alph.Execution.Engine.Journaling.{fill, perform, Journals, perform-Journals}

-- 2.0 BTC at market
abbrev order : ExecutionOrder ℤ
order = record {
  symbol = "BTC/USDT";
  side = OrderSide.buy;
  order_type = market;
  quantity = pos 2000000;
  price = none;
  client_order_id = "ver9-1";
  exchange_order_id = none;
  status = created;
  filled_quantity = pos 0;
  average_fill_price = pos 0;
  retry_count = 0;
  created_ts = pos 0;
  updated_ts = pos 0;
}

abbrev order_in : OrderStatus → ℤ → ExecutionOrder ℤ
order_in s now = record order { status = s; updated_ts = now }

complete_run : Life order 5 (order_in filled (pos 5))
unfolding transition
complete_run =
    next {p = order_in cancel_pending (pos 4)} filled (pos 5)
      (next {p = order_in partially_filled (pos 3)} cancel_pending (pos 4)
        (next {p = order_in acknowledged (pos 2)} partially_filled (pos 3)
          (next {p = order_in submitted (pos 1)} acknowledged (pos 2)
            (next submitted (pos 1) here refl) refl)
          refl)
        refl)
      refl

-- 0.5 at 100.0, then 1.5 at 104.0: filled at 103.0 on average
abbrev two_fills : List (ℤ × ℤ)
two_fills = (pos 500000, pos 100000000) ∷ (pos 1500000, pos 104000000) ∷ []

fills_average :
    let o = apply_fills order two_fills in
    (o.status ≡ filled) × (o.average_fill_price ≡ pos 103000000) × (remaining_quantity o ≡ pos 0)
unfolding apply_fill remaining_quantity
fills_average = (refl, refl, refl)

apply_fills_lem_example :
    let after = apply_fills order two_fills in
    let total = sum_from order.filled_quantity two_fills in
    (after.filled_quantity ≡ total)
    × (after.quantity ≡ order.quantity)
    × (after.status ≡ (if le order.quantity total then filled else partially_filled))
apply_fills_lem_example =
    apply_fills_lem order (pos 500000) (pos 100000000) ((pos 1500000, pos 104000000) ∷ [])

-- The adapter fails on its first two calls.
abbrev flaky : ℕ → ExecutionOrder ℤ → Attempt (Option String)
flaky n o = if leb 2 n then returned (some "ex-7") else raised "timeout"

abbrev dead : ℕ → ExecutionOrder ℤ → Attempt (Option String)
dead n o = raised "down"

abbrev engine_with : (ℕ → ExecutionOrder ℤ → Attempt (Option String)) → ExecutionEngine ℤ
engine_with submit = record {
  exchange_adapter = record {
    submit_order = submit;
    cancel_order = submit;
    replace_order = λ n o q p. submit n o;
  };
  retry_policy = default_config;
  time = λ n. pos n;
}

abbrev session : ExecutionOrder ℤ → Session ℤ
session o = record { order = o; journal = []; calls = 0; readings = 0; pauses = [] }

submission_runs :
    let (r, t) = submit_order (engine_with flaky) (session order) in
    (r ≡ ok tt)
    × (t.order.status ≡ acknowledged)
    × (t.order.exchange_order_id ≡ some "ex-7")
    × (t.calls ≡ 3)
    × (t.pauses ≡ pos 1000000 ∷ pos 2000000 ∷ [])
    × (t.journal ≡ order_record t.order ∷ [])
unfolding submit_order execute execute_from change_status transition
submission_runs = (refl, refl, refl, refl, refl, refl)

-- a counter that returns on its third call
abbrev counting : ℕ → Attempt ℕ × ℕ
counting n = (if leb 2 n then returned n else raised "again", n + 1)

execute_from-Ends_example :
    Ends counting
      (λ (d : ℤ) (n : ℕ). n)
      (pos 1000000)
      5
      1
      none
      0
      (execute_from counting (λ (d : ℤ) (n : ℕ). n) (pos 1000000) 5 1 none 0)
execute_from-Ends_example =
    execute_from-Ends counting (λ (d : ℤ) (n : ℕ). n) (pos 1000000) 5 1 none 0

submit_order-Completes_example :
    Completes
      (engine_with flaky)
      submitted
      acknowledged
      (session order)
      (submit_order (engine_with flaky) (session order))
submit_order-Completes_example = submit_order-Completes (engine_with flaky) (session order) refl

perform-Journals_example :
    Journals
      (engine_with flaky)
      (fill (pos 500000) (pos 100000000))
      (session order)
      (perform (engine_with flaky) (fill (pos 500000) (pos 100000000)) (session order))
perform-Journals_example =
    perform-Journals (engine_with flaky) (fill (pos 500000) (pos 100000000)) (session order)
