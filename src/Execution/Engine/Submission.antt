-- ===== src/Execution/Engine/Submission.antt =====
-- How a submission and a cancellation end, and what may follow a failed one.
use crypto_trader_ver_9_alph.Prelude.{
  ℕ, ◌+◌, ◌≤◌, ◌<◌, ◌≡◌, ◌⊎◌, Option, none, arith, String, [], ◌∷◌, ◌++◌,
}
use crypto_trader_ver_9_alph.Prelude.Float.{FloatOps}
use crypto_trader_ver_9_alph.Execution.Order.{
  OrderStatus, created, submitted, acknowledged, partially_filled, cancel_pending, cancelled,
  ExecutionOrder, Result, ok, err, retries_exhausted, invalid_transition, transition,
}
use crypto_trader_ver_9_alph.Execution.Retry.{Attempt, returned}
use crypto_trader_ver_9_alph.Execution.Engine.{
  Session, ExecutionEngine, order_record, execute, submit_order, cancel_order, change_status,
}
use crypto_trader_ver_9_alph.Execution.Engine.Execute.{Keeps, Supervised, run-Keeps, run_succeeds}

module _ {F : Type 0} ⦃o : FloatOps F⦄ (engine : ExecutionEngine F) where
  -- the session after an accepted change of status
  abbrev pub moved : OrderStatus → Session F → Session F
  moved status s = record s {
    order = record (s.order) { status = status; updated_ts = engine.time s.readings };
    readings = s.readings + 1;
  }

  pub execute-Keeps :
      (operation : ℕ → ExecutionOrder F → Attempt (Option String)) (s : Session F)
      → Keeps engine.retry_policy.max_attempts s (execute engine operation s).1
        × Supervised (execute engine operation s).0
  unfolding execute
  execute-Keeps operation s =
      run-Keeps operation engine.retry_policy.base_delay_seconds engine.retry_policy.max_attempts 1
        none s

  execute_succeeds :
      (operation : ℕ → ExecutionOrder F → Attempt (Option String)) (s : Session F) (k : ℕ)
      (v : Option String)
      → k < engine.retry_policy.max_attempts
      → operation (s.calls + k) s.order ≡ returned v
      → (w : Option String) × ((execute engine operation s).0 ≡ ok w)
  unfolding execute
  execute_succeeds operation s k v h q =
      run_succeeds operation engine.retry_policy.base_delay_seconds engine.retry_policy.max_attempts
        1 none s k v h q

  -- What a call did, by how it ended: it succeeded, the order is in the `done` status and its
  -- final state is the one new line of the journal; or the retries were exhausted, the order is
  -- in the `pending` status and nothing was journaled. Either way the adapter was called at most
  -- as often as the policy allows.
  abbrev pub Completes :
      OrderStatus → OrderStatus → Session F → Result (Unit {0}) × Session F → Type 0
  Completes pending done s (ok u, t) =
      (t.order.status ≡ done)
      × (t.journal ≡ s.journal ++ order_record t.order ∷ [])
      × (t.calls ≤ s.calls + engine.retry_policy.max_attempts)
  Completes pending done s (err e, t) =
      ((x : Option String) × (e ≡ retries_exhausted x))
      × (t.order.status ≡ pending)
      × (t.journal ≡ s.journal)
      × (t.calls ≤ s.calls + engine.retry_policy.max_attempts)

  -- The submission of a CREATED order ends ACKNOWLEDGED with its final state journaled, or
  -- exhausts the retries and stays SUBMITTED with nothing journaled; either way the adapter is
  -- called at most `max_attempts` times.
  pub submit_order-Completes :
      (s : Session F)
      → s.order.status ≡ created
      → Completes submitted acknowledged s (submit_order engine s)
  unfolding submit_order change_status transition
  submit_order-Completes s h =
      ground (arith, execute-Keeps engine.exchange_adapter.submit_order (moved submitted s))

  -- The cancellation of an ACKNOWLEDGED or PARTIALLY_FILLED order ends CANCELLED with its final
  -- state journaled, or exhausts the retries and stays CANCEL_PENDING with nothing journaled;
  -- either way the adapter is called at most `max_attempts` times.
  cancel_order-Completes :
      (s : Session F)
      → (s.order.status ≡ acknowledged) ⊎ (s.order.status ≡ partially_filled)
      → Completes cancel_pending cancelled s (cancel_order engine s)
  unfolding cancel_order change_status transition
  cancel_order-Completes s h =
      ground (arith, execute-Keeps engine.exchange_adapter.cancel_order (moved cancel_pending s))

  -- If one of the first `max_attempts` calls of the adapter would return on the submitted order,
  -- the submission of a CREATED order succeeds.
  submit_order_succeeds :
      (s : Session F) (k : ℕ) (v : Option String)
      → s.order.status ≡ created
      → k < engine.retry_policy.max_attempts
      → engine.exchange_adapter.submit_order (s.calls + k) (moved submitted s).order ≡ returned v
      → (submit_order engine s).0 ≡ ok tt
  unfolding submit_order change_status transition
  submit_order_succeeds s k v h lt q = ground (
    arith,
    execute-Keeps engine.exchange_adapter.submit_order (moved submitted s),
    execute_succeeds engine.exchange_adapter.submit_order (moved submitted s) k v lt q,
  )

  -- An order whose submission has exhausted its retries is stuck: a second submission and a
  -- cancellation are both refused by the state machine.
  submit_order_stuck :
      (s : Session F) (x : Option String)
      → (submit_order engine s).0 ≡ err (retries_exhausted x)
      → let t = (submit_order engine s).1 in
        (submit_order engine t ≡ (err (invalid_transition submitted submitted), t))
        × (cancel_order engine t ≡ (err (invalid_transition submitted cancel_pending), t))
  unfolding submit_order cancel_order change_status transition
  submit_order_stuck s x h =
      ground (arith, execute-Keeps engine.exchange_adapter.submit_order (moved submitted s))
