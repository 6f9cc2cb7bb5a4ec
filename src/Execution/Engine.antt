-- ===== src/Execution/Engine.antt =====
-- ver9/execution/execution_engine.py, with the journal of execution_journal.py and the interface
-- of exchange_adapter.py. A method is an action on a session: the order that it mutates, the
-- journal, and what it did to the outside (adapter calls, readings of the clock, pauses). An
-- exception leaves what was written. The adapter is a parameter: what its n-th call gives may
-- depend on n and on the order, which it is taken not to write to. Writing the journal file is
-- taken to succeed, and tasks that share an order are not modelled.
pub mod Execute
pub mod Submission
pub mod Journaling
use crypto_trader_ver_9_alph.Prelude.{ℕ, ◌+◌, Option, none, some, List, [], ◌∷◌, ◌++◌, String}
use crypto_trader_ver_9_alph.Prelude.Float.{FloatOps}
use crypto_trader_ver_9_alph.Execution.Order.{
  OrderStatus, submitted, acknowledged, cancel_pending, cancelled, ExecutionOrder, Result, ok, err,
  transition,
}
use crypto_trader_ver_9_alph.Execution.Fills.{apply_fill}
use crypto_trader_ver_9_alph.Execution.Retry.{Attempt, RetryPolicyConfig, execute_from}

-- A line of the journal file.
pub data JournalRecord (F : Type 0) : Type 0 where
  order_record : ExecutionOrder F → JournalRecord F
  fill_record : String → F → F → OrderStatus → JournalRecord F

pub record Session (F : Type 0) : Type 0 where
  pub order : ExecutionOrder F
  pub journal : List (JournalRecord F)
  pub calls : ℕ
  pub readings : ℕ
  pub pauses : List F

-- `response.get("exchange_order_id")` is all that the engine reads of a response.
pub record ExchangeExecutionAdapter (F : Type 0) : Type 0 where
  pub submit_order : ℕ → ExecutionOrder F → Attempt (Option String)
  pub cancel_order : ℕ → ExecutionOrder F → Attempt (Option String)
  pub replace_order : ℕ → ExecutionOrder F → F → F → Attempt (Option String)

pub record ExecutionEngine (F : Type 0) : Type 0 where
  pub exchange_adapter : ExchangeExecutionAdapter F
  pub retry_policy : RetryPolicyConfig F
  -- the n-th reading of `time()`
  pub time : ℕ → F

abbrev pub Action : Type 0 → Type 0 → Type 0
Action F A = Session F → Result A × Session F

infixl 5 ◌>>=◌ ◌>>◌
abbrev pub ◌>>=◌ : {F A B : Type 0} → Action F A → (A → Action F B) → Action F B
◌>>=◌ m f s = let (r, s') = m s in elim r [ ok a ↦ f a s' | err e ↦ (err e, s') ]

abbrev pub ◌>>◌ : {F A B : Type 0} → Action F A → Action F B → Action F B
m >> k = m >>= λ _. k

module _ {F : Type 0} where
  abbrev pub modify : (Session F → Session F) → Action F (Unit {0})
  modify f s = (ok tt, f s)

  -- `self.state_machine.transition(order, status)`; the clock is read only behind the guard
  unfoldable pub change_status : ExecutionEngine F → OrderStatus → Action F (Unit {0})
  change_status engine status s = elim (transition s.order status (engine.time s.readings)) [
    | ok order ↦ (ok tt, record s { order = order; readings = s.readings + 1 })
    | err e ↦ (err e, s)
  ]

  -- one `await operation(*args)`
  abbrev pub call :
      (ℕ → ExecutionOrder F → Attempt (Option String))
      → Session F
      → Attempt (Option String) × Session F
  call operation s = (operation s.calls s.order, record s { calls = s.calls + 1 })

  abbrev pub sleep : F → Session F → Session F
  sleep delay s = record s { pauses = s.pauses ++ delay ∷ [] }

  -- `ExecutionJournal.append_order` and `append_fill`
  abbrev pub append_order : Session F → Session F
  append_order s = record s { journal = s.journal ++ order_record s.order ∷ [] }

  abbrev pub append_fill : F → F → Session F → Session F
  append_fill quantity price s = record s {
    journal = s.journal ++ fill_record s.order.client_order_id quantity price s.order.status ∷ [];
  }

module _ {F : Type 0} ⦃o : FloatOps F⦄ (engine : ExecutionEngine F) where
  -- `self.retry_policy.execute(operation, ...)`
  unfoldable pub execute :
      (ℕ → ExecutionOrder F → Attempt (Option String)) → Action F (Option String)
  execute operation =
      execute_from (call operation) sleep engine.retry_policy.base_delay_seconds
        engine.retry_policy.max_attempts 1 none

  unfoldable pub submit_order : Action F (Unit {0})
  submit_order = do
    change_status engine submitted
    response ← execute engine.exchange_adapter.submit_order
    modify (λ s. record s { order = record (s.order) { exchange_order_id = response } })
    change_status engine acknowledged
    modify append_order

  unfoldable pub cancel_order : Action F (Unit {0})
  cancel_order = do
    change_status engine cancel_pending
    execute engine.exchange_adapter.cancel_order
    change_status engine cancelled
    modify append_order

  unfoldable pub replace_order : F → F → Action F (Unit {0})
  replace_order new_quantity new_price = do
    execute (λ n order. engine.exchange_adapter.replace_order n order new_quantity new_price)
    modify (λ s. record s {
      order = record (s.order) { quantity = new_quantity; price = some new_price };
    })
    modify append_order

  unfoldable pub fill_order : F → F → Action F (Unit {0})
  fill_order quantity price = do
    modify (λ s. record s { order = apply_fill s.order quantity price })
    modify (append_fill quantity price)
