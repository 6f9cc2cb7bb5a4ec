-- ===== src/Execution/Engine/Journaling.antt =====
-- What every operation of the engine writes to the journal.
use crypto_trader_ver_9_alph.Prelude.{◌≡◌, arith, [], ◌∷◌, ◌++◌}
use crypto_trader_ver_9_alph.Prelude.Float.{FloatOps}
use crypto_trader_ver_9_alph.Execution.Order.{
  Result, ok, err, transition, submitted, cancel_pending,
}
use crypto_trader_ver_9_alph.Execution.Engine.{
  Session, ExecutionEngine, Action, JournalRecord, order_record, fill_record, submit_order,
  cancel_order, replace_order, fill_order, change_status,
}
use crypto_trader_ver_9_alph.Execution.Engine.Submission.{execute-Keeps, moved}

pub data Operation (F : Type 0) : Type 0 where
  submission cancellation : Operation F
  replacement : F → F → Operation F
  fill : F → F → Operation F

module _ {F : Type 0} ⦃o : FloatOps F⦄ (engine : ExecutionEngine F) where
  abbrev pub perform : Operation F → Action F (Unit {0})
  perform submission = submit_order engine
  perform cancellation = cancel_order engine
  perform (replacement q p) = replace_order engine q p
  perform (fill q p) = fill_order engine q p

  -- the line that an operation writes when it succeeds, from the order that it leaves
  abbrev pub line : Operation F → Session F → JournalRecord F
  line (fill q p) t = fill_record t.order.client_order_id q p t.order.status
  line _ t = order_record t.order

  abbrev pub Journals : Operation F → Session F → Result (Unit {0}) × Session F → Type 0
  Journals op s (ok u, t) = t.journal ≡ s.journal ++ line op t ∷ []
  Journals op s (err e, t) = t.journal ≡ s.journal

  -- Every operation that succeeds appends exactly one line, which records the order that it
  -- leaves (for a fill: the client's id, the fill and the new status), and one that raises
  -- appends none.
  pub perform-Journals : (op : Operation F) (s : Session F) → Journals op s (perform op s)
  unfolding submit_order cancel_order replace_order fill_order change_status transition
  perform-Journals submission s =
      ground (
        arith,
        execute-Keeps engine engine.exchange_adapter.submit_order (moved engine submitted s),
      )
  perform-Journals cancellation s = ground (
    arith,
    execute-Keeps engine engine.exchange_adapter.cancel_order (moved engine cancel_pending s),
  )
  perform-Journals (replacement q p) s =
      ground (
        arith,
        execute-Keeps engine (λ n order. engine.exchange_adapter.replace_order n order q p) s,
      )
  perform-Journals (fill q p) s = ground arith
