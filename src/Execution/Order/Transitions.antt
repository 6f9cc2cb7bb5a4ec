-- ===== src/Execution/Order/Transitions.antt =====
-- What the order state machine allows over a whole life of an order.
use crypto_trader_ver_9_alph.Prelude.{ℕ, suc, ◌+◌, ◌≤◌, ◌≡◌, ◌↔◌, ◌⊎◌, arith}
use crypto_trader_ver_9_alph.Execution.Order.{
  OrderStatus, created, submitted, acknowledged, partially_filled, filled, cancel_pending,
  cancelled, rejected, failed, ExecutionOrder, ok, err, invalid_transition, transition,
}

-- How far an order has come; each transition moves it on.
abbrev pub rank : OrderStatus → ℕ
rank created = 0
rank submitted = 1
rank acknowledged = 2
rank partially_filled = 3
rank cancel_pending = 4
rank filled = 5
rank cancelled = 5
rank rejected = 5
rank failed = 5

abbrev pub IsTerminal : OrderStatus → Type 0
IsTerminal s = (s ≡ filled) ⊎ (s ≡ cancelled) ⊎ (s ≡ rejected) ⊎ (s ≡ failed)

rank-le : (s : OrderStatus) → rank s ≤ 5
rank-le s = ground arith

module _ {F : Type 0} where
  -- `n` transitions, each accepted, lead from one order to another.
  pub data Life (o : ExecutionOrder F) : ℕ → ExecutionOrder F → Type 0 where
    here : Life o 0 o
    next :
        {n : ℕ} {p q : ExecutionOrder F} (s : OrderStatus) (now : F)
        → Life o n p
        → transition p s now ≡ ok q
        → Life o (suc n) q

  rank-transition :
      (p q : ExecutionOrder F) (s : OrderStatus) (now : F)
      → transition p s now ≡ ok q
      → suc (rank p.status) ≤ rank q.status
  unfolding transition
  rank-transition p q s now h = ground arith

  rank-Life : {o p : ExecutionOrder F} {n : ℕ} → Life o n p → rank o.status + n ≤ rank p.status
  rank-Life here = omega arith
  rank-Life (next {n = n} {p = p} {q = q} s now l h) =
      omega (arith, rank-Life l, rank-transition p q s now h)

  -- An order passes through at most five accepted transitions, whatever is asked of it.
  Life-bounded : (o p : ExecutionOrder F) (n : ℕ) → Life o n p → n ≤ 5
  Life-bounded o p n l = omega (arith, rank-Life l, rank-le p.status)

  -- The statuses that refuse every transition are exactly filled, cancelled, rejected and failed.
  refuses_all_iff :
      (o : ExecutionOrder F) (now : F)
      → ((s : OrderStatus) → transition o s now ≡ err (invalid_transition o.status s))
        ↔ IsTerminal o.status
  unfolding transition
  refuses_all_iff o now = (λ h. ground (arith, h failed, h cancelled), λ t s. ground arith)
