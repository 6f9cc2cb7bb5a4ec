-- ===== src/Broker/Counts.antt =====
-- What the loop of `_build_telemetry` adds up: the rows of the history, and the counters of a
-- strategy.
use crypto_trader_ver_9_alph.Prelude.{
  ℕ, ◌+◌, ◌≡◌, sym, ap, ◌∙◌, inl, inr, List, [], ◌∷◌, ◌++◌, map, map-append, String, str_eq,
  append_assoc, append-nil, is_some, arith, eq_iff, Option-cases, if◌then◌else◌,
}
use crypto_trader_ver_9_alph.Prelude.Dict.{Dict, lookup-insert}
use crypto_trader_ver_9_alph.Prelude.Float.{FloatOps}
use crypto_trader_ver_9_alph.Basket.Weights.{count_of}
use crypto_trader_ver_9_alph.Broker.{OrderRequest, ExecutionResult, RejectedOrder, BrokerOps}
use crypto_trader_ver_9_alph.Broker.Telemetry.{
  Tally, count_in, bump, fill_for, tally_order, tally_orders,
}

module _ {F : Type 0} ⦃o : FloatOps F⦄ (ops : BrokerOps F) where
  tally_order-history :
      (fs : List (ExecutionResult F)) (xs : List (RejectedOrder F)) (r : OrderRequest F)
      (t : Tally F)
      → map (λ a. a.accepted) (tally_order ops fs xs r t).acceptance_history
        ≡ map (λ a. a.accepted) t.acceptance_history ++ is_some (fill_for r fs) ∷ []
  unfolding tally_order
  tally_order-history fs xs r t = elim (Option-cases (fill_for r fs)) [
    | inl e ↦ rw (e, tally_order) (map-append (λ a. a.accepted) t.acceptance_history _)
    | inr (f, e) ↦ rw (e, tally_order) (map-append (λ a. a.accepted) t.acceptance_history _)
  ]

  pub tally-history :
      (fs : List (ExecutionResult F)) (xs : List (RejectedOrder F)) (rs : List (OrderRequest F))
      (t : Tally F)
      → map (λ a. a.accepted) (tally_orders ops fs xs rs t).acceptance_history
        ≡ map (λ a. a.accepted) t.acceptance_history ++ map (λ r. is_some (fill_for r fs)) rs
  unfolding tally_orders
  tally-history fs xs [] t = sym (append-nil (map (λ a. a.accepted) t.acceptance_history))
  tally-history fs xs (r ∷ rs) t =
      tally-history fs xs rs (tally_order ops fs xs r t)
      ∙ ap (λ bs. bs ++ map (λ r. is_some (fill_for r fs)) rs) (tally_order-history fs xs r t)
      ∙ append_assoc (map (λ a. a.accepted) t.acceptance_history) (is_some (fill_for r fs) ∷ [])
          (map (λ r. is_some (fill_for r fs)) rs)

  bump-count :
      (id k : String) (d : Dict ℕ)
      → count_in id (bump k d) ≡ (if str_eq k id then 1 else 0) + count_in id d
  bump-count id k d = ground (arith, eq_iff k id, lookup-insert k id (count_in k d + 1) d)

  -- What an order adds to the counters of a strategy.
  tally_order-counts :
      (id : String) (fs : List (ExecutionResult F)) (xs : List (RejectedOrder F))
      (r : OrderRequest F) (t : Tally F)
      → let u = tally_order ops fs xs r t in
        let n : ℕ = if str_eq (r.strategy_id) id then 1 else 0 in
        (count_in id u.request_by_strategy ≡ n + count_in id t.request_by_strategy)
        × (count_in id u.fill_by_strategy + count_in id u.reject_by_strategy
            ≡ n + count_in id t.fill_by_strategy + count_in id t.reject_by_strategy)
  unfolding tally_order
  tally_order-counts id fs xs r t =
      let k = r.strategy_id in
      elim (Option-cases (fill_for r fs)) [
        | inl e ↦
            rw (e, tally_order)
              (
                bump-count id k t.request_by_strategy,
                omega (arith, bump-count id k t.reject_by_strategy),
              )
        | inr (f, e) ↦
            rw (e, tally_order)
              (
                bump-count id k t.request_by_strategy,
                omega (arith, bump-count id k t.fill_by_strategy),
              )
      ]

  -- The requests of a strategy are its orders, and each is filled or rejected.
  pub tally-counts :
      (id : String) (fs : List (ExecutionResult F)) (xs : List (RejectedOrder F))
      (rs : List (OrderRequest F)) (t : Tally F)
      → let u = tally_orders ops fs xs rs t in
        let n = count_of id (map (λ r. r.strategy_id) rs) in
        (count_in id u.request_by_strategy ≡ n + count_in id t.request_by_strategy)
        × (count_in id u.fill_by_strategy + count_in id u.reject_by_strategy
            ≡ n + count_in id t.fill_by_strategy + count_in id t.reject_by_strategy)
  unfolding tally_orders
  tally-counts id fs xs [] t = (omega arith, omega arith)
  tally-counts id fs xs (r ∷ rs) t =
      let u = tally_order ops fs xs r t in
      let (p, q) = tally_order-counts id fs xs r t in
      let (p', q') = tally-counts id fs xs rs u in (omega (arith, p, p'), omega (arith, q, q'))
