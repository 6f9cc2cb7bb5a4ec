-- ===== src/Broker/Answers.antt =====
-- How a broker answers a batch of orders, and what the telemetry says of each order and strategy.
use crypto_trader_ver_9_alph.Prelude.{
  ◌+◌, ◌≡◌, refl, sym, ap, ◌∙◌, inl, inr, true, not, List, [], ◌∷◌, ◌++◌, map, String, length,
  length-append, append_assoc, append-nil, is_some, All, arith, Bool-cases, if◌then◌else◌,
}
use crypto_trader_ver_9_alph.Prelude.Dict.{lookup}
use crypto_trader_ver_9_alph.Prelude.Float.{FloatOps, add, mul}
use crypto_trader_ver_9_alph.Basket.Weights.{count_of}
use crypto_trader_ver_9_alph.Broker.{
  OrderRequest, ExecutionResult, RejectedOrder, BrokerOps, has_key,
}
use crypto_trader_ver_9_alph.Broker.Counts.{tally-history, tally-counts}
use crypto_trader_ver_9_alph.Broker.Telemetry.{
  no_tally, fill_for, tally_orders, strategy_stats, per_strategy_stats,
}
use crypto_trader_ver_9_alph.Broker.Submit.{
  PaperBroker, Progress, price_of, fill_of, rejection_of, is_refused, submit_order, submit_orders,
  submit, no_progress,
}
use crypto_trader_ver_9_alph.Broker.Keys.{
  All-map, accepted_orders, KeysAgree, accepted-filled, filled_lem,
}

All-of_map :
    {A B : Type 0} (P : B → Type 0) (f : A → B)
    → ((x : A) → P (f x))
    → (xs : List A) → All P (map f xs)
All-of_map P f h [] = tt
All-of_map P f h (x ∷ xs) = (h x, All-of_map P f h xs)

module _ {F : Type 0} ⦃o : FloatOps F⦄ (ops : BrokerOps F) (broker : PaperBroker F) where
  -- the order as `submit` leaves it
  abbrev pub answered : OrderRequest F → OrderRequest F
  answered r =
      if is_refused ops broker r
      then record r { status = "rejected" }
      else record r { status = "filled" }

  submit_orders_lem :
      (rs : List (OrderRequest F)) (p : Progress F)
      → let q = submit_orders ops broker rs p in
        (q.fills ≡ p.fills ++ map (fill_of ops) (accepted_orders ops broker rs))
        × ((length q.fills + length q.rejections ≡ length p.fills + length p.rejections + length rs)
            × (q.orders ≡ p.orders ++ map answered rs))
  unfolding submit_orders submit_order
  submit_orders_lem [] p = (sym (append-nil p.fills), (omega arith, sym (append-nil p.orders)))
  submit_orders_lem (r ∷ rs) p = elim (Bool-cases (is_refused ops broker r)) [
    | inl e ↦
        let p' : Progress F = record p {
          rejections = p.rejections ++ rejection_of ops r ∷ [];
          orders = p.orders ++ record r { status = "rejected" } ∷ [];
        } in
        let (fills, (counts, orders)) = submit_orders_lem rs p' in
        rw (e, submit_orders, submit_order)
          (
            fills,
            (
              omega (arith, counts, length-append p.rejections (rejection_of ops r ∷ [])),
              orders
                  ∙ append_assoc p.orders (record r { status = "rejected" } ∷ []) (map answered rs),
            ),
          )
    | inr e ↦
        let p' : Progress F = record p {
          fills = p.fills ++ fill_of ops r ∷ [];
          committed = add p.committed (mul r.quantity (price_of ops r));
          orders = p.orders ++ record r { status = "filled" } ∷ [];
        } in
        let (fills, (counts, orders)) = submit_orders_lem rs p' in
        rw (e, submit_orders, submit_order)
          (
            fills
                ∙ append_assoc p.fills (fill_of ops r ∷ [])
                    (map (fill_of ops) (accepted_orders ops broker rs)),
            (
              omega (arith, counts, length-append p.fills (fill_of ops r ∷ [])),
              orders
                  ∙ append_assoc p.orders (record r { status = "filled" } ∷ []) (map answered rs),
            ),
          )
  ]

  fill_for-status :
      (r : OrderRequest F) (status : String) (fs : List (ExecutionResult F))
      → fill_for (record r { status = status }) fs ≡ fill_for r fs
  unfolding fill_for
  fill_for-status r status [] = refl
  fill_for-status r status (f ∷ fs) = rw (fill_for-status r status fs) refl

  answered-fill :
      (rs : List (OrderRequest F)) (fs : List (ExecutionResult F))
      → map (λ r. is_some (fill_for r fs)) (map answered rs) ≡ map (λ r. is_some (fill_for r fs)) rs
  answered-fill [] fs = refl
  answered-fill (r ∷ rs) fs = elim (Bool-cases (is_refused ops broker r)) [
    | inl e ↦
        rw e rw (fill_for-status r "rejected" fs)
          (ap (λ bs. is_some (fill_for r fs) ∷ bs) (answered-fill rs fs))
    | inr e ↦
        rw e rw (fill_for-status r "filled" fs)
          (ap (λ bs. is_some (fill_for r fs) ∷ bs) (answered-fill rs fs))
  ]

  answered-ids :
      (rs : List (OrderRequest F))
      → map (λ r. r.strategy_id) (map answered rs) ≡ map (λ r. r.strategy_id) rs
  answered-ids [] = refl
  answered-ids (r ∷ rs) = elim (Bool-cases (is_refused ops broker r)) [
    | inl e ↦ rw e (ap (λ ids. r.strategy_id ∷ ids) (answered-ids rs))
    | inr e ↦ rw e (ap (λ ids. r.strategy_id ∷ ids) (answered-ids rs))
  ]

  -- A batch of orders gets as many answers as it has orders, and the history has a row for each,
  -- accepted exactly where the ratio of the order is not below the threshold, if an order finds its
  -- own fill and orders that share a key are answered alike.
  pub submit-answers :
      (orders : List (OrderRequest F))
      → KeysAgree ops broker orders
      → let s = submit ops broker orders in
        (s.filled_orders + s.rejected_orders ≡ s.requested_orders)
        × (map (λ a. a.accepted) s.acceptance_history
            ≡ map (λ r. not (is_refused ops broker r)) orders)
  unfolding submit
  submit-answers orders h =
      let p = submit_orders ops broker orders (no_progress ops broker) in
      let (fills, (counts, answers)) = submit_orders_lem orders (no_progress ops broker) in
      (
        omega (arith, counts),
        tally-history ops p.fills p.rejections p.orders no_tally
            ∙ ap (λ rs. map (λ r. is_some (fill_for r p.fills)) rs) answers
            ∙ answered-fill orders p.fills
            ∙ ap (λ fs. map (λ r. is_some (fill_for r fs)) orders) fills
            ∙ filled_lem ops broker orders orders h (
                accepted-filled ops broker orders
                  (All-map _ (λ r. has_key r (fill_of ops r) ≡ true) (λ r x. x.0) orders h)),
      )

  strategy_stats_lem :
      (id : String) (orders rs : List (OrderRequest F)) (fs : List (ExecutionResult F))
      (xs : List (RejectedOrder F))
      → rs ≡ map answered orders
      → let x = strategy_stats ops (tally_orders ops fs xs rs no_tally) id in
        (x.requested_orders ≡ count_of id (map (λ r. r.strategy_id) orders))
        × (x.filled_orders + x.rejected_orders ≡ x.requested_orders)
  unfolding strategy_stats lookup
  strategy_stats_lem id orders rs fs xs e =
      let (p, q) = tally-counts ops id fs xs rs no_tally in
      let same =
        ap (λ rs. count_of id (map (λ r. r.strategy_id) rs)) e
        ∙ ap (λ ids. count_of id ids) (answered-ids orders) in
      (omega (arith, p, same), omega (arith, p, q))

  -- In the statistics that a batch leaves, the requests of a strategy are its orders of the batch,
  -- and each of them is filled or rejected.
  submit-stats :
      (orders : List (OrderRequest F))
      → All
          (λ x.
            (x.1.requested_orders ≡ count_of (x.0) (map (λ r. r.strategy_id) orders))
            × (x.1.filled_orders + x.1.rejected_orders ≡ x.1.requested_orders))
          (submit ops broker orders).per_strategy_stats
  unfolding submit per_strategy_stats
  submit-stats orders =
      let p = submit_orders ops broker orders (no_progress ops broker) in
      let answers = (submit_orders_lem orders (no_progress ops broker)).1.1 in
      All-of_map
        (λ x.
          (x.1.requested_orders ≡ count_of (x.0) (map (λ r. r.strategy_id) orders))
          × (x.1.filled_orders + x.1.rejected_orders ≡ x.1.requested_orders))
        (λ id.
          (id, strategy_stats ops (tally_orders ops p.fills p.rejections p.orders no_tally) id))
        (λ id. strategy_stats_lem id orders p.orders p.fills p.rejections answers) _
