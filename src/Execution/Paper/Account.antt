-- ===== src/Execution/Paper/Account.antt =====
-- What a paper session keeps: its positions, its equity and its counts.
use crypto_trader_ver_9_alph.Prelude.{
  ◌+◌, ◌<◌, ◌≤◌, ◌≡◌, refl, sym, subst, ap, ◌∙◌, ◌⊎◌, inl, inr, true, false, Option, none, some,
  List, [], ◌∷◌, ◌++◌, String, length, length-append, append_assoc, append-nil, All, arith, str_eq,
  eq_iff, Option-cases, Bool-cases,
}
use crypto_trader_ver_9_alph.Prelude.Dict.{
  Dict, lookup, insert, erase, values, lookup-insert, lookup-erase,
}
use crypto_trader_ver_9_alph.Prelude.Float.{FloatOps, decimal, add, sub, le}
use crypto_trader_ver_9_alph.Execution.Simulator.{
  SimulatedOrder, SimulatedFill, rejected, has_status, Random, Statistics, ExecutionSimulator,
  SimulationResult, simulate,
}
use crypto_trader_ver_9_alph.Execution.Simulator.Orders.{simulate-AllAnswer, length-AllAnswer}
use crypto_trader_ver_9_alph.Execution.Paper.{
  SessionPosition, SessionAccountState, PaperSession, gross_value, equity_from, blend,
  refresh_equity, buy, sell, apply_simulated_fill, process_fill, process_fills, process_orders,
}

-- The sum of two numbers that are not at most 0 is not at most 0 either: so it is for IEEE doubles,
-- infinities and NaN included.
pub record SumAbove (F : Type 0) ⦃o : FloatOps F⦄ : Type 0 where
  pub sum_above :
      (a b : F)
      → le a (decimal 0 0) ≡ false
      → le b (decimal 0 0) ≡ false
      → le (add a b) (decimal 0 0) ≡ false

module _ {F : Type 0} ⦃o : FloatOps F⦄ where
  abbrev pub IsAbove : F → Type 0
  IsAbove q = le q (decimal 0 0) ≡ false

  -- No position has a quantity of 0 or less.
  abbrev pub HeldIn : Dict (SessionPosition F) → Type 0
  HeldIn d = (k : String) (p : SessionPosition F) → lookup k d ≡ some p → IsAbove p.quantity

  -- The equity is the cash and the worth of every position at its average price.
  abbrev pub Settled : SessionAccountState F → Type 0
  Settled a = a.total_equity ≡ equity_from a.available_cash (values a.positions)

  -- A fill that is rejected or fills something.
  abbrev pub IsRegular : SimulatedFill F → Type 0
  IsRegular fill = (has_status rejected fill ≡ true) ⊎ IsAbove fill.filled_quantity

  insert-HeldIn :
      (k : String) (p : SessionPosition F) (d : Dict (SessionPosition F))
      → IsAbove p.quantity
      → HeldIn d
      → HeldIn (insert k p d)
  insert-HeldIn k p d q h j r e = ground (arith, lookup-insert k j p d, h j r)

  erase-HeldIn : (k : String) (d : Dict (SessionPosition F)) → HeldIn d → HeldIn (erase k d)
  erase-HeldIn k d h j r e = ground (arith, lookup-erase k j d, h j r)

  sell-HeldIn :
      (fill : SimulatedFill F) (a : SessionAccountState F)
      → HeldIn a.positions
      → HeldIn (sell fill a).positions
  unfolding sell
  sell-HeldIn fill a h = elim (Option-cases (lookup fill.symbol a.positions)) [
    | inl e ↦ rw (e, sell) h
    | inr (p, e) ↦ elim (Bool-cases (le (sub p.quantity fill.filled_quantity) (decimal 0 0))) [
      | inl z ↦ rw (e, sell, z) (erase-HeldIn fill.symbol a.positions h)
      | inr z ↦
          rw (e, sell, z)
            (insert-HeldIn fill.symbol (record p { quantity = sub p.quantity fill.filled_quantity })
              a.positions z h)
    ]
  ]

  buy-HeldIn :
      SumAbove F
      → (fill : SimulatedFill F) (a : SessionAccountState F) → IsAbove fill.filled_quantity
      → HeldIn a.positions
      → ((buy fill a).0 ≡ none) × HeldIn (buy fill a).1.positions
  unfolding buy
  buy-HeldIn law fill a q h = elim (Option-cases (lookup fill.symbol a.positions)) [
    | inl e ↦
        rw (e, buy)
          (
            refl,
            insert-HeldIn fill.symbol
                (record {
                  asset = fill.symbol;
                  quantity = fill.filled_quantity;
                  average_price = fill.executed_price;
                })
                a.positions q h,
          )
    | inr (p, e) ↦
        let z = law.sum_above p.quantity fill.filled_quantity (h fill.symbol p e) q in
        rw (e, buy, z)
          (
            refl,
            insert-HeldIn fill.symbol
                (record p {
                  quantity = add p.quantity fill.filled_quantity;
                  average_price = blend p fill;
                })
                a.positions z h,
          )
  ]

  -- What a fill of some quantity leaves of the account.
  apply_simulated_fill-HeldIn :
      SumAbove F
      → (fill : SimulatedFill F) (a : SessionAccountState F) → IsAbove fill.filled_quantity
      → HeldIn a.positions
      → ((apply_simulated_fill fill a).0 ≡ none)
        × HeldIn (apply_simulated_fill fill a).1.positions
        × Settled (apply_simulated_fill fill a).1
  unfolding apply_simulated_fill refresh_equity
  apply_simulated_fill-HeldIn law fill a q h = elim (Bool-cases (str_eq fill.side "buy")) [
    | inl e ↦ let (n, k) = buy-HeldIn law fill a q h in rw (e, n) (refl, k, refl)
    | inr e ↦ rw e (refl, sell-HeldIn fill a h, refl)
  ]

  -- What a run of the loop over some fills leaves of a session whose positions are held and whose
  -- equity is settled.
  abbrev pub Processed :
      List (SimulatedFill F) → PaperSession F → Option String × PaperSession F → Type 0
  Processed fills s (error, t) =
      (error ≡ none)
      × HeldIn t.account.positions
      × Settled t.account
      × (t.statistics.submitted_orders ≡ s.statistics.submitted_orders)
      × (t.statistics.processed_fills + t.statistics.rejected_orders
          ≡ s.statistics.processed_fills + s.statistics.rejected_orders + length fills)
      × (t.execution_history ≡ s.execution_history ++ fills)

  process_fill-Processed :
      SumAbove F
      → (fill : SimulatedFill F) (s : PaperSession F) → IsRegular fill
      → HeldIn s.account.positions
      → Settled s.account
      → Processed (fill ∷ []) s (process_fill fill s)
  unfolding process_fill
  process_fill-Processed law fill s g h u = elim (Bool-cases (has_status rejected fill)) [
    | inl e ↦ rw e (refl, h, u, refl, omega arith, refl)
    | inr e ↦
        let q : IsAbove fill.filled_quantity = ground arith in
        let (n, k, v) = apply_simulated_fill-HeldIn law fill s.account q h in
        rw (e, n) (refl, k, v, refl, omega arith, refl)
  ]

  process_fills-Processed :
      SumAbove F
      → (fills : List (SimulatedFill F)) (s : PaperSession F) → All IsRegular fills
      → HeldIn s.account.positions
      → Settled s.account
      → Processed fills s (process_fills fills s)
  unfolding process_fills
  process_fills-Processed law [] s g h u =
      (refl, h, u, refl, omega arith, sym (append-nil s.execution_history))
  process_fills-Processed law (fill ∷ fills) s g h u =
      let (n, k, v, m, c, x) = process_fill-Processed law fill s g.0 h u in
      let s' = (process_fill fill s).1 in
      let (n', k', v', m', c', x') = process_fills-Processed law fills s' g.1 k v in
      rw (n, process_fills)
        (
          n',
          k',
          v',
          m' ∙ m,
          omega (arith, c, c'),
          x' ∙ ap (λ xs. xs ++ fills) x ∙ append_assoc s.execution_history (fill ∷ []) fills,
        )

  -- Every order submitted was counted as processed or rejected, and its fill is in the history.
  abbrev pub Counted : PaperSession F → Type 0
  Counted s =
      (s.statistics.submitted_orders ≡ s.statistics.processed_fills + s.statistics.rejected_orders)
      × (length s.execution_history ≡ s.statistics.submitted_orders)

  -- A session that is counted, settled and holds something of every position that it has.
  abbrev pub IsSound : PaperSession F → Type 0
  IsSound s = HeldIn s.account.positions × Settled s.account × Counted s

  -- the fills of a simulation that returns
  abbrev pub fills_of : Option (SimulationResult F) → List (SimulatedFill F)
  fills_of none = []
  fills_of (some result) = result.fills

  -- Processing the orders of a session: on a reversed range of the latency it raises and leaves the
  -- account as it was; else it leaves a sound session.
  abbrev pub Answered :
      {R : Type 0}
      → ExecutionSimulator F
      → List (SimulatedOrder F)
      → PaperSession F
      → Option String × PaperSession F × R
      → Type 0
  Answered simulator orders s (error, t, r) =
      ((simulator.latency_range_ms.1 < simulator.latency_range_ms.0)
        × (1 ≤ length orders)
        × (error ≡ some "empty range for randrange()")
        × (t.account ≡ s.account))
      ⊎ ((error ≡ none) × IsSound t)

  -- Where a sum of numbers not at most 0 is not at most 0: if every fill of the simulation is
  -- rejected or fills something, processing the orders in a sound session either does not raise, and
  -- leaves a sound session: every position has a quantity that is not 0 or less, the equity is the
  -- cash and the worth of the positions, and each order submitted is counted once, as processed or
  -- as rejected, with its fill in the history; or there is an order, the range of the latency is
  -- reversed, and it raises and leaves the account as it was.
  pub process_orders-IsSound :
      SumAbove F
      → {R : Type 0} (random : Random R F) (simulator : ExecutionSimulator F)
        (statistics : Statistics F) (orders : List (SimulatedOrder F)) (s : PaperSession F) (r : R)
      → All IsRegular (fills_of (simulate random simulator statistics orders r).0)
      → IsSound s
      → Answered simulator orders s (process_orders random simulator statistics orders (s, r))
  unfolding process_orders
  process_orders-IsSound law random simulator statistics orders s r g (h, u, c) =
      elim (simulate-AllAnswer random simulator statistics orders r) [
        | inl (q, l, k) ↦ rw (q, process_orders) (inl (l, k, refl, refl))
        | inr (result, q, a, b, d) ↦
            let fills = result.fills in
            let submitted : PaperSession F = record s {
              statistics = record (s.statistics) {
                submitted_orders = s.statistics.submitted_orders + length orders;
              };
            } in
            let regular : All IsRegular fills = subst (λ x. All IsRegular (fills_of x)) q g in
            let (n, k, v, m, e, x) = process_fills-Processed law fills submitted regular h u in
            let l = length-AllAnswer random simulator orders fills r _ a in
            let j = length-append s.execution_history fills in
            rw (q, process_orders)
              (inr (
                n,
                (
                  k,
                  v,
                  (omega (arith, m, e, l, c.0), ap length x ∙ j ∙ omega (arith, m, l, c.0, c.1)),
                ),
              ))
      ]

  -- A sale of a symbol that is not held, or of at least what is held, pays the whole sale into the
  -- cash and leaves no position of the symbol: what was sold beyond the holding is not kept
  -- anywhere.
  sell_beyond :
      (fill : SimulatedFill F) (a : SessionAccountState F)
      → str_eq fill.side "buy" ≡ false
      → ((p : SessionPosition F)
          → lookup fill.symbol a.positions ≡ some p
          → le (sub p.quantity fill.filled_quantity) (decimal 0 0) ≡ true)
      → let (error, t) = apply_simulated_fill fill a in
        (lookup fill.symbol t.positions ≡ none)
        × (t.available_cash ≡ add a.available_cash (sub (gross_value fill) fill.fees_paid))
  unfolding apply_simulated_fill refresh_equity sell
  sell_beyond fill a e h = elim (Option-cases (lookup fill.symbol a.positions)) [
    | inl n ↦ rw (e, sell, n) (n, refl)
    | inr (p, n) ↦
        let gone = lookup-erase fill.symbol fill.symbol a.positions in
        rw (e, sell, n, h p n) (ground (arith, gone, eq_iff fill.symbol fill.symbol), refl)
  ]
