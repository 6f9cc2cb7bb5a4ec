-- ===== src/Research/Search/Guardrails.antt =====
-- The guardrails of the search.
use crypto_trader_ver_9_alph.Prelude.{◌≤◌, ◌≡◌, true, false, arith}
use crypto_trader_ver_9_alph.Prelude.Float.{FloatOps, TotalOrder, lt, div, abs}
use crypto_trader_ver_9_alph.Research.Search.{
  OptimizationCandidate, OptimizationGuardrails, number, evaluate,
}

-- Every threshold of `a` is at least as strict as that of `b`.
pub record IsStricter {F : Type 0} ⦃o : FloatOps F⦄ (a b : OptimizationGuardrails F) : Type 0 where
  pub trade_count : b.min_trade_count ≤ a.min_trade_count
  pub drawdown : lt b.max_drawdown_pct a.max_drawdown_pct ≡ false
  pub sharpe : lt a.min_sharpe_ratio b.min_sharpe_ratio ≡ false
  pub ratio : lt b.max_return_to_drawdown_ratio a.max_return_to_drawdown_ratio ≡ false

module _ {F V : Type 0} ⦃o : FloatOps F⦄ where
  -- Where the order of the numbers is total, a candidate that passes some guardrails passes all
  -- that are not stricter.
  evaluate-monotone :
      TotalOrder F
      → (a b : OptimizationGuardrails F) (c : OptimizationCandidate F V) → IsStricter a b
      → (evaluate a c).accepted ≡ true
      → (evaluate b c).accepted ≡ true
  unfolding evaluate
  evaluate-monotone order a b c s h =
      let m = c.metrics in
      let drawdown = abs (number m.max_drawdown_pct) in
      ground (
        arith,
        s.trade_count,
        order.not_lt_trans b.max_drawdown_pct a.max_drawdown_pct drawdown,
        order.not_lt_trans (number m.sharpe_ratio) a.min_sharpe_ratio b.min_sharpe_ratio,
        order.not_lt_trans b.max_return_to_drawdown_ratio a.max_return_to_drawdown_ratio
            (div (number m.total_return_pct) drawdown),
      )
