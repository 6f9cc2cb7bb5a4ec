-- ===== src/Runtime/Reconciliation/Cycle.antt =====
-- What a cycle of the scheduler does with the diffs.
use crypto_trader_ver_9_alph.Prelude.{◌≡◌, refl, true, false, Option, none, some, [], ◌∷◌, String}
use crypto_trader_ver_9_alph.Prelude.Dict.{Dict, lookup, contains}
use crypto_trader_ver_9_alph.Prelude.Float.{FloatOps, decimal, sub, abs, lt}
use crypto_trader_ver_9_alph.Runtime.Reconciliation.{
  Position, quantity_of, FetchedState, fetched, ReconciliationSchedulerConfig, Call, absent,
  stale_symbols, mismatches_from, reconcile_orders, reconcile_positions, reconcile_balances,
  compare_states, run_cycle,
}

-- every key of one dict is in the other
abbrev pub KeysWithin : {V W : Type 0} → Dict V → Dict W → Type 0
KeysWithin [] e = Unit
KeysWithin ((k, v) ∷ d) e = (contains k e ≡ true) × KeysWithin d e

-- every entry of one dict is in the other
abbrev pub Within : {V : Type 0} → Dict V → Dict V → Type 0
Within [] e = Unit
Within ((k, v) ∷ d) e = (lookup k e ≡ some v) × Within d e

-- A number is within both tolerances of itself. On IEEE doubles x - x is 0, or NaN if x is not
-- finite, and neither exceeds a tolerance.
pub record SelfClose (F : Type 0) ⦃o : FloatOps F⦄ : Type 0 where
  pub quantity_close : (x : F) → lt (decimal 1 9) (abs (sub x x)) ≡ false
  pub balance_close : (x : F) → lt (decimal 1 6) (abs (sub x x)) ≡ false

absent-KeysWithin : {V W : Type 0} (d : Dict V) (e : Dict W) → KeysWithin d e → absent d e ≡ []
unfolding absent
absent-KeysWithin [] e h = refl
absent-KeysWithin ((k, v) ∷ d) e h = rw h.0 (absent-KeysWithin d e h.1)

module _ {F : Type 0} ⦃o : FloatOps F⦄ (close : SelfClose F) where
  stale_symbols-Within : (d e : Dict (Position F)) → Within d e → stale_symbols d e ≡ []
  unfolding stale_symbols
  stale_symbols-Within [] e h = refl
  stale_symbols-Within ((k, p) ∷ d) e h =
      rw h.0 (rw (close.quantity_close (quantity_of p)) (stale_symbols-Within d e h.1))

  mismatches_from-Within : (found d e : Dict F) → Within d e → mismatches_from found d e ≡ found
  unfolding mismatches_from
  mismatches_from-Within found [] e h = refl
  mismatches_from-Within found ((k, b) ∷ d) e h =
      rw h.0 (rw (close.balance_close b) (mismatches_from-Within found d e h.1))

  -- If the exchange has every local order and the very same local positions and balances, a cycle
  -- makes no call and raises nothing, whatever else the exchange has: orders, positions and
  -- balances that are unknown locally are not seen.
  pub run_cycle-Within :
      {V W : Type 0} (config : ReconciliationSchedulerConfig)
      (correction_handler halt_handler : Call F → Option String) (local : FetchedState F V)
      (exchange : FetchedState F W)
      → KeysWithin local.orders exchange.orders
      → Within local.positions exchange.positions
      → Within local.balances exchange.balances
      → run_cycle config correction_handler halt_handler (fetched local) (fetched exchange)
        ≡ record { calls = []; error = none }
  unfolding run_cycle compare_states reconcile_orders reconcile_positions reconcile_balances
  run_cycle-Within config correction_handler halt_handler local exchange ho hp hb = simp (
    absent-KeysWithin local.orders exchange.orders ho,
    stale_symbols-Within local.positions exchange.positions hp,
    mismatches_from-Within [] local.balances exchange.balances hb,
  )
