-- ===== src/Runtime/Reconciliation.antt =====
-- ver9/runtime/reconciliation: the comparison of local state with the exchange's, and one cycle of
-- the scheduler. The payloads of orders and fills are not looked into, so they are of any types;
-- of a position only its quantity is read. The handlers are parameters: a call returns (`none`) or
-- raises a text.
pub mod Diffs
pub mod Cycle
mod Tests
use crypto_trader_ver_9_alph.Prelude.{
  ℕ, ◌+◌, Bool, true, Option, none, some, List, [], ◌∷◌, ◌++◌, String, leb, ltb, ◌&&◌, length,
  if◌then◌else◌, or_else,
}
use crypto_trader_ver_9_alph.Prelude.Dict.{Dict, lookup, insert, contains}
use crypto_trader_ver_9_alph.Prelude.Float.{FloatOps, decimal, sub, abs, lt}

pub record ReconciliationDiff (F : Type 0) : Type 0 where
  pub missing_orders : List String
  pub stale_positions : List String
  pub balance_mismatches : Dict F
  pub fill_mismatches : List String

abbrev pub no_diff : {F : Type 0} → ReconciliationDiff F
no_diff = record {
  missing_orders = [];
  stale_positions = [];
  balance_mismatches = [];
  fill_mismatches = [];
}

-- a position's dict, of which `get("quantity", 0.0)` is read
pub record Position (F : Type 0) : Type 0 where
  pub quantity : Option F

-- the keys of a dict that another lacks, in order: the loop of `reconcile_orders` and of
-- `reconcile_fills`
unfoldable pub absent : {V W : Type 0} → Dict V → Dict W → List String
absent [] e = []
absent ((k, v) ∷ d) e = if contains k e then absent d e else k ∷ absent d e

module _ {F V W : Type 0} where
  unfoldable pub reconcile_orders : Dict V → Dict W → ReconciliationDiff F
  reconcile_orders local exchange = record (no_diff {F = F}) {
    missing_orders = absent local exchange;
  }

  unfoldable pub reconcile_fills : Dict V → Dict W → ReconciliationDiff F
  reconcile_fills local exchange = record (no_diff {F = F}) {
    fill_mismatches = absent local exchange;
  }

module _ {F : Type 0} ⦃o : FloatOps F⦄ where
  abbrev pub quantity_of : Position F → F
  quantity_of p = or_else p.quantity (decimal 0 0)

  -- whether a local position is stale, given what the exchange has
  abbrev pub is_stale : Position F → Option (Position F) → Bool
  is_stale p none = true
  is_stale p (some q) = lt (decimal 1 9) (abs (sub (quantity_of p) (quantity_of q)))

  unfoldable pub stale_symbols : Dict (Position F) → Dict (Position F) → List String
  stale_symbols [] e = []
  stale_symbols ((k, p) ∷ d) e =
      if is_stale p (lookup k e) then k ∷ stale_symbols d e else stale_symbols d e

  unfoldable pub reconcile_positions : Dict (Position F) → Dict (Position F) → ReconciliationDiff F
  reconcile_positions local exchange = record (no_diff {F = F}) {
    stale_positions = stale_symbols local exchange;
  }

  -- the entry that one balance adds, if any
  abbrev pub mismatch : F → Option F → Option F
  mismatch b none = some b
  mismatch b (some c) = if lt (decimal 1 6) (abs (sub b c)) then some (sub b c) else none

  abbrev pub put_mismatch : String → Option F → Dict F → Dict F
  put_mismatch k none d = d
  put_mismatch k (some x) d = insert k x d

  -- the loop of `reconcile_balances`, from what it has gathered
  unfoldable pub mismatches_from : Dict F → Dict F → Dict F → Dict F
  mismatches_from found [] e = found
  mismatches_from found ((k, b) ∷ d) e =
      mismatches_from (put_mismatch k (mismatch b (lookup k e)) found) d e

  unfoldable pub reconcile_balances : Dict F → Dict F → ReconciliationDiff F
  reconcile_balances local exchange = record (no_diff {F = F}) {
    balance_mismatches = mismatches_from [] local exchange;
  }

-- `summarize`
pub record Summary : Type 0 where
  pub missing_orders : ℕ
  pub stale_positions : ℕ
  pub balance_mismatches : ℕ
  pub fill_mismatches : ℕ

unfoldable pub summarize : {F : Type 0} → ReconciliationDiff F → Summary
summarize diff = record {
  missing_orders = length diff.missing_orders;
  stale_positions = length diff.stale_positions;
  balance_mismatches = length diff.balance_mismatches;
  fill_mismatches = length diff.fill_mismatches;
}

-- A fetched state, with `{}` for what it lacks. Its fills are not read by the cycle.
pub record FetchedState (F V : Type 0) : Type 0 where
  pub orders : Dict V
  pub positions : Dict (Position F)
  pub balances : Dict F

pub record ReconciliationSchedulerConfig : Type 0 where
  pub interval_seconds : ℕ
  pub halt_on_divergence : Bool

pub data Fetched (A : Type 0) : Type 0 where
  fetched : A → Fetched A
  failed : String → Fetched A

-- A call that the cycle makes: a correction with the three diffs, or a halt with the score.
pub data Call (F : Type 0) : Type 0 where
  correction : ReconciliationDiff F → ReconciliationDiff F → ReconciliationDiff F → Call F
  halt : ℕ → Call F

-- What a cycle did: the calls that it made, and the exception that ended it, if any.
pub record CycleRun (F : Type 0) : Type 0 where
  pub calls : List (Call F)
  pub error : Option String

module _ {F : Type 0} (config : ReconciliationSchedulerConfig)
    (halt_handler : Call F → Option String) where
  -- the halt at the end of `_run_cycle`, after the calls made so far
  abbrev pub finish_cycle : ℕ → List (Call F) → CycleRun F
  finish_cycle score calls =
      if leb 5 score && config.halt_on_divergence
      then record { calls = calls ++ halt score ∷ []; error = halt_handler (halt score) }
      else record { calls = calls; error = none }

module _ {F V W : Type 0} ⦃o : FloatOps F⦄ where
  abbrev pub divergence_score : FetchedState F V → FetchedState F W → ℕ
  divergence_score local exchange =
      length ((reconcile_orders {F = F} local.orders exchange.orders).missing_orders)
      + length ((reconcile_positions local.positions exchange.positions).stale_positions)
      + length ((reconcile_balances local.balances exchange.balances).balance_mismatches)

  -- the call of the correction handler that `_run_cycle` makes on a divergence
  abbrev pub correction_call : FetchedState F V → FetchedState F W → Call F
  correction_call local exchange =
      correction (reconcile_orders local.orders exchange.orders)
        (reconcile_positions local.positions exchange.positions)
        (reconcile_balances local.balances exchange.balances)

  module _ (config : ReconciliationSchedulerConfig)
      (correction_handler halt_handler : Call F → Option String) where
    -- `_run_cycle` on the two fetched states
    unfoldable pub compare_states : FetchedState F V → FetchedState F W → CycleRun F
    compare_states local exchange =
        let score = divergence_score local exchange in
        let fix = correction_call local exchange in
        if ltb 0 score
        then elim (correction_handler fix) [
          | none ↦ finish_cycle config halt_handler score (fix ∷ [])
          | some e ↦ record { calls = fix ∷ []; error = some e }
        ]
        else finish_cycle config halt_handler score []

    -- `_run_cycle` with its two fetches, the local one first
    unfoldable pub run_cycle : Fetched (FetchedState F V) → Fetched (FetchedState F W) → CycleRun F
    run_cycle (failed e) exchange = record { calls = []; error = some e }
    run_cycle (fetched local) (failed e) = record { calls = []; error = some e }
    run_cycle (fetched local) (fetched exchange) = compare_states local exchange
