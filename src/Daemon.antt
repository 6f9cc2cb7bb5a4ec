-- ===== src/Daemon.antt =====
-- ver9/daemon.py: a cycle of the daemon and its loop. The registry's `list_candidates` is an
-- argument that may look at the disk, for the registry follows what the state sends to it. Time
-- stamps and the `state_summary` that a cycle only reports are left out. Nobody calls `stop` while
-- a loop runs.
pub mod Transitions
pub mod Loop
pub mod Outcomes
pub mod Cycles
mod Tests
use crypto_trader_ver_9_alph.Prelude.{
  ℕ, ◌==◌, Bool, true, false, ◌&&◌, not, Option, none, some, List, [], ◌∷◌, String, length, ltb,
  or_else, str_eq, str_append, select, if◌then◌else◌,
}
use crypto_trader_ver_9_alph.Prelude.Dict.{Dict}
use crypto_trader_ver_9_alph.Prelude.Float.{FloatOps, decimal, lt}
use crypto_trader_ver_9_alph.Lifecycle.{LifecycleTransition, text_or}
use crypto_trader_ver_9_alph.Basket.{BasketRow}
use crypto_trader_ver_9_alph.Basket.Build.{AllocationDecision}
use crypto_trader_ver_9_alph.Broker.{ExecutionSummary}
use crypto_trader_ver_9_alph.Risk.{PortfolioRiskState}
use crypto_trader_ver_9_alph.State.{Disk}

pub record ExecutionSignal (F : Type 0) : Type 0 where
  pub approved : Bool
  pub reason : String
  pub fill_rate : F
  pub filled_orders : ℕ
  pub rejected_orders : ℕ

-- The "execution" of a cycle: the empty dictionary of a mode, or a summary.
pub data CycleExecution (F : Type 0) : Type 0 where
  no_execution : String → CycleExecution F
  executed : ExecutionSummary F → CycleExecution F

-- The "risk" of a cycle: the reason of a failed selection, or the portfolio's state.
pub data CycleRisk (F : Type 0) : Type 0 where
  not_selected : String → CycleRisk F
  assessed : PortfolioRiskState F → CycleRisk F

pub record RuntimeCycle (F : Type 0) : Type 0 where
  pub candidate_count : ℕ
  pub candidate_source_counts : Dict ℕ
  pub selected_count : ℕ
  pub selected_source : String
  pub selected_source_count : ℕ
  pub selection_reason : String
  pub thin_basket_note : Option String
  pub portfolio : List (AllocationDecision F)
  pub execution : CycleExecution F
  pub risk : CycleRisk F
  pub execution_signal : ExecutionSignal F
  pub transition_summary : List LifecycleTransition

pub record Version9Daemon (F : Type 0) : Type 0 where
  pub capital : F
  pub max_positions : ℕ
  pub live : Bool
  pub max_cycles : Option ℕ

-- `list_candidates(status=...)`
abbrev pub CandidateSource : Type 0 → Type 0 → Type 0
CandidateSource F J = Disk F J → String → List (BasketRow F)

-- The JSON payloads that a cycle stores.
pub record Payloads (F J : Type 0) : Type 0 where
  pub cycle_payload : RuntimeCycle F → J
  pub execution_payload : CycleExecution F → J
  pub risk_payload : CycleRisk F → J

unfoldable pub thin_basket_note : ℕ → ℕ → String → Option String
thin_basket_note candidate_count selected_count selection_reason =
    if candidate_count == 1
    then some (str_append "thin_basket_constrained_mode:" selection_reason)
    else if selected_count == 1
    then some (str_append "thin_basket_single_position:" selection_reason)
    else none

module _ {F : Type 0} where
  -- the rows that the loop over a status keeps
  abbrev pub is_usable : BasketRow F → Bool
  is_usable r =
      not (str_eq (text_or "" r.strategy_id) "") && not (str_eq (or_else r.status "") "retired")

  -- the loop over the statuses, with the rows of each
  unfoldable pub first_usable : Dict (List (BasketRow F)) → List (BasketRow F) × String
  first_usable [] = ([], "no_candidates")
  first_usable ((status, candidates) ∷ rest) = elim (select is_usable candidates) [
    | [] ↦ first_usable rest
    | r ∷ rs ↦ (r ∷ rs, status)
  ]

  abbrev pub sources : (String → List (BasketRow F)) → Dict (List (BasketRow F))
  sources candidates =
      ("deployable", candidates "deployable")
      ∷ ("probationary", candidates "probationary")
      ∷ ("validated", candidates "validated")
      ∷ []

  abbrev pub source_counts : Dict (List (BasketRow F)) → Dict ℕ
  source_counts [] = []
  source_counts ((status, candidates) ∷ rest) = (status, length candidates) ∷ source_counts rest

  unfoldable pub selection_failure_reason : Version9Daemon F → ℕ → ℕ → String
  selection_failure_reason daemon candidate_count selected_count =
      if candidate_count == 0
      then "no_candidates"
      else if selected_count == 0
      then "selection_starved"
      else if ltb selected_count daemon.max_positions
      then "selection_starved"
      else "selection_complete"

module _ {F : Type 0} ⦃o : FloatOps F⦄ where
  unfoldable pub execution_signal : ExecutionSummary F → ExecutionSignal F
  execution_signal execution =
      let signal : Bool → String → ExecutionSignal F = λ approved reason. record {
        approved = approved;
        reason = reason;
        fill_rate = execution.fill_rate;
        filled_orders = execution.filled_orders;
        rejected_orders = execution.rejected_orders;
      } in
      if execution.filled_orders == 0 && ltb 0 execution.rejected_orders
      then signal false "execution_all_rejected"
      else if lt execution.fill_rate (decimal 50 2)
      then signal false "execution_low_fill_rate"
      else if lt execution.fill_rate (decimal 85 2)
      then signal true "execution_partial_fill"
      else signal true "execution_full_fill"
