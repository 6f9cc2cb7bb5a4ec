-- ===== src/Daemon/Loop.antt =====
-- ver9/daemon.py: `build_cycle` and `run_forever`. A loop without `max_cycles` does not end, so
-- the loop runs on fuel, a unit for each cycle.
use crypto_trader_ver_9_alph.Prelude.{
  ℕ, zero, suc, ◌+◌, ◌&&◌, Bool, true, false, Option, none, some, List, [], ◌∷◌, String, map,
  length, or_else, ltb, leb, if◌then◌else◌,
}
use crypto_trader_ver_9_alph.Prelude.Dict.{Dict, lookup}
use crypto_trader_ver_9_alph.Prelude.Float.{FloatOps, decimal, neg, le}
use crypto_trader_ver_9_alph.Prelude.Text.{TextOps}
use crypto_trader_ver_9_alph.Execution.Simulator.{Statistics}
use crypto_trader_ver_9_alph.Basket.{zero_float}
use crypto_trader_ver_9_alph.Basket.Build.{AllocationDecision, allocate}
use crypto_trader_ver_9_alph.Broker.{BrokerOps}
use crypto_trader_ver_9_alph.Broker.Submit.{decision, execute_allocations}
use crypto_trader_ver_9_alph.Risk.{PortfolioRiskState, default_monitor, evaluate_portfolio}
use crypto_trader_ver_9_alph.State.{Disk, append_execution, append_risk_event}
use crypto_trader_ver_9_alph.State.Rolling.{append_cycle}
use crypto_trader_ver_9_alph.Daemon.{
  ExecutionSignal, no_execution, executed, not_selected, assessed, RuntimeCycle, Version9Daemon,
  CandidateSource, Payloads, first_usable, sources, source_counts, selection_failure_reason,
  thin_basket_note, execution_signal,
}
use crypto_trader_ver_9_alph.Daemon.Transitions.{build_transition_summary}

module _ {F J : Type 0} ⦃o : FloatOps F⦄ ⦃t : TextOps⦄ (payloads : Payloads F J) where
  unfoldable pub persist_cycle : RuntimeCycle F → Disk F J → Disk F J
  persist_cycle cycle d = append_risk_event (payloads.risk_payload cycle.risk) (
      append_execution (payloads.execution_payload cycle.execution) (
        append_cycle
          (record {
            portfolio = map (λ a. a.strategy_id) cycle.portfolio;
            body = payloads.cycle_payload cycle;
          })
          d))

module _ {F : Type 0} ⦃o : FloatOps F⦄ where
  -- the three samples that a cycle hands to the risk monitor, by its fill rate
  unfoldable pub risk_of_signal : ExecutionSignal F → PortfolioRiskState F
  risk_of_signal signal =
      if le (decimal 85 2) signal.fill_rate && ltb 0 signal.filled_orders
      then evaluate_portfolio default_monitor (neg (decimal 15 1)) 0 (decimal 4 1)
      else if le (decimal 50 2) signal.fill_rate
      then evaluate_portfolio default_monitor (neg (decimal 45 1)) 1 (decimal 62 2)
      else evaluate_portfolio default_monitor (neg (decimal 105 1)) 3 (decimal 92 2)

module _ {F : Type 0} where
  -- `self.max_cycles is not None and completed >= self.max_cycles`
  abbrev pub is_complete : Version9Daemon F → ℕ → Bool
  is_complete daemon completed = elim daemon.max_cycles [ none ↦ false | some n ↦ leb n completed ]

module _ {F J : Type 0} ⦃o : FloatOps F⦄ ⦃t : TextOps⦄ (payloads : Payloads F J)
    (age_days : Option String → F) (statistics : Statistics F) (ops : BrokerOps F)
    (candidates_of : CandidateSource F J) (daemon : Version9Daemon F) where
  -- the cycle where nothing is selected
  abbrev pub starved_cycle : ℕ → Dict ℕ → String → RuntimeCycle F
  starved_cycle candidate_count counts reason =
      let failure = selection_failure_reason daemon candidate_count 0 in
      record {
        candidate_count = candidate_count;
        candidate_source_counts = counts;
        selected_count = 0;
        selected_source = reason;
        selected_source_count = or_else (lookup reason counts) candidate_count;
        selection_reason = if ltb 0 candidate_count then reason else failure;
        thin_basket_note = thin_basket_note candidate_count 0 reason;
        portfolio = [];
        execution = no_execution (if daemon.live then "live" else "paper");
        risk = not_selected failure;
        execution_signal = record {
          approved = false;
          reason = failure;
          fill_rate = zero_float;
          filled_orders = 0;
          rejected_orders = 0;
        };
        transition_summary = [];
      }

  -- the rest of `build_cycle`, after the allocation
  unfoldable pub finish_cycle :
      ℕ → Dict ℕ → String → List (AllocationDecision F) → Disk F J → RuntimeCycle F × Disk F J
  finish_cycle candidate_count counts reason [] d =
      let cycle = starved_cycle candidate_count counts reason in
      (cycle, persist_cycle payloads cycle d)
  finish_cycle candidate_count counts reason (a ∷ rest) d =
      let portfolio = a ∷ rest in
      let execution = execute_allocations ops (map decision portfolio) daemon.capital daemon.live in
      let signal = execution_signal execution in
      let risk_state = risk_of_signal signal in
      let (summary, d') =
        build_transition_summary execution.acceptance_history risk_state signal portfolio d in
      let cycle : RuntimeCycle F = record {
        candidate_count = candidate_count;
        candidate_source_counts = counts;
        selected_count = length portfolio;
        selected_source = reason;
        selected_source_count = or_else (lookup reason counts) candidate_count;
        selection_reason = reason;
        thin_basket_note = thin_basket_note candidate_count (length portfolio) reason;
        portfolio = portfolio;
        execution = executed execution;
        risk = assessed risk_state;
        execution_signal = signal;
        transition_summary = summary;
      } in
      (cycle, persist_cycle payloads cycle d')

  unfoldable pub build_cycle : Disk F J → RuntimeCycle F × Disk F J
  build_cycle d =
      let found = sources (candidates_of d) in
      let (candidates, reason) = first_usable found in
      let count = length candidates in
      let portfolio =
        allocate age_days statistics candidates daemon.max_positions (if ltb count 2 then 1 else 2)
          true in
      finish_cycle count (source_counts found) reason portfolio d

  -- the loop with some cycles completed
  unfoldable pub run_from : ℕ → ℕ → Disk F J → Option (List (RuntimeCycle F) × Disk F J)
  run_from zero completed d = none
  run_from (suc fuel) completed d =
      let (cycle, d') = build_cycle d in
      let rest = run_from fuel (completed + 1) d' in
      if is_complete daemon (completed + 1)
      then some (cycle ∷ [], d')
      else elim rest [ none ↦ none | some (cycles, d'') ↦ some (cycle ∷ cycles, d'') ]

  unfoldable pub run_forever : ℕ → Disk F J → Option (List (RuntimeCycle F) × Disk F J)
  run_forever fuel d = run_from fuel 0 d
