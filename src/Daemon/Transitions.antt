-- ===== src/Daemon/Transitions.antt =====
-- ver9/daemon.py: `_build_transition_summary`, which quarantines and recovers the strategies of a
-- portfolio.
use crypto_trader_ver_9_alph.Prelude.{
  Bool, not, ◌||◌, some, List, [], ◌∷◌, String, map, str_eq, str_append, select, if◌then◌else◌,
}
use crypto_trader_ver_9_alph.Prelude.Dict.{Dict, lookup, contains, insert, mem}
use crypto_trader_ver_9_alph.Prelude.Float.{FloatOps}
use crypto_trader_ver_9_alph.Prelude.Text.{TextOps}
use crypto_trader_ver_9_alph.Lifecycle.{LifecycleTransition, build_transition_record, text_or}
use crypto_trader_ver_9_alph.Basket.Build.{AllocationDecision}
use crypto_trader_ver_9_alph.Broker.{AcceptanceRow}
use crypto_trader_ver_9_alph.Risk.{PortfolioRiskState}
use crypto_trader_ver_9_alph.Daemon.{ExecutionSignal}
use crypto_trader_ver_9_alph.State.{
  HealthStatus, active, quarantined, probationary, retired, Disk, quarantine_strategy,
  recover_strategy,
}

-- The text of a status.
abbrev pub status_text : HealthStatus → String
status_text active = "active"
status_text quarantined = "quarantined"
status_text probationary = "probationary"
status_text retired = "retired"

module _ {F : Type 0} where
  abbrev pub accepted_ids : List (AcceptanceRow F) → List String
  accepted_ids history = map (λ a. a.strategy_id) (select (λ a. a.accepted) history)

  abbrev pub rejections_from : List (AcceptanceRow F) → Dict String → Dict String
  rejections_from [] d = d
  rejections_from (a ∷ as') d =
      rejections_from as'
        (if a.accepted then d else insert (a.strategy_id) (text_or "unfilled" a.rejection_reason) d)

module _ {F : Type 0} (history : List (AcceptanceRow F)) (risk_state : PortfolioRiskState F) where
  -- `rejection_by_strategy`
  abbrev pub rejection_by_strategy : Dict String
  rejection_by_strategy = rejections_from history []

  -- the test of the first branch
  abbrev pub is_turned_down : String → Bool
  is_turned_down id = not risk_state.approved || contains id rejection_by_strategy

  abbrev pub reason_of : ExecutionSignal F → String → String
  reason_of signal id =
      text_or (text_or signal.reason (some risk_state.reason)) (lookup id rejection_by_strategy)

module _ {F J : Type 0} ⦃o : FloatOps F⦄ ⦃t : TextOps⦄ (history : List (AcceptanceRow F))
    (risk_state : PortfolioRiskState F) (signal : ExecutionSignal F) where
  -- the body of the loop, for an allocation with an identifier
  unfoldable pub settle_strategy : AllocationDecision F → Disk F J → LifecycleTransition × Disk F J
  settle_strategy a d =
      let id = a.strategy_id in
      let current = text_or "unknown" a.metadata.status in
      if is_turned_down history risk_state id
      then (
        build_transition_record id current "quarantined" (reason_of history risk_state signal id),
        (quarantine_strategy id (str_append "daemon_" (reason_of history risk_state signal id))
            d).1,
      )
      else if mem id (accepted_ids history)
      then (
        build_transition_record id current
            (status_text (recover_strategy id (str_append "daemon_" signal.reason) d).0.status)
            signal.reason,
        (recover_strategy id (str_append "daemon_" signal.reason) d).1,
      )
      else (
        build_transition_record id current "quarantined" signal.reason,
        (quarantine_strategy id (str_append "daemon_" (str_append signal.reason "_missing_fill"))
            d).1,
      )

  unfoldable pub build_transition_summary :
      List (AllocationDecision F) → Disk F J → List LifecycleTransition × Disk F J
  build_transition_summary [] d = ([], d)
  build_transition_summary (a ∷ portfolio) d =
      if str_eq (a.strategy_id) ""
      then build_transition_summary portfolio d
      else (let (record_, d') = settle_strategy a d in
          let (rest, d'') = build_transition_summary portfolio d' in (record_ ∷ rest, d''))
