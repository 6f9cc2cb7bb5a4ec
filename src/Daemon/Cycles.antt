-- ===== src/Daemon/Cycles.antt =====
-- How many cycles the loop runs, and what it leaves in the file.
use crypto_trader_ver_9_alph.Prelude.{
  ℕ, zero, suc, ◌+◌, ◌-◌, ◌≤◌, ◌≡◌, refl, ap, ◌∙◌, inl, inr, true, false, Option, none, some, List,
  [], ◌∷◌, String, length, length-append, arith, ltb, leb, str_eq, map, or_else, Bool-cases,
  if◌then◌else◌,
}
use crypto_trader_ver_9_alph.Prelude.Dict.{Dict, mem}
use crypto_trader_ver_9_alph.Prelude.Float.{FloatOps}
use crypto_trader_ver_9_alph.Prelude.Text.{TextOps}
use crypto_trader_ver_9_alph.Execution.Simulator.{Statistics}
use crypto_trader_ver_9_alph.Basket.Build.{AllocationDecision}
use crypto_trader_ver_9_alph.Broker.{AcceptanceRow, BrokerOps}
use crypto_trader_ver_9_alph.Risk.{PortfolioRiskState}
use crypto_trader_ver_9_alph.State.{
  HealthStatus, active, quarantined, probationary, retired, HealthEntry, RuntimeState, climb, Cycle,
  default_state, Disk, load_state, quarantine_strategy, recover_strategy, append_execution,
  append_risk_event,
}
use crypto_trader_ver_9_alph.State.Rolling.{append_cycle}
use crypto_trader_ver_9_alph.State.Decay.{append_cycle_lem}
use crypto_trader_ver_9_alph.Daemon.{
  ExecutionSignal, RuntimeCycle, Version9Daemon, CandidateSource, Payloads,
}
use crypto_trader_ver_9_alph.Daemon.Transitions.{
  accepted_ids, is_turned_down, settle_strategy, build_transition_summary,
}
use crypto_trader_ver_9_alph.Daemon.Loop.{
  is_complete, persist_cycle, finish_cycle, build_cycle, run_from, run_forever,
}

module _ {F J : Type 0} ⦃o : FloatOps F⦄ where
  abbrev executions_of : Disk F J → ℕ
  executions_of d = length (load_state d).executions

  climb-executions :
      (status : HealthStatus) (id : String) (e : HealthEntry F) (s : RuntimeState F J)
      → (climb status id e s).1.executions ≡ s.executions
  climb-executions quarantined id e s = ground arith
  climb-executions probationary id e s = ground arith
  climb-executions active id e s = refl
  climb-executions retired id e s = refl

  quarantine_strategy-executions :
      (id reason : String) (d : Disk F J)
      → executions_of (quarantine_strategy id reason d).1 ≡ executions_of d
  unfolding quarantine_strategy
  quarantine_strategy-executions id reason d = refl

  recover_strategy-executions :
      (id reason : String) (d : Disk F J)
      → executions_of (recover_strategy id reason d).1 ≡ executions_of d
  unfolding recover_strategy
  recover_strategy-executions id reason d = simp climb-executions refl

  module _ ⦃t : TextOps⦄ (history : List (AcceptanceRow F)) (risk_state : PortfolioRiskState F)
      (signal : ExecutionSignal F) where
    settle_strategy-executions :
        (a : AllocationDecision F) (d : Disk F J)
        → executions_of (settle_strategy history risk_state signal a d).1 ≡ executions_of d
    unfolding settle_strategy
    settle_strategy-executions a d =
        elim (Bool-cases (is_turned_down history risk_state a.strategy_id)) [
          | inl e ↦ rw e (quarantine_strategy-executions _ _ d)
          | inr e ↦ elim (Bool-cases (mem a.strategy_id (accepted_ids history))) [
            | inl m ↦ rw e rw m (recover_strategy-executions _ _ d)
            | inr m ↦ rw e rw m (quarantine_strategy-executions _ _ d)
          ]
        ]

    summary-executions :
        (portfolio : List (AllocationDecision F)) (d : Disk F J)
        → executions_of (build_transition_summary history risk_state signal portfolio d).1
          ≡ executions_of d
    unfolding build_transition_summary
    summary-executions [] d = refl
    summary-executions (a ∷ portfolio) d = elim (Bool-cases (str_eq a.strategy_id "")) [
      | inl e ↦ rw e (summary-executions portfolio d)
      | inr e ↦ rw e (
          summary-executions portfolio (settle_strategy history risk_state signal a d).1
          ∙ settle_strategy-executions a d)
    ]

  persist_cycle-executions :
      ⦃t : TextOps⦄ (payloads : Payloads F J) (cycle : RuntimeCycle F) (d : Disk F J)
      → executions_of (persist_cycle payloads cycle d) ≡ executions_of d + 1
  unfolding persist_cycle append_execution append_risk_event
  persist_cycle-executions payloads cycle d =
      let c : Cycle J = record {
        portfolio = map (λ a. a.strategy_id) cycle.portfolio;
        body = payloads.cycle_payload cycle;
      } in
      let kept =
        ap (λ file. length (or_else file default_state).executions) (append_cycle_lem c d) in
      omega (
        arith,
        kept,
        length-append (load_state (append_cycle c d)).executions
            (payloads.execution_payload cycle.execution ∷ []),
      )

module _ {F J : Type 0} ⦃o : FloatOps F⦄ ⦃t : TextOps⦄ (payloads : Payloads F J)
    (age_days : Option String → F) (statistics : Statistics F) (ops : BrokerOps F)
    (candidates_of : CandidateSource F J) (daemon : Version9Daemon F) where
  finish_cycle-executions :
      (count : ℕ) (counts : Dict ℕ) (reason : String) (portfolio : List (AllocationDecision F))
      (d : Disk F J)
      → executions_of
          (finish_cycle payloads age_days statistics ops candidates_of daemon count counts reason
            portfolio d).1
        ≡ executions_of d + 1
  unfolding finish_cycle
  finish_cycle-executions count counts reason [] d = persist_cycle-executions payloads _ d
  finish_cycle-executions count counts reason (a ∷ rest) d =
      persist_cycle-executions payloads _ _
      ∙ ap (λ n. n + 1) (summary-executions _ _ _ (a ∷ rest) d)

  build_cycle-executions :
      (d : Disk F J)
      → executions_of (build_cycle payloads age_days statistics ops candidates_of daemon d).1
        ≡ executions_of d + 1
  unfolding build_cycle
  build_cycle-executions d = finish_cycle-executions _ _ _ _ d

  -- what a loop that ends leaves behind
  abbrev pub HasRun : ℕ → Disk F J → List (RuntimeCycle F) × Disk F J → Type 0
  HasRun n d (cycles, d') =
      (length cycles ≡ n)
      × (length (load_state d').executions ≡ length (load_state d).executions + n)

  run_from_lem :
      (n fuel completed : ℕ) (d : Disk F J)
      → daemon.max_cycles ≡ some n
      → n ≤ completed + fuel
      → 1 ≤ fuel
      → (x : List (RuntimeCycle F) × Disk F J) × ((run_from payloads age_days statistics ops
              candidates_of daemon fuel completed d
            ≡ some x)
          × HasRun (if ltb completed n then n - completed else 1) d x)
  unfolding run_from
  run_from_lem n zero completed d m h k = ground arith
  run_from_lem n (suc fuel) completed d m h k =
      let (cycle, d') = build_cycle payloads age_days statistics ops candidates_of daemon d in
      let one = build_cycle-executions d in
      elim (Bool-cases (leb n (completed + 1))) [
        | inl e ↦
            let ends : is_complete daemon (completed + 1) ≡ true = rw m e in
            ((cycle ∷ [], d'), (rw ends refl, (ground arith, ground (arith, one))))
        | inr e ↦
            let goes_on : is_complete daemon (completed + 1) ≡ false = rw m e in
            let ((cycles, d''), (r, (p, q))) =
              run_from_lem n fuel (completed + 1) d' m (ground arith) (ground arith) in
            (
              (cycle ∷ cycles, d''),
              (rw goes_on rw r refl, (ground (arith, p), ground (arith, one, q))),
            )
      ]

  run_from-none :
      (fuel completed : ℕ) (d : Disk F J)
      → daemon.max_cycles ≡ none
      → run_from payloads age_days statistics ops candidates_of daemon fuel completed d ≡ none
  unfolding run_from
  run_from-none zero completed d m = refl
  run_from-none (suc fuel) completed d m =
      let (cycle, d') = build_cycle payloads age_days statistics ops candidates_of daemon d in
      let goes_on : is_complete daemon (completed + 1) ≡ false = rw m refl in
      rw goes_on rw (run_from-none fuel (completed + 1) d' m) refl

  -- With `max_cycles` set and as much fuel, and at least 1, the loop ends after exactly that many
  -- cycles, or after one where it is 0, and leaves as many new executions in the file.
  pub run_forever_lem :
      (n fuel : ℕ) (d : Disk F J)
      → daemon.max_cycles ≡ some n
      → n ≤ fuel
      → 1 ≤ fuel
      → (x : List (RuntimeCycle F) × Disk F J) × ((run_forever payloads age_days statistics ops
              candidates_of daemon fuel d
            ≡ some x)
          × HasRun (if ltb 0 n then n else 1) d x)
  unfolding run_forever
  run_forever_lem n fuel d m h k =
      let (x, (r, (p, q))) = run_from_lem n fuel 0 d m (omega arith) k in
      (x, (r, (ground (arith, p), ground (arith, q))))

  -- Without `max_cycles` the loop does not end by itself, however many cycles it is given.
  run_forever-none :
      (fuel : ℕ) (d : Disk F J)
      → daemon.max_cycles ≡ none
      → run_forever payloads age_days statistics ops candidates_of daemon fuel d ≡ none
  unfolding run_forever
  run_forever-none fuel d m = run_from-none fuel 0 d m
