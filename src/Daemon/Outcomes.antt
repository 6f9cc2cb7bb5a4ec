-- ===== src/Daemon/Outcomes.antt =====
-- What a cycle does to the strategies: who ends in quarantine, and that the risk test stops nobody.
use crypto_trader_ver_9_alph.Prelude.{
  ◌+◌, ◌≡◌, refl, ap, subst, ◌∙◌, inl, inr, Bool, true, false, not, ◌||◌, List, [], ◌∷◌, String,
  map, arith, eq_iff, eq_refl, str_eq, Bool-cases,
}
use crypto_trader_ver_9_alph.Prelude.Dict.{lookup-insert, mem}
use crypto_trader_ver_9_alph.Prelude.Float.{FloatOps, decimal, neg, le}
use crypto_trader_ver_9_alph.Prelude.Text.{TextOps}
use crypto_trader_ver_9_alph.Basket.Build.{AllocationDecision}
use crypto_trader_ver_9_alph.Broker.{AcceptanceRow}
use crypto_trader_ver_9_alph.Risk.{PortfolioRiskState, evaluate_portfolio}
use crypto_trader_ver_9_alph.State.{
  HealthStatus, active, quarantined, probationary, retired, HealthEntry, climb, Disk, RuntimeState,
  load_state, health_entry, is_quarantined, is_quarantined_status, quarantine_strategy,
  recover_strategy,
}
use crypto_trader_ver_9_alph.State.Rolling.{nonempty}
use crypto_trader_ver_9_alph.Daemon.{ExecutionSignal}
use crypto_trader_ver_9_alph.Daemon.Transitions.{
  accepted_ids, is_turned_down, settle_strategy, build_transition_summary,
}
use crypto_trader_ver_9_alph.Daemon.Loop.{risk_of_signal}

-- The three drawdowns that a cycle hands to the risk monitor are not as low as -15.
pub record SampleLaws (F : Type 0) ⦃o : FloatOps F⦄ : Type 0 where
  pub full : le {F = F} (neg (decimal 15 1)) (neg (decimal 150 1)) ≡ false
  pub partial : le {F = F} (neg (decimal 45 1)) (neg (decimal 150 1)) ≡ false
  pub low : le {F = F} (neg (decimal 105 1)) (neg (decimal 150 1)) ≡ false

-- Whatever the execution gave, the risk monitor approves the portfolio of a cycle, if -1.5, -4.5
-- and -10.5 are above -15.
risk_of_signal-approved :
    {F : Type 0} ⦃o : FloatOps F⦄
    → SampleLaws F
    → (signal : ExecutionSignal F) → (risk_of_signal signal).approved ≡ true
unfolding risk_of_signal evaluate_portfolio
risk_of_signal-approved laws signal = ground (arith, laws.full, laws.partial, laws.low)

module _ {F : Type 0} (history : List (AcceptanceRow F)) (risk_state : PortfolioRiskState F) where
  -- turned down, or without an accepted order
  abbrev pub is_refused : String → Bool
  is_refused id = is_turned_down history risk_state id || not (mem id (accepted_ids history))

module _ {F J : Type 0} ⦃o : FloatOps F⦄ where
  quarantine_strategy-own :
      (id reason : String) (d : Disk F J)
      → is_quarantined id (quarantine_strategy id reason d).1 ≡ true
  unfolding quarantine_strategy is_quarantined
  quarantine_strategy-own id reason d = simp (lookup-insert, eq_refl) refl

  quarantine_strategy-other :
      (id other reason : String) (d : Disk F J)
      → str_eq id other ≡ false
      → health_entry (load_state (quarantine_strategy id reason d).1) other
        ≡ health_entry (load_state d) other
  unfolding quarantine_strategy
  quarantine_strategy-other id other reason d n = simp (lookup-insert, n) refl

  climb-health :
      (status : HealthStatus) (id : String) (e : HealthEntry F) (s : RuntimeState F J)
      → (climb status id e s).1.strategy_health ≡ s.strategy_health
  climb-health quarantined id e s = ground arith
  climb-health probationary id e s = ground arith
  climb-health active id e s = refl
  climb-health retired id e s = refl

  recover_strategy-other :
      (id other reason : String) (d : Disk F J)
      → str_eq id other ≡ false
      → health_entry (load_state (recover_strategy id reason d).1) other
        ≡ health_entry (load_state d) other
  unfolding recover_strategy
  recover_strategy-other id other reason d n =
      let s = load_state d in
      let entry = health_entry s id in
      let raised : HealthEntry F = record entry {
        approved_streak = entry.approved_streak + 1;
        failure_streak = 0;
        is_retired = false;
        retirement_reason = "";
      } in
      simp (lookup-insert, n, climb-health entry.status id raised s) refl

  module _ ⦃t : TextOps⦄ (history : List (AcceptanceRow F)) (risk_state : PortfolioRiskState F)
      (signal : ExecutionSignal F) where
    settle_strategy-refused :
        (a : AllocationDecision F) (d : Disk F J)
        → is_refused history risk_state a.strategy_id ≡ true
        → is_quarantined a.strategy_id (settle_strategy history risk_state signal a d).1 ≡ true
    unfolding settle_strategy
    settle_strategy-refused a d h =
        elim (Bool-cases (is_turned_down history risk_state a.strategy_id)) [
          | inl e ↦ rw e (quarantine_strategy-own _ _ d)
          | inr e ↦
              let n : mem a.strategy_id (accepted_ids history) ≡ false = ground arith in
              rw e rw n (quarantine_strategy-own _ _ d)
        ]

    settle_strategy-named :
        (a : AllocationDecision F) (id : String) (d : Disk F J)
        → str_eq a.strategy_id id ≡ true
        → is_refused history risk_state id ≡ true
        → is_quarantined id (settle_strategy history risk_state signal a d).1 ≡ true
    settle_strategy-named a id d e =
        subst
          (λ x.
            is_refused history risk_state x ≡ true
            → is_quarantined x (settle_strategy history risk_state signal a d).1 ≡ true)
          ((eq_iff a.strategy_id id).0 e) (settle_strategy-refused a d)

    settle_strategy-id :
        (a : AllocationDecision F) (d : Disk F J)
        → (settle_strategy history risk_state signal a d).0.strategy_id ≡ a.strategy_id
    unfolding settle_strategy
    settle_strategy-id a d = ground arith

    settle_strategy-other :
        (a : AllocationDecision F) (other : String) (d : Disk F J)
        → str_eq a.strategy_id other ≡ false
        → health_entry (load_state (settle_strategy history risk_state signal a d).1) other
          ≡ health_entry (load_state d) other
    unfolding settle_strategy
    settle_strategy-other a other d n =
        elim (Bool-cases (is_turned_down history risk_state a.strategy_id)) [
          | inl e ↦ rw e (quarantine_strategy-other _ _ _ d n)
          | inr e ↦ elim (Bool-cases (mem a.strategy_id (accepted_ids history))) [
            | inl m ↦ rw e rw m (recover_strategy-other _ _ _ d n)
            | inr m ↦ rw e rw m (quarantine_strategy-other _ _ _ d n)
          ]
        ]

    -- A strategy that is refused and in quarantine stays there, whatever follows.
    summary-keeps :
        (id : String) (portfolio : List (AllocationDecision F)) (d : Disk F J)
        → is_refused history risk_state id ≡ true
        → is_quarantined id d ≡ true
        → is_quarantined id (build_transition_summary history risk_state signal portfolio d).1
          ≡ true
    unfolding build_transition_summary is_quarantined
    summary-keeps id [] d h q = q
    summary-keeps id (a ∷ portfolio) d h q = elim (Bool-cases (str_eq a.strategy_id "")) [
      | inl e ↦ rw e (summary-keeps id portfolio d h q)
      | inr e ↦ rw e (
          summary-keeps id portfolio (settle_strategy history risk_state signal a d).1 h
            (elim (Bool-cases (str_eq a.strategy_id id)) [
              | inl s ↦ settle_strategy-named a id d s h
              | inr n ↦
                  ap (λ x. is_quarantined_status x.status) (settle_strategy-other a id d n) ∙ q
            ]))
    ]

    -- After the transitions of a cycle, every strategy of the portfolio that is turned down by the
    -- risk test, has a rejected order or has no accepted one is in quarantine.
    pub refused-quarantined :
        (id : String) (portfolio : List (AllocationDecision F)) (d : Disk F J)
        → str_eq id "" ≡ false
        → mem id (map (λ a. a.strategy_id) portfolio) ≡ true
        → is_refused history risk_state id ≡ true
        → is_quarantined id (build_transition_summary history risk_state signal portfolio d).1
          ≡ true
    unfolding build_transition_summary
    refused-quarantined id [] d n m h = ground (arith, m)
    refused-quarantined id (a ∷ portfolio) d n m h = elim (Bool-cases (str_eq a.strategy_id id)) [
      | inl e ↦
          let q : str_eq a.strategy_id "" ≡ false = ground (arith, eq_iff a.strategy_id id) in
          rw q (
            summary-keeps id portfolio (settle_strategy history risk_state signal a d).1 h
              (settle_strategy-named a id d e h))
      | inr e ↦ elim (Bool-cases (str_eq a.strategy_id "")) [
        | inl q ↦ rw q (refused-quarantined id portfolio d n (ground arith) h)
        | inr q ↦ rw q (
            refused-quarantined id portfolio (settle_strategy history risk_state signal a d).1 n
              (ground arith) h)
      ]
    ]

    -- A strategy that is not in the portfolio keeps its health.
    summary-other :
        (id : String) (portfolio : List (AllocationDecision F)) (d : Disk F J)
        → mem id (map (λ a. a.strategy_id) portfolio) ≡ false
        → health_entry
            (load_state (build_transition_summary history risk_state signal portfolio d).1)
            id
          ≡ health_entry (load_state d) id
    unfolding build_transition_summary
    summary-other id [] d m = refl
    summary-other id (a ∷ portfolio) d m = elim (Bool-cases (str_eq a.strategy_id "")) [
      | inl e ↦ rw e (summary-other id portfolio d (ground arith))
      | inr e ↦
          let n : str_eq a.strategy_id id ≡ false = ground arith in
          rw e (
            summary-other id portfolio (settle_strategy history risk_state signal a d).1
              (ground arith)
            ∙ settle_strategy-other a id d n)
    ]

    -- A cycle writes a transition for each strategy of the portfolio, in its order.
    summary-ids :
        (portfolio : List (AllocationDecision F)) (d : Disk F J)
        → map
            (λ x. x.strategy_id)
            (build_transition_summary history risk_state signal portfolio d).0
          ≡ nonempty (map (λ a. a.strategy_id) portfolio)
    unfolding build_transition_summary
    summary-ids [] d = refl
    summary-ids (a ∷ portfolio) d = elim (Bool-cases (str_eq a.strategy_id "")) [
      | inl e ↦ rw e (summary-ids portfolio d)
      | inr e ↦
          let (x, d') = settle_strategy history risk_state signal a d in
          rw e (
            ap
              (λ id.
                id
                ∷ map (λ x. x.strategy_id)
                    (build_transition_summary history risk_state signal portfolio d').0)
              (settle_strategy-id a d)
            ∙ ap (λ ids. a.strategy_id ∷ ids) (summary-ids portfolio d'))
    ]
