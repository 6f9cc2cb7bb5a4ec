-- ===== src/Risk/Limits.antt =====
-- What drift does to the health state, and that the two portfolio tests agree.
use crypto_trader_ver_9_alph.Prelude.{
  ℕ, ◌+◌, ◌≡◌, refl, Bool, inl, inr, true, not, ◌||◌, Option, some, none, is_some, str_eq,
  Bool-cases, if◌then◌else◌, [], ◌∷◌, ◌++◌, String, arith, eq_iff, eq_refl, length, length-append,
  ◌≢◌,
}
use crypto_trader_ver_9_alph.Prelude.Dict.{lookup-insert}
use crypto_trader_ver_9_alph.Prelude.Float.{FloatOps, decimal}
use crypto_trader_ver_9_alph.State.{
  Disk, HealthEntry, load_state, is_quarantined, is_quarantined_status, health_entry,
  append_risk_event,
}
use crypto_trader_ver_9_alph.Risk.{
  RiskMonitor, DriftSignal, Metrics, DriftEvents, ProtectionEngine, drift_signal, sync_drift_state,
  drift_entry, evaluate_drift, evaluate_portfolio, protect,
}

given_if :
    {A B : Type 0} (x : Option A) (y : B) (b : Bool)
    → is_some x ≡ not b
    → (if is_some x then some y else none) ≡ (if b then none else some y)
given_if x y b e = ground (arith, e)

module _ {F : Type 0} ⦃o : FloatOps F⦄ where
  -- The risk monitor and the protection engine, given the same limits of drawdown and of the loss
  -- streak and a volatility limit of 0.9, approve the same portfolios at the same capital
  -- multiplier.
  evaluate_portfolio-protect :
      (monitor : RiskMonitor F) (engine : ProtectionEngine F) (drawdown : F) (streak : ℕ)
      (volatility : F)
      → engine.max_drawdown_pct ≡ monitor.portfolio_quarantine_drawdown_pct
      → engine.max_loss_streak ≡ monitor.portfolio_loss_streak_limit
      → engine.volatility_throttle ≡ decimal 9 1
      → let state = evaluate_portfolio monitor drawdown streak volatility in
        let decision = protect engine drawdown streak volatility in
        (state.approved ≡ decision.approved)
        × (state.capital_multiplier ≡ decision.capital_multiplier)
  unfolding evaluate_portfolio protect
  evaluate_portfolio-protect monitor engine drawdown streak volatility p q v = ground arith

  drift_entry-status :
      (signal : DriftSignal F) (e : HealthEntry F)
      → signal.quarantine || signal.throttle ≡ true
      → is_quarantined_status (drift_entry signal e).0.status ≡ signal.quarantine
  drift_entry-status signal e h = ground arith

  sync_drift_state_lem :
      {J : Type 0} (events : DriftEvents F J) (signal : DriftSignal F) (other : String)
      (d : Disk F J)
      → signal.quarantine || signal.throttle ≡ true
      → other ≢ signal.strategy_id
      → let r = sync_drift_state events signal d in
        let count : ℕ = if str_eq signal.strategy_id "" then 1 else 2 in
        (is_some r.0 ≡ not (str_eq signal.strategy_id ""))
        × (is_quarantined signal.strategy_id r.1 ≡ signal.quarantine)
        × (health_entry (load_state r.1) other ≡ health_entry (load_state d) other)
        × (length (load_state r.1).risk_events ≡ length (load_state d).risk_events + count)
  unfolding sync_drift_state append_risk_event is_quarantined
  sync_drift_state_lem events signal other d h n =
      let s = load_state d in
      let id = signal.strategy_id in
      let e = (drift_entry signal (health_entry s id)).0 in
      let logged = s.risk_events ++ events.signal_event signal ∷ [] in
      let one = length-append s.risk_events (events.signal_event signal ∷ []) in
      let two = length-append logged (events.status_event signal e.status ∷ []) in
      let kept = drift_entry-status signal (health_entry s id) h in
      let others = lookup-insert id other e s.strategy_health in
      elim (Bool-cases (str_eq id "")) [
        | inl empty ↦ rw empty (
          refl,
          simp (lookup-insert, eq_refl) kept,
          ground (arith, others, eq_iff id other, n),
          omega (arith, one),
        )
        | inr named ↦ rw named (
          refl,
          simp (lookup-insert, eq_refl) kept,
          ground (arith, others, eq_iff id other, n),
          omega (arith, one, two),
        )
      ]

  -- A drift that asks for quarantine or a throttle decides by its quarantine flag whether the
  -- strategy is quarantined and leaves the health of every other strategy as it was. It logs two
  -- risk events and gives its signal, but for a strategy without an identifier: there it raises,
  -- with the change of the health and one event stored.
  pub evaluate_drift_lem :
      {J : Type 0} (events : DriftEvents F J) (monitor : RiskMonitor F) (id other : String)
      (live expected : Metrics F) (d : Disk F J)
      → (drift_signal monitor id live expected).quarantine
          || (drift_signal monitor id live expected).throttle
        ≡ true
      → other ≢ id
      → let signal = drift_signal monitor id live expected in
        let r = evaluate_drift events monitor id live expected d in
        let count : ℕ = if str_eq id "" then 1 else 2 in
        (r.0 ≡ (if str_eq id "" then none else some signal))
        × (is_quarantined id r.1.1 ≡ signal.quarantine)
        × (health_entry (load_state r.1.1) other ≡ health_entry (load_state d) other)
        × (length (load_state r.1.1).risk_events ≡ length (load_state d).risk_events + count)
  unfolding evaluate_drift drift_signal
  evaluate_drift_lem events monitor id other live expected d h n =
      let signal = drift_signal monitor id live expected in
      let (returns, stored, others, logged) = sync_drift_state_lem events signal other d h n in
      rw (h, evaluate_drift) (given_if _ signal (str_eq id "") returns, stored, others, logged)
