-- ===== src/Risk.antt =====
-- ver9/risk.py and ver9/protections.py: the drift of a strategy and the risk of the portfolio. Of
-- the metrics the model has the keys that are read; a number is `none` where the key is missing.
-- Streaks are naturals. The `capital_multiplier` and `last_drift_reason` that the drift writes to
-- a health entry are kept in the call's result: no other code reads them back from there.
pub mod Limits
mod Tests
use crypto_trader_ver_9_alph.Prelude.{
  ℕ, Bool, true, false, ◌&&◌, ◌||◌, Option, none, some, [], ◌∷◌, ◌++◌, String, str_eq, is_some, leb,
  if◌then◌else◌,
}
use crypto_trader_ver_9_alph.Prelude.Float.{FloatOps, decimal, neg, sub, le, round, abs}
use crypto_trader_ver_9_alph.State.{
  HealthStatus, quarantined, probationary, HealthEntry, Disk, load_state, save_state, put_entry,
  health_entry, append_risk_event,
}

pub record DriftSignal (F : Type 0) : Type 0 where
  pub strategy_id : String
  pub live_return_pct : F
  pub expected_return_pct : F
  pub live_drawdown_pct : F
  pub expected_drawdown_pct : F
  pub return_gap_pct : F
  pub drawdown_gap_pct : F
  pub quarantine : Bool
  pub throttle : Bool
  pub reason : String

pub record PortfolioRiskState (F : Type 0) : Type 0 where
  pub portfolio_drawdown_pct : F
  pub rolling_loss_streak : ℕ
  pub volatility_regime_score : F
  pub approved : Bool
  pub capital_multiplier : F
  pub reason : String

pub record RiskMonitor (F : Type 0) : Type 0 where
  pub max_return_gap_pct : F
  pub max_drawdown_gap_pct : F
  pub portfolio_quarantine_drawdown_pct : F
  pub portfolio_loss_streak_limit : ℕ

pub record Metrics (F : Type 0) : Type 0 where
  pub return_pct : Option F
  pub pnl_pct : Option F
  pub max_drawdown_pct : Option F
  pub drawdown_pct : Option F

-- What `_sync_drift_state` sends to the registry.
pub record DriftUpdate (F : Type 0) : Type 0 where
  pub strategy_id : String
  pub status : HealthStatus
  pub drift_reason : String
  pub capital_multiplier : F
  pub quarantine_reason : String

-- The two payloads that a drift logs: `J` is the stored JSON.
pub record DriftEvents (F J : Type 0) : Type 0 where
  pub signal_event : DriftSignal F → J
  pub status_event : DriftSignal F → HealthStatus → J

pub record ProtectionEngine (F : Type 0) : Type 0 where
  pub max_drawdown_pct : F
  pub max_loss_streak : ℕ
  pub volatility_throttle : F

pub record ProtectionDecision (F : Type 0) : Type 0 where
  pub approved : Bool
  pub reason : String
  pub cooldown_minutes : ℕ
  pub capital_multiplier : F

module _ {F : Type 0} ⦃o : FloatOps F⦄ where
  abbrev pub default_monitor : RiskMonitor F
  default_monitor = record {
    max_return_gap_pct = neg (decimal 250 1);
    max_drawdown_gap_pct = decimal 80 1;
    portfolio_quarantine_drawdown_pct = neg (decimal 150 1);
    portfolio_loss_streak_limit = 4;
  }

  abbrev pub default_engine : ProtectionEngine F
  default_engine = record {
    max_drawdown_pct = neg (decimal 150 1);
    max_loss_streak = 4;
    volatility_throttle = decimal 9 1;
  }

  -- `value or default`: a zero is passed over
  abbrev pub number_or : Option F → F → F
  number_or none default = default
  number_or (some x) default = if le x (decimal 0 0) && le (decimal 0 0) x then default else x

  abbrev pub return_of : Metrics F → F
  return_of m = number_or m.return_pct (number_or m.pnl_pct (decimal 0 0))

  abbrev pub drawdown_of : Metrics F → F
  drawdown_of m = abs (number_or m.max_drawdown_pct (number_or m.drawdown_pct (decimal 0 0)))

  unfoldable pub drift_signal : RiskMonitor F → String → Metrics F → Metrics F → DriftSignal F
  drift_signal monitor id live expected =
      let return_gap = sub (return_of live) (return_of expected) in
      let drawdown_gap = sub (drawdown_of live) (drawdown_of expected) in
      let quarantine =
        le return_gap monitor.max_return_gap_pct || le monitor.max_drawdown_gap_pct drawdown_gap in
      let throttle = le return_gap (neg (decimal 100 1)) || le (decimal 40 1) drawdown_gap in
      record {
        strategy_id = id;
        live_return_pct = round (return_of live) 4;
        expected_return_pct = round (return_of expected) 4;
        live_drawdown_pct = round (drawdown_of live) 4;
        expected_drawdown_pct = round (drawdown_of expected) 4;
        return_gap_pct = round return_gap 4;
        drawdown_gap_pct = round drawdown_gap 4;
        quarantine = quarantine;
        throttle = throttle;
        reason =
            if quarantine then "drift_quarantine" else if throttle then "drift_throttle" else "ok";
      }

  -- the entry as the drift leaves it, with its capital multiplier
  abbrev pub drift_entry : DriftSignal F → HealthEntry F → HealthEntry F × F
  drift_entry signal e =
      if signal.quarantine
      then (record e { status = quarantined; quarantine_reason = signal.reason }, decimal 0 0)
      else if signal.throttle
      then (record e { status = probationary; quarantine_reason = signal.reason }, decimal 5 1)
      else (e, decimal 10 1)

  module _ {J : Type 0} (events : DriftEvents F J) where
    -- the call's update of the registry, `none` where `upsert_candidate` raises: without an
    -- identifier, and the second event is then not logged
    unfoldable pub sync_drift_state : DriftSignal F → Disk F J → Option (DriftUpdate F) × Disk F J
    sync_drift_state signal d =
        let s = load_state d in
        let (e, multiplier) = drift_entry signal (health_entry s signal.strategy_id) in
        let s' = put_entry signal.strategy_id e s in
        let d' =
          save_state (record s' { risk_events = s'.risk_events ++ events.signal_event signal ∷ [] })
            d in
        if str_eq signal.strategy_id "" then (none, d') else (
          some (record {
            strategy_id = signal.strategy_id;
            status = e.status;
            drift_reason = signal.reason;
            capital_multiplier = multiplier;
            quarantine_reason = e.quarantine_reason;
          }),
          append_risk_event (events.status_event signal e.status) d',
        )

    -- the signal, or none where the call raises, with the update of the registry and the disk
    unfoldable pub evaluate_drift :
        RiskMonitor F
        → String
        → Metrics F
        → Metrics F
        → Disk F J
        → Option (DriftSignal F) × (Option (DriftUpdate F) × Disk F J)
    evaluate_drift monitor id live expected d =
        let signal = drift_signal monitor id live expected in
        let (update, d') = sync_drift_state signal d in
        if signal.quarantine || signal.throttle
        then (if is_some update then some signal else none, (update, d'))
        else (some signal, (none, d))

  unfoldable pub evaluate_portfolio : RiskMonitor F → F → ℕ → F → PortfolioRiskState F
  evaluate_portfolio monitor drawdown streak volatility =
      let state : Bool → F → String → PortfolioRiskState F = λ approved multiplier reason. record {
        portfolio_drawdown_pct = round drawdown 4;
        rolling_loss_streak = streak;
        volatility_regime_score = round volatility 4;
        approved = approved;
        capital_multiplier = multiplier;
        reason = reason;
      } in
      if le drawdown monitor.portfolio_quarantine_drawdown_pct
      then state false (decimal 0 0) "portfolio_quarantine"
      else if leb monitor.portfolio_loss_streak_limit streak
      then state false (decimal 0 0) "loss_streak_quarantine"
      else if le (decimal 9 1) volatility
      then state true (decimal 5 1) "volatility_throttle"
      else state true (decimal 10 1) "approved"

  -- `ProtectionEngine.evaluate`
  unfoldable pub protect : ProtectionEngine F → F → ℕ → F → ProtectionDecision F
  protect engine drawdown streak volatility =
      if le drawdown engine.max_drawdown_pct
      then record {
        approved = false;
        reason = "portfolio_drawdown_limit";
        cooldown_minutes = 240;
        capital_multiplier = decimal 0 0;
      }
      else if leb engine.max_loss_streak streak
      then record {
        approved = false;
        reason = "loss_streak_cooldown";
        cooldown_minutes = 120;
        capital_multiplier = decimal 0 0;
      }
      else if le engine.volatility_throttle volatility
      then record {
        approved = true;
        reason = "volatility_throttle";
        cooldown_minutes = 0;
        capital_multiplier = decimal 5 1;
      }
      else record {
        approved = true;
        reason = "approved";
        cooldown_minutes = 0;
        capital_multiplier = decimal 10 1;
      }
