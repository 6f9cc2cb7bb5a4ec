-- ===== src/Risk/Tests.antt =====
-- A drift that throttles a quarantined strategy, and the theorems at concrete inputs.
use crypto_trader_ver_9_alph.Prelude.{
  ◌+◌, ◌≡◌, ◌||◌, refl, true, false, some, none, [], String, length, arith, eq_iff,
}
use crypto_trader_ver_9_alph.Prelude.Int.{ℤ, negsuc}
use crypto_trader_ver_9_alph.Prelude.Dict.{lookup, insert}
use crypto_trader_ver_9_alph.Prelude.Fixed.{fixed}
use crypto_trader_ver_9_alph.State.{
  Disk, load_state, health_entry, is_quarantined, quarantine_strategy, append_risk_event,
}
use crypto_trader_ver_9_alph.Risk.{
  Metrics, DriftEvents, default_monitor, evaluate_drift, drift_signal, sync_drift_state,
}
use crypto_trader_ver_9_alph.Risk.Limits.{evaluate_drift_lem}

abbrev sick_disk : Disk ℤ String
sick_disk = (quarantine_strategy "s1" "risk_failure" (record { file = none; synced = [] })).1

abbrev events : DriftEvents ℤ String
events = record { signal_event = λ s. "signal"; status_event = λ s st. "status" }

abbrev no_metrics : Metrics ℤ
no_metrics = record {
  return_pct = none;
  pnl_pct = none;
  max_drawdown_pct = none;
  drawdown_pct = none;
}

-- 12 percent below what was expected
abbrev live : Metrics ℤ
live = record no_metrics { return_pct = some (negsuc 11999999) }

-- A drift that is only throttled ends the quarantine of the strategy.
throttle_lifts_quarantine :
    (is_quarantined "s1" sick_disk ≡ true)
    × (is_quarantined "s1"
          (evaluate_drift events default_monitor "s1" live no_metrics sick_disk).1.1
        ≡ false)
unfolding evaluate_drift drift_signal sync_drift_state append_risk_event is_quarantined
    quarantine_strategy lookup insert
throttle_lifts_quarantine = (refl, refl)

is_throttled :
    (drift_signal default_monitor "s1" live no_metrics).quarantine
      || (drift_signal default_monitor "s1" live no_metrics).throttle
    ≡ true
unfolding drift_signal
is_throttled = refl

evaluate_drift_lem_example :
    let signal = drift_signal default_monitor "s1" live no_metrics in
    let r = evaluate_drift events default_monitor "s1" live no_metrics sick_disk in
    (r.0 ≡ some signal)
    × (is_quarantined "s1" r.1.1 ≡ signal.quarantine)
    × (health_entry (load_state r.1.1) "s2" ≡ health_entry (load_state sick_disk) "s2")
    × (length (load_state r.1.1).risk_events ≡ length (load_state sick_disk).risk_events + 2)
evaluate_drift_lem_example =
    evaluate_drift_lem events default_monitor "s1" "s2" live no_metrics sick_disk is_throttled
      (ground (arith, eq_iff "s2" "s1"))
