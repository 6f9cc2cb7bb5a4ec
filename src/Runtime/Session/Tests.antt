-- ===== src/Runtime/Session/Tests.antt =====
-- Runs of the session supervisor, and its theorems at concrete inputs.
use crypto_trader_ver_9_alph.Prelude.{zero, suc, ◌*◌, ◌≡◌, refl, true, false, none, some, [], ◌∷◌}
use crypto_trader_ver_9_alph.Prelude.Int.{ℤ, pos}
use crypto_trader_ver_9_alph.Prelude.Fixed.{fixed}
use crypto_trader_ver_9_alph.Runtime.Session.{
  disconnected, active, Handlers, ExchangeSessionConfig, ExchangeSessionManager, monitor_round,
}
use crypto_trader_ver_9_alph.Runtime.Session.Monitor.{RoundEnds, monitor_round_lem}

abbrev config : ExchangeSessionConfig
config = record {
  exchange = "binance";
  stale_after_seconds = 20;
  heartbeat_interval_seconds = 10;
  reconnect_backoff_seconds = 5;
  max_reconnect_attempts = 50;
}

-- The clock moves a minute between readings; the first connection fails.
abbrev handlers : Handlers ℤ
handlers = record {
  connect_handler = λ n. elim n [ zero ↦ some "refused" | suc m ↦ none ];
  disconnect_handler = λ n. none;
  auth_refresh_handler = none;
  time = λ n. pos (n * 60000000);
}

abbrev manager : ExchangeSessionManager ℤ
manager = record {
  metrics = record {
    reconnect_count = 0;
    heartbeat_failures = 0;
    last_message_ts = pos 0;
    last_heartbeat_ts = pos 0;
    sequence_gap_count = 0;
  };
  health = disconnected;
  running = false;
  last_sequence = none;
  monitored = false;
  connects = 0;
  disconnects = 0;
  refreshes = 0;
  readings = 0;
  pauses = [];
}

abbrev connected : ExchangeSessionManager ℤ
connected = record manager { connects = 1; running = true; health = active; readings = 1 }

reconnects :
    let t = monitor_round handlers config connected in
    (t.health ≡ active) × (t.metrics.reconnect_count ≡ 1) × (t.pauses ≡ 5 ∷ 1 ∷ [])
unfolding monitor_round
reconnects = (refl, refl, refl)

monitor_round_lem_example :
    RoundEnds handlers config connected (monitor_round handlers config connected)
monitor_round_lem_example = monitor_round_lem handlers config connected
