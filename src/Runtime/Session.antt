-- ===== src/Runtime/Session.antt =====
-- ver9/runtime/exchanges/session_manager.py: the supervisor of one exchange session. A method is
-- an action on the manager and its surroundings. The handlers are parameters: the n-th call of
-- one returns (`none`) or raises a text; they are taken not to call the manager back. Each method
-- runs to its end: what other tasks do while it waits is not modelled, and nothing is cancelled in
-- the middle of a method. Sequence numbers are naturals; log lines are left out.
pub mod Sequence
pub mod Monitor
mod Tests
use crypto_trader_ver_9_alph.Prelude.{
  ℕ, ◌+◌, Bool, true, false, Option, none, some, List, [], ◌∷◌, ◌++◌, String, leb, if◌then◌else◌,
}
use crypto_trader_ver_9_alph.Prelude.Float.{FloatOps, decimal, sub, le}

pub data SessionHealth : Type 0 where
  connecting active stale reconnecting disconnected halted : SessionHealth

pub record SessionMetrics (F : Type 0) : Type 0 where
  pub reconnect_count : ℕ
  pub heartbeat_failures : ℕ
  pub last_message_ts : F
  pub last_heartbeat_ts : F
  pub sequence_gap_count : ℕ

pub record ExchangeSessionConfig : Type 0 where
  pub exchange : String
  pub stale_after_seconds : ℕ
  pub heartbeat_interval_seconds : ℕ
  pub reconnect_backoff_seconds : ℕ
  pub max_reconnect_attempts : ℕ

-- The handlers and the clock, by the number of the call.
pub record Handlers (F : Type 0) : Type 0 where
  pub connect_handler : ℕ → Option String
  pub disconnect_handler : ℕ → Option String
  pub auth_refresh_handler : Option (ℕ → Option String)
  pub time : ℕ → F

-- The fields of the manager that change, with the calls made of each handler, the readings of
-- the clock and the pauses. `monitored` says that `_monitor_task` was created.
pub record ExchangeSessionManager (F : Type 0) : Type 0 where
  pub metrics : SessionMetrics F
  pub health : SessionHealth
  pub running : Bool
  pub last_sequence : Option ℕ
  pub monitored : Bool
  pub connects : ℕ
  pub disconnects : ℕ
  pub refreshes : ℕ
  pub readings : ℕ
  pub pauses : List ℕ

-- How a method ends.
pub data Outcome : Type 0 where
  done : Outcome
  raised : String → Outcome

abbrev pub outcome : Option String → Outcome
outcome none = done
outcome (some e) = raised e

abbrev pub Method : Type 0 → Type 0
Method F = ExchangeSessionManager F → Outcome × ExchangeSessionManager F

infixl 5 ◌>>◌
abbrev pub ◌>>◌ : {F : Type 0} → Method F → Method F → Method F
◌>>◌ m k s = let (r, s') = m s in elim r [ done ↦ k s' | raised e ↦ (raised e, s') ]

module _ {F : Type 0} where
  abbrev pub modify : (ExchangeSessionManager F → ExchangeSessionManager F) → Method F
  modify f s = (done, f s)

  abbrev pub set_health : SessionHealth → Method F
  set_health h = modify (λ s. record s { health = h })

  abbrev pub track_sequence : ℕ → ExchangeSessionManager F → ExchangeSessionManager F
  track_sequence sequence s = elim s.last_sequence [
    | none ↦ record s { last_sequence = some sequence }
    | some last ↦ record s {
      metrics =
          if leb sequence last
          then record (s.metrics) { sequence_gap_count = s.metrics.sequence_gap_count + 1 }
          else s.metrics;
      last_sequence = some sequence;
    }
  ]

module _ {F : Type 0} (handlers : Handlers F) where
  abbrev pub call_connect : Method F
  call_connect s =
      (outcome (handlers.connect_handler s.connects), record s { connects = s.connects + 1 })

  abbrev pub call_disconnect : Method F
  call_disconnect s = (
    outcome (handlers.disconnect_handler s.disconnects),
    record s { disconnects = s.disconnects + 1 },
  )

  -- `now = time.time()`, written to both stamps
  abbrev pub stamp : ExchangeSessionManager F → ExchangeSessionManager F
  stamp s =
      let now = handlers.time s.readings in
      record s {
        metrics = record (s.metrics) { last_message_ts = now; last_heartbeat_ts = now };
        readings = s.readings + 1;
      }

  unfoldable pub connect : Method F
  connect = set_health connecting >> call_connect >> set_health active >> modify stamp

  unfoldable pub start : Method F
  unfolding connect
  start s =
      if s.running
      then (done, s)
      else (modify (λ s. record s { running = true })
            >> connect
            >> modify (λ s. record s { monitored = true }))
          s

  unfoldable pub stop : Method F
  stop = modify (λ s. record s { running = false }) >> call_disconnect >> set_health disconnected

  unfoldable pub register_message : Option ℕ → ExchangeSessionManager F → ExchangeSessionManager F
  register_message none s = stamp s
  register_message (some sequence) s = track_sequence sequence (stamp s)

  unfoldable pub heartbeat : ExchangeSessionManager F → ExchangeSessionManager F
  heartbeat s = record s {
    metrics = record (s.metrics) { last_heartbeat_ts = handlers.time s.readings };
    readings = s.readings + 1;
  }

  unfoldable pub refresh_authentication : Method F
  refresh_authentication s = elim handlers.auth_refresh_handler [
    | none ↦ (done, s)
    | some handler ↦ (outcome (handler s.refreshes), record s { refreshes = s.refreshes + 1 })
  ]

  module _ (config : ExchangeSessionConfig) where
    unfoldable pub force_reconnect : Method F
    unfolding connect
    force_reconnect =
        modify (λ s. record s {
          health = reconnecting;
          metrics = record (s.metrics) { reconnect_count = s.metrics.reconnect_count + 1 };
        })
        >> call_disconnect
        >> modify (λ s. record s { pauses = s.pauses ++ config.reconnect_backoff_seconds ∷ [] })
        >> connect

    unfoldable pub check_staleness : ⦃o : FloatOps F⦄ → Method F
    unfolding force_reconnect
    check_staleness s =
        let age = sub (handlers.time s.readings) s.metrics.last_message_ts in
        let s' : ExchangeSessionManager F = record s { readings = s.readings + 1 } in
        if le age (decimal config.stale_after_seconds 0)
        then (done, s')
        else (set_health stale >> force_reconnect) s'

    -- one round of `_monitor_loop`; `SessionHealth` has no WARNING, so a failure is RECONNECTING
    unfoldable pub monitor_round :
        ⦃o : FloatOps F⦄ → ExchangeSessionManager F → ExchangeSessionManager F
    unfolding check_staleness
    monitor_round s =
        let (r, s') = check_staleness s in
        elim r [
          | done ↦ record s' { pauses = s'.pauses ++ 1 ∷ [] }
          | raised e ↦ record s' { health = reconnecting }
        ]
