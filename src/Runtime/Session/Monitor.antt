-- ===== src/Runtime/Session/Monitor.antt =====
-- Start, stop and the supervision of the stream.
use crypto_trader_ver_9_alph.Prelude.{
  ◌+◌, ◌≡◌, ◌⊎◌, inl, inr, true, none, some, [], ◌∷◌, ◌++◌, String, arith, Option-cases, Bool-cases,
}
use crypto_trader_ver_9_alph.Prelude.Float.{FloatOps, decimal, sub, le}
use crypto_trader_ver_9_alph.Runtime.Session.{
  active, reconnecting, Handlers, ExchangeSessionConfig, ExchangeSessionManager, done, raised,
  start, monitor_round,
}

module _ {F : Type 0} (handlers : Handlers F) where
  -- After a start that raised, a further start returns at once and changes nothing, so the
  -- session stays without a connection.
  start_again :
      (s : ExchangeSessionManager F) (e : String)
      → (start handlers s).0 ≡ raised e
      → start handlers (start handlers s).1 ≡ (done, (start handlers s).1)
  unfolding start
  start_again s e h = ground arith

  module _ (config : ExchangeSessionConfig) ⦃o : FloatOps F⦄ where
    abbrev pub IsFresh : ExchangeSessionManager F → Type 0
    IsFresh s =
        le (sub (handlers.time s.readings) s.metrics.last_message_ts)
          (decimal config.stale_after_seconds 0)
        ≡ true

    -- How a round of the monitor ends: the stream was fresh, or it was stale and both handlers
    -- returned, or the connect handler raised, or the disconnect handler did.
    abbrev pub RoundEnds : ExchangeSessionManager F → ExchangeSessionManager F → Type 0
    RoundEnds s t =
        (IsFresh s × (t ≡ record s { readings = s.readings + 1; pauses = s.pauses ++ 1 ∷ [] }))
        ⊎ (¬ IsFresh s
            × (t.metrics.reconnect_count ≡ s.metrics.reconnect_count + 1)
            × (((handlers.disconnect_handler s.disconnects ≡ none)
                  × (handlers.connect_handler s.connects ≡ none)
                  × (t.health ≡ active)
                  × (t.metrics.last_message_ts ≡ handlers.time (s.readings + 1)))
                ⊎ ((e : String) × (handlers.disconnect_handler s.disconnects ≡ none)
                    × (handlers.connect_handler s.connects ≡ some e)
                    × (t.health ≡ reconnecting)
                    × (t.metrics.last_message_ts ≡ s.metrics.last_message_ts))
                ⊎ ((e : String) × (handlers.disconnect_handler s.disconnects ≡ some e)
                    × (t.health ≡ reconnecting)
                    × (t.connects ≡ s.connects)
                    × (t.pauses ≡ s.pauses))))

    stale_round :
        (s : ExchangeSessionManager F) → ¬ IsFresh s → RoundEnds s (monitor_round handlers config s)
    unfolding monitor_round
    stale_round s f = elim (Option-cases (handlers.disconnect_handler s.disconnects)) [
      | inr (e, p) ↦
          inr (f, ground arith, inr (inr (e, p, ground arith, ground arith, ground arith)))
      | inl p ↦ elim (Option-cases (handlers.connect_handler s.connects)) [
        | inl q ↦ inr (f, ground arith, inl (p, q, ground arith, ground arith))
        | inr (e, q) ↦ inr (f, ground arith, inr (inl (e, p, q, ground arith, ground arith)))
      ]
    ]

    -- One round of the monitor. On a fresh stream it changes nothing but its reading of the clock
    -- and a pause. On a stale one a reconnect is counted, and: with handlers that return, the
    -- session is ACTIVE with its stamp renewed; if the connect handler raises, the session is
    -- RECONNECTING with its stamp as before; if the disconnect handler raises, it is RECONNECTING
    -- without a call of the connect handler and without any pause before the next round.
    pub monitor_round_lem :
        (s : ExchangeSessionManager F) → RoundEnds s (monitor_round handlers config s)
    unfolding monitor_round
    monitor_round_lem s =
        elim (Bool-cases (
          le (sub (handlers.time s.readings) s.metrics.last_message_ts)
            (decimal config.stale_after_seconds 0))) [
              | inl p ↦ inl (p, ground arith)
              | inr p ↦ stale_round s (λ q. cc)
            ]
