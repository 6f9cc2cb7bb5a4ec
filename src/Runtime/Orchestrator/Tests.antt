-- ===== src/Runtime/Orchestrator/Tests.antt =====
-- A restart over two handled events, and the theorem at it.
use crypto_trader_ver_9_alph.Prelude.{ℕ, ◌≡◌, true, none, some, List, [], ◌∷◌, ◌⊎◌}
use crypto_trader_ver_9_alph.Prelude.Int.{ℤ, pos}
use crypto_trader_ver_9_alph.Prelude.Fixed.{fixed}
use crypto_trader_ver_9_alph.Runtime.Recovery.{Event, order_opened, order_closed, recover}
use crypto_trader_ver_9_alph.Runtime.Orchestrator.{
  Orchestrator, start_exchange, start_scheduler, new_orchestrator, start, stop, handle_all,
}
use crypto_trader_ver_9_alph.Runtime.Orchestrator.Restart.{restart_lem}

abbrev events : List (Event ℤ ℕ)
events =
    record { kind = order_opened "o1" 7; sequence = 1; timestamp = pos 0 }
    ∷ record { kind = order_closed "o1"; sequence = 2; timestamp = pos 0 }
    ∷ []

restart_lem_example :
    let r =
      start none (new_orchestrator (stop (handle_all events (new_orchestrator []))).event_log) in
    ((recover none events ≡ none) × (r ≡ none))
    ⊎ ((t : Orchestrator ℤ ℕ) × (r ≡ some t)
        × (t.active ≡ true)
        × (t.replayed_events ≡ 2)
        × (t.calls ≡ start_exchange ∷ start_scheduler ∷ []))
restart_lem_example = restart_lem none events (new_orchestrator [])
