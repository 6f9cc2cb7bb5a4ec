-- ===== src/Runtime/Supervision/Tests.antt =====
-- A supervision that halts on one slow call, and the theorem at it.
use crypto_trader_ver_9_alph.Prelude.{◌≡◌, refl, List, [], ◌∷◌}
use crypto_trader_ver_9_alph.Prelude.Int.{ℤ, pos}
use crypto_trader_ver_9_alph.Prelude.Fixed.{fixed}
use crypto_trader_ver_9_alph.Basket.Samples.{statistics}
use crypto_trader_ver_9_alph.Runtime.Supervision.{
  RuntimeSnapshot, RuntimeSupervisionLayer, active, halted, last_n, supervise,
}
use crypto_trader_ver_9_alph.Runtime.Supervision.Latency.{supervise_window}

abbrev layer : List ℤ → RuntimeSupervisionLayer ℤ
layer history = record {
  warning_latency_ms = pos 750000000;
  critical_latency_ms = pos 2000000000;
  latency_history = history;
}

abbrev snapshot : RuntimeSnapshot
snapshot = record { runtime_id = "r1"; system_status = active }

halts : (supervise statistics.mean (layer []) snapshot (pos 2000000000)).1.system_status ≡ halted
unfolding supervise last_n
halts = refl

abbrev calm : List ℤ
calm =
    pos 1
    ∷ pos 1
    ∷ pos 1
    ∷ pos 1
    ∷ pos 1
    ∷ pos 1
    ∷ pos 1
    ∷ pos 1
    ∷ pos 1
    ∷ pos 1
    ∷ pos 1
    ∷ pos 1
    ∷ pos 1
    ∷ pos 1
    ∷ pos 1
    ∷ pos 1
    ∷ pos 1
    ∷ pos 1
    ∷ pos 1
    ∷ pos 1
    ∷ pos 1
    ∷ pos 1
    ∷ pos 1
    ∷ pos 1
    ∷ []

-- a history with a halt before its last 24 calls, which the snapshot still says
supervise_window_example :
    let late = layer (pos 9000000000 ∷ calm) in
    let stopped = record snapshot { system_status = halted } in
    ((supervise statistics.mean late stopped (pos 1)).1
      ≡ (supervise statistics.mean (layer calm) snapshot (pos 1)).1)
    × ((supervise statistics.mean late stopped (pos 1)).2
        ≡ (supervise statistics.mean (layer calm) snapshot (pos 1)).2)
unfolding last_n
supervise_window_example =
    supervise_window statistics.mean (layer (pos 9000000000 ∷ calm)) (layer calm)
      (record snapshot { system_status = halted }) snapshot (pos 1) refl refl refl refl
