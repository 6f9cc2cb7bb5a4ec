-- ===== src/Runtime/Recovery/Tests.antt =====
-- Runs of the recovery, and its theorems at concrete inputs.
use crypto_trader_ver_9_alph.Prelude.{◌≡◌, refl, true, none, some, List, [], ◌∷◌, String, arith}
use crypto_trader_ver_9_alph.Prelude.Int.{ℤ, pos}
use crypto_trader_ver_9_alph.Prelude.Dict.{lookup, insert, erase, update}
use crypto_trader_ver_9_alph.Prelude.Fixed.{fixed}
use crypto_trader_ver_9_alph.Runtime.Recovery.{
  balance_update, order_opened, order_closed, Event, ReplayableRuntimeState, RecoveryResult,
  empty_state, apply_event, replay_from, rebuild_from_events, insert_sorted, sorted, recover,
}
use crypto_trader_ver_9_alph.Runtime.Recovery.Merge.{or_checkpoint, recover_lem}
use crypto_trader_ver_9_alph.Runtime.Recovery.Replay.{
  last_word, order_word, balance_word, fill_word, position_word,
}
use crypto_trader_ver_9_alph.Runtime.Recovery.Ordering.{exchange, recover-Shuffled}

abbrev opened : Event ℤ String
opened = record { kind = order_opened "o1" "{}"; sequence = 1; timestamp = pos 10 }

abbrev closed : Event ℤ String
closed = record { kind = order_closed "o1"; sequence = 2; timestamp = pos 20 }

abbrev paid : Event ℤ String
paid = record { kind = balance_update "USDT" (pos 5); sequence = 3; timestamp = pos 30 }

-- logged out of order
abbrev log : List (Event ℤ String)
log = closed ∷ opened ∷ paid ∷ []

abbrev checkpoint : ReplayableRuntimeState ℤ String
checkpoint = record (empty_state {F = ℤ} {P = String}) { open_orders = ("o1", "{}") ∷ [] }

-- the result of a recovery from the checkpoint: the closed order is open again
abbrev resurrected : RecoveryResult ℤ String
resurrected = record {
  recovered_state = record checkpoint { balances = ("USDT", pos 5) ∷ [] };
  recovered_from_checkpoint = true;
  replayed_event_count = 3;
}

recover_runs : recover (some checkpoint) log ≡ some resurrected
unfolding recover rebuild_from_events replay_from apply_event sorted insert_sorted insert erase
    update
recover_runs = refl

recover_lem_example :
    (lookup "o1" (("o1", "{}") ∷ [])
      ≡ or_checkpoint
          (last_word (order_word "o1") none (sorted log))
          (lookup "o1" (("o1", "{}") ∷ [])))
    × (lookup "o1" (("USDT", pos 5) ∷ [])
        ≡ or_checkpoint (last_word (balance_word "o1") none (sorted log)) (lookup "o1" []))
    × (lookup {V = String} "o1" []
        ≡ or_checkpoint (last_word (fill_word "o1") none (sorted log)) (lookup "o1" []))
    × (lookup {V = String} "o1" []
        ≡ or_checkpoint (last_word (position_word "o1") none (sorted log)) (lookup "o1" []))
recover_lem_example = recover_lem "o1" (some checkpoint) log resurrected recover_runs

recover-Shuffled_example :
    recover (some checkpoint) log ≡ recover (some checkpoint) (opened ∷ closed ∷ paid ∷ [])
recover-Shuffled_example =
    recover-Shuffled (some checkpoint) log (opened ∷ closed ∷ paid ∷ [])
      (exchange closed opened (paid ∷ []) (omega arith))
