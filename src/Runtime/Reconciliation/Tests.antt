-- ===== src/Runtime/Reconciliation/Tests.antt =====
-- Runs of the reconciliation, and its theorems at concrete inputs.
use crypto_trader_ver_9_alph.Prelude.{
  ◌≡◌, refl, true, not, ◌&&◌, Option, none, some, [], ◌∷◌, String, arith,
}
use crypto_trader_ver_9_alph.Prelude.Int.{ℤ, pos}
use crypto_trader_ver_9_alph.Prelude.Dict.{Dict, lookup, contains, mem}
use crypto_trader_ver_9_alph.Prelude.Fixed.{fixed}
use crypto_trader_ver_9_alph.Runtime.Reconciliation.{
  Position, FetchedState, fetched, ReconciliationSchedulerConfig, Call, absent, reconcile_orders,
  reconcile_fills, reconcile_positions, reconcile_balances, run_cycle,
}
use crypto_trader_ver_9_alph.Runtime.Reconciliation.Diffs.{
  reconcile_lem, stale_if_known, mismatch_if_known,
}
use crypto_trader_ver_9_alph.Runtime.Reconciliation.Cycle.{SelfClose, run_cycle-Within}

abbrev local_orders : Dict String
local_orders = ("a", "{}") ∷ ("b", "{}") ∷ []

abbrev exchange_orders : Dict String
exchange_orders = ("b", "{}") ∷ ("z", "{}") ∷ []

abbrev position : ℤ → Position ℤ
position q = record { quantity = some q }

missing : (reconcile_orders {F = ℤ} local_orders exchange_orders).missing_orders ≡ "a" ∷ []
unfolding reconcile_orders absent lookup
missing = refl

abbrev local_positions : Dict (Position ℤ)
local_positions = ("BTC", position (pos 3)) ∷ ("ETH", position (pos 5)) ∷ []

abbrev exchange_positions : Dict (Position ℤ)
exchange_positions = ("ETH", position (pos 7)) ∷ []

reconcile_lem_example :
    let expected = contains "a" local_orders && not (contains "a" exchange_orders) in
    ((mem "a" (reconcile_orders {F = ℤ} local_orders exchange_orders).missing_orders ≡ expected)
      × (mem "a" (reconcile_fills {F = ℤ} local_orders exchange_orders).fill_mismatches ≡ expected))
    × ((mem "a" (reconcile_positions local_positions exchange_positions).stale_positions
          ≡ stale_if_known (lookup "a" local_positions) (lookup "a" exchange_positions))
        × (lookup "a"
              (reconcile_balances (("a", pos 90) ∷ []) (("a", pos 50) ∷ [])).balance_mismatches
            ≡ mismatch_if_known
                (lookup "a" (("a", pos 90) ∷ []))
                (lookup "a" (("a", pos 50) ∷ []))))
unfolding lookup
reconcile_lem_example =
    reconcile_lem "a" local_orders exchange_orders local_positions exchange_positions
      (("a", pos 90) ∷ []) (("a", pos 50) ∷ []) (refl, (refl, tt)) (refl, tt)

fixed-SelfClose : SelfClose ℤ
fixed-SelfClose = record { quantity_close = λ x. ground arith; balance_close = λ x. ground arith }

abbrev config : ReconciliationSchedulerConfig
config = record { interval_seconds = 30; halt_on_divergence = true }

abbrev quiet : Call ℤ → Option String
quiet c = none

abbrev broken : Call ℤ → Option String
broken c = some "no route"

abbrev local_state : FetchedState ℤ String
local_state = record {
  orders = ("b", "{}") ∷ [];
  positions = ("ETH", position (pos 7)) ∷ [];
  balances = ("USDT", pos 50) ∷ [];
}

-- the exchange knows one more order and one more position
abbrev exchange_state : FetchedState ℤ String
exchange_state = record {
  orders = exchange_orders;
  positions = ("SOL", position (pos 1)) ∷ exchange_positions;
  balances = ("USDT", pos 50) ∷ [];
}

run_cycle-Within_example :
    run_cycle config quiet quiet (fetched local_state) (fetched exchange_state)
    ≡ record { calls = []; error = none }
unfolding lookup
run_cycle-Within_example =
    run_cycle-Within fixed-SelfClose config quiet quiet local_state exchange_state (refl, tt)
      (refl, tt) (refl, tt)

-- six local orders that the exchange lacks
abbrev lost_state : FetchedState ℤ String
lost_state = record local_state {
  orders = ("1", "") ∷ ("2", "") ∷ ("3", "") ∷ ("4", "") ∷ ("5", "") ∷ ("6", "") ∷ [];
}
