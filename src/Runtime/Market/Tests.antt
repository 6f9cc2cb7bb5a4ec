-- ===== src/Runtime/Market/Tests.antt =====
-- A run of the aggregator, and its theorem at a concrete stream.
use crypto_trader_ver_9_alph.Prelude.{◌≡◌, refl, some, List, [], ◌∷◌}
use crypto_trader_ver_9_alph.Prelude.Int.{ℤ, pos}
use crypto_trader_ver_9_alph.Prelude.Dict.{lookup, insert}
use crypto_trader_ver_9_alph.Prelude.Fixed.{fixed, fixed-StrictOrder}
use crypto_trader_ver_9_alph.Runtime.Market.{Tick, Candle, candle_key, update_candle}
use crypto_trader_ver_9_alph.Runtime.Market.Candles.{update_all, Summarises, candle_lem}

abbrev tick : ℤ → Tick ℤ
tick p = record { symbol = "BTC/USDT"; price = p; volume = pos 1 }

abbrev ticks : List (Tick ℤ)
ticks = tick (pos 9) ∷ tick (pos 4) ∷ tick (pos 6) ∷ []

candle_runs :
    lookup "BTC/USDT:1m" (update_all (tick (pos 7) ∷ ticks) "1m" [])
    ≡ some (record {
      symbol = "BTC/USDT";
      timeframe = "1m";
      open_price = pos 7;
      high_price = pos 9;
      low_price = pos 4;
      close_price = pos 6;
      volume = pos 4;
    })
unfolding update_candle lookup insert
candle_runs = refl

candle_lem_example :
    (d : Candle ℤ) × (lookup
        (candle_key "BTC/USDT" "1m")
        (update_all (tick (pos 7) ∷ ticks) "1m" [])
      ≡ some d)
    × Summarises fixed-StrictOrder d (tick (pos 7)) ticks
unfolding lookup
candle_lem_example =
    candle_lem fixed-StrictOrder "1m" (tick (pos 7)) ticks [] (refl, (refl, (refl, tt))) refl
