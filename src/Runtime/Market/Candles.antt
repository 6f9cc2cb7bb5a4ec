-- ===== src/Runtime/Market/Candles.antt =====
-- A candle over all its ticks.
use crypto_trader_ver_9_alph.Prelude.{
  ◌≡◌, refl, ◌⊎◌, inl, false, none, some, List, [], ◌∷◌, String, arith, eq_refl, All,
}
use crypto_trader_ver_9_alph.Prelude.Dict.{Dict, lookup, insert, lookup-insert}
use crypto_trader_ver_9_alph.Prelude.Float.{FloatOps, StrictOrder, add, lt}
use crypto_trader_ver_9_alph.Runtime.Market.{Tick, Candle, candle_key, next_candle, update_candle}

-- a number is the price of one of the ticks
abbrev pub Among : {F : Type 0} → F → List (Tick F) → Type 0
Among x [] = ⊥
Among x (t ∷ ts) = (x ≡ t.price) ⊎ Among x ts

-- the ticks are all of one symbol
abbrev pub AllOf : {F : Type 0} → String → List (Tick F) → Type 0
AllOf symbol = All (λ t. t.symbol ≡ symbol)

abbrev pub last_price : {F : Type 0} → F → List (Tick F) → F
last_price x [] = x
last_price x (t ∷ ts) = last_price (t.price) ts

module _ {F : Type 0} ⦃o : FloatOps F⦄ where
  abbrev pub total_volume : F → List (Tick F) → F
  total_volume x [] = x
  total_volume x (t ∷ ts) = total_volume (add x t.volume) ts

  abbrev pub update_all : List (Tick F) → String → Dict (Candle F) → Dict (Candle F)
  update_all [] timeframe active = active
  update_all (t ∷ ts) timeframe active =
      update_all ts timeframe (update_candle t timeframe active).1

  -- a price between the low and the high of a candle, as far as numbers compare
  abbrev pub Spans : Candle F → F → Type 0
  Spans c x = (lt c.high_price x ≡ false) × (lt x c.low_price ≡ false)

  abbrev after : Candle F → List (Tick F) → String → Candle F
  after c [] timeframe = c
  after c (t ∷ ts) timeframe = after (next_candle (some c) t timeframe) ts timeframe

  lookup-update_all :
      (symbol timeframe : String) (c : Candle F) (ts : List (Tick F)) (active : Dict (Candle F))
      → AllOf symbol ts
      → lookup (candle_key symbol timeframe) active ≡ some c
      → lookup (candle_key symbol timeframe) (update_all ts timeframe active)
        ≡ some (after c ts timeframe)
  unfolding update_candle
  lookup-update_all symbol timeframe c [] active h q = q
  lookup-update_all symbol timeframe c (t ∷ ts) active h q =
      let d = next_candle (some c) t timeframe in
      let key = candle_key symbol timeframe in
      rw (h.0, q)
        (lookup-update_all symbol timeframe d ts (insert key d active) h.1
          (simp (lookup-insert, eq_refl)))

  -- what the ticks after the first leave of a candle
  after-fields :
      (c : Candle F) (ts : List (Tick F)) (timeframe : String)
      → let d = after c ts timeframe in
        (d.open_price ≡ c.open_price)
        × (d.close_price ≡ last_price c.close_price ts)
        × (d.volume ≡ total_volume c.volume ts)
        × ((d.high_price ≡ c.high_price) ⊎ Among d.high_price ts)
        × ((d.low_price ≡ c.low_price) ⊎ Among d.low_price ts)
  after-fields c [] timeframe = (refl, refl, refl, inl refl, inl refl)
  after-fields c (t ∷ ts) timeframe =
      ground (arith, after-fields (next_candle (some c) t timeframe) ts timeframe)

  module _ (order : StrictOrder F) where
    next-Spans :
        (c : Candle F) (t : Tick F) (timeframe : String) (x : F)
        → Spans c x
        → Spans (next_candle (some c) t timeframe) x
    next-Spans c t timeframe x h =
        ground (arith, order.lt_trans c.high_price t.price x, order.lt_trans x t.price c.low_price)

    next-Spans_self :
        (c : Candle F) (t : Tick F) (timeframe : String)
        → Spans (next_candle (some c) t timeframe) t.price
    next-Spans_self c t timeframe = ground (arith, order.lt_irrefl t.price)

    after-Spans :
        (c : Candle F) (ts : List (Tick F)) (timeframe : String) (x : F)
        → Spans c x
        → Spans (after c ts timeframe) x
    after-Spans c [] timeframe x h = h
    after-Spans c (t ∷ ts) timeframe x h =
        after-Spans (next_candle (some c) t timeframe) ts timeframe x (next-Spans c t timeframe x h)

    Spans-after :
        (c : Candle F) (ts : List (Tick F)) (timeframe : String)
        → All (λ t. Spans (after c ts timeframe) (t.price)) ts
    Spans-after c [] timeframe = tt
    Spans-after c (t ∷ ts) timeframe =
        let d = next_candle (some c) t timeframe in
        (
          after-Spans d ts timeframe t.price (next-Spans_self c t timeframe),
          Spans-after d ts timeframe,
        )

    -- what the candle of a stream of ticks is
    abbrev pub Summarises : Candle F → Tick F → List (Tick F) → Type 0
    Summarises d t ts =
        (d.open_price ≡ t.price)
        × (d.close_price ≡ last_price t.price ts)
        × (d.volume ≡ total_volume t.volume ts)
        × Among d.high_price (t ∷ ts)
        × Among d.low_price (t ∷ ts)
        × All (λ u. Spans d (u.price)) (t ∷ ts)

    -- Over a stream of ticks of one symbol, from no active candle: there is a candle under the
    -- symbol and timeframe; it opens at the first price and closes at the last, its volume is the
    -- running sum of the volumes, its high and low are prices of the stream, and no price of the
    -- stream lies above the high or below the low.
    pub candle_lem :
        (timeframe : String) (t : Tick F) (ts : List (Tick F)) (active : Dict (Candle F))
        → AllOf t.symbol ts
        → lookup (candle_key t.symbol timeframe) active ≡ none
        → (d : Candle F) × (lookup
              (candle_key t.symbol timeframe)
              (update_all (t ∷ ts) timeframe active)
            ≡ some d)
          × Summarises d t ts
    unfolding update_candle
    candle_lem timeframe t ts active h q =
        let d : Candle F = next_candle none t timeframe in
        let key = candle_key t.symbol timeframe in
        let f = after-fields d ts timeframe in
        let self : Spans d t.price = (order.lt_irrefl t.price, order.lt_irrefl t.price) in
        (
          after d ts timeframe,
          rw q (
              lookup-update_all t.symbol timeframe d ts (insert key d active) h
                (simp (lookup-insert, eq_refl))),
          (
            f.0,
            f.1,
            f.2,
            f.3,
            f.4,
            (after-Spans d ts timeframe t.price self, Spans-after d ts timeframe),
          ),
        )
