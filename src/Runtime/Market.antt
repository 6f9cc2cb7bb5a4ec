-- ===== src/Runtime/Market.antt =====
-- ver9/runtime/market: candles aggregated from ticks, and the store of the latest snapshots. The
-- time stamps that `datetime.now` gives are left out: nothing reads them back.
pub mod Candles
mod Tests
use crypto_trader_ver_9_alph.Prelude.{Option, none, some, String, str_append}
use crypto_trader_ver_9_alph.Prelude.Dict.{Dict, lookup, insert}
use crypto_trader_ver_9_alph.Prelude.Float.{FloatOps, add, max, min}

pub record Tick (F : Type 0) : Type 0 where
  pub symbol : String
  pub price : F
  pub volume : F

pub record Candle (F : Type 0) : Type 0 where
  pub symbol : String
  pub timeframe : String
  pub open_price : F
  pub high_price : F
  pub low_price : F
  pub close_price : F
  pub volume : F

-- `f"{symbol}:{timeframe}"`
abbrev pub candle_key : String → String → String
candle_key symbol timeframe = str_append symbol (str_append ":" timeframe)

module _ {F : Type 0} ⦃o : FloatOps F⦄ where
  -- the candle after a tick, from the one that was active
  abbrev pub next_candle : Option (Candle F) → Tick F → String → Candle F
  next_candle none tick timeframe = record {
    symbol = tick.symbol;
    timeframe = timeframe;
    open_price = tick.price;
    high_price = tick.price;
    low_price = tick.price;
    close_price = tick.price;
    volume = tick.volume;
  }
  next_candle (some c) tick timeframe = record c {
    high_price = max c.high_price tick.price;
    low_price = min c.low_price tick.price;
    close_price = tick.price;
    volume = add c.volume tick.volume;
  }

  -- `CandleAggregator.update`: the candle that it returns, and the active candles
  unfoldable pub update_candle : Tick F → String → Dict (Candle F) → Candle F × Dict (Candle F)
  update_candle tick timeframe active =
      let key = candle_key tick.symbol timeframe in
      let candle = next_candle (lookup key active) tick timeframe in
      (candle, insert key candle active)

-- A snapshot, and `MarketSnapshotStore.update` and `get`.
pub record MarketSnapshot (F : Type 0) : Type 0 where
  pub symbol : String
  pub last_price : F
  pub last_volume : F

module _ {F : Type 0} where
  unfoldable pub store_snapshot :
      MarketSnapshot F → Dict (MarketSnapshot F) → Dict (MarketSnapshot F)
  store_snapshot snapshot store = insert (snapshot.symbol) snapshot store

  unfoldable pub get_snapshot : String → Dict (MarketSnapshot F) → Option (MarketSnapshot F)
  get_snapshot symbol store = lookup symbol store
