-- ===== src/Ticking/Bars.antt =====
-- The history of a symbol, and how `processTickBarMode` joins ticks into bars. Instants are from 1970
-- on, so the branch of `barBucketStart` for earlier ones is left out.
use gogocoin.Prelude.{
  ℕ, ◌-◌, ◌%◌, String, Bool, true, false, Option, none, some, List, [], ◌∷◌, ◌++◌, length, drop,
  ltb, ◌==◌, if◌then◌else◌,
}
use gogocoin.Float.{Float, ◌⊕◌, ◌⊖◌, ◌≺◌, nought}
use gogocoin.Domain.{Time, zero_time}
use gogocoin.Strategy.{MarketData}

-- the fields of `domain.MarketData` that the worker reads
pub record Tick (F : Type 0) : Type 0 where
  pub symbol : String
  pub timestamp : Time
  pub price : F
  pub volume : F
  pub best_bid : F
  pub best_ask : F
  pub spread : F

-- `points` is the field `data`.
pub record SymbolHistory (F : Type 0) : Type 0 where
  pub points : List (MarketData F)
  pub last_access : Time
  pub bar_open : Bool
  pub bar_start : Time
  pub bar_high : F
  pub bar_low : F
  pub bar_close : F
  pub bar_volume : F
  pub bar_best_bid : F
  pub bar_best_ask : F

-- the slice `data[len(data)-limit:]` of a list that is longer than the limit
abbrev pub keep_last : {A : Type 0} → ℕ → List A → List A
keep_last limit xs = if ltb limit (length xs) then drop (length xs - limit) xs else xs

-- `barBucketStart`
unfoldable pub bar_bucket_start : Time → ℕ → Time
bar_bucket_start t period = t - t % period

module _ {F : Type 0} ⦃fl : Float F⦄ where
  -- the tick, or the bar, as the strategy sees it
  abbrev pub strategy_data : Tick F → MarketData F
  strategy_data t = record {
    symbol = t.symbol;
    product_code = "";
    timestamp = t.timestamp;
    price = t.price;
    volume = t.volume;
    best_bid = t.best_bid;
    best_ask = t.best_ask;
    spread = t.spread;
    open_price = nought;
    high = nought;
    low = nought;
    close = nought;
  }

  abbrev pub new_history : Time → SymbolHistory F
  new_history now = record {
    points = [];
    last_access = now;
    bar_open = false;
    bar_start = zero_time;
    bar_high = nought;
    bar_low = nought;
    bar_close = nought;
    bar_volume = nought;
    bar_best_bid = nought;
    bar_best_ask = nought;
  }

  -- a bucket that starts with a tick
  abbrev pub start_bar : Time → Tick F → SymbolHistory F → SymbolHistory F
  start_bar bucket t h = record h {
    bar_start = bucket;
    bar_high = t.price;
    bar_low = t.price;
    bar_close = t.price;
    bar_volume = t.volume;
    bar_best_bid = t.best_bid;
    bar_best_ask = t.best_ask;
  }

  -- a further tick of the open bucket
  abbrev pub extend_bar : Tick F → SymbolHistory F → SymbolHistory F
  extend_bar t h = record h {
    bar_high = if h.bar_high ≺ t.price then t.price else h.bar_high;
    bar_low = if t.price ≺ h.bar_low then t.price else h.bar_low;
    bar_close = t.price;
    bar_volume = h.bar_volume ⊕ t.volume;
    bar_best_bid = t.best_bid;
    bar_best_ask = t.best_ask;
  }

  -- the open bucket as a bar
  abbrev pub finished_bar : String → SymbolHistory F → Tick F
  finished_bar symbol h = record {
    symbol = symbol;
    timestamp = h.bar_start;
    price = h.bar_close;
    volume = h.bar_volume;
    best_bid = h.bar_best_bid;
    best_ask = h.bar_best_ask;
    spread = h.bar_best_ask ⊖ h.bar_best_bid;
  }

  abbrev pub append_point : ℕ → Tick F → SymbolHistory F → SymbolHistory F
  append_point limit t h = record h {
    points = keep_last limit (h.points ++ (strategy_data t ∷ []));
  }

  -- the switch of `processTickBarMode`: the bar that the tick completes, and the history
  unfoldable pub aggregate : ℕ → ℕ → Tick F → SymbolHistory F → Option (Tick F) × SymbolHistory F
  aggregate period limit t h =
      let bucket = bar_bucket_start t.timestamp period in
      let bar = finished_bar t.symbol h in
      if h.bar_open
      then (if bucket == h.bar_start
          then (none, extend_bar t h)
          else if ltb h.bar_start bucket
          then (some bar, start_bar bucket t (append_point limit bar h))
          else (none, h))
      else (none, start_bar bucket t (record h { bar_open = true }))
