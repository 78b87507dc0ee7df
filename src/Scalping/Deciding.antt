-- ===== src/Scalping/Deciding.antt =====
-- `GenerateSignal`, `RecordTrade` and the counters of example/strategy/scalping. `duration_seconds` is
-- `Duration.Seconds` of package time. The methods run under one lock each and are taken as whole.
use gogocoin.Prelude.{
  ℕ, suc, String, Bool, false, ◌&&◌, ◌||◌, Option, none, some, List, [], ◌∷◌, length, last?, ◌==◌,
  if◌then◌else◌, str_eq,
}
use gogocoin.Prelude.Int.{ℤ, pos, ◌+ℤ◌, ◌-ℤ◌, ltb_ℤ, leb_ℤ, eqb_ℤ}
use gogocoin.Float.{Float, ◌⊘◌, ◌≺◌, nought, number}
use gogocoin.Domain.{Time, zero_time, is_zero, or_now}
use gogocoin.Strategy.{
  Signal, MarketData, Metadata, text, float, signal_buy, signal_sell, signal_hold,
}
use gogocoin.Risk.{jst_day}
use gogocoin.Scalping.Averages.{calc_ema, calc_rsi}
use gogocoin.Scalping.Settings.{Params, ScalpingStrategy}

-- what `GenerateSignal` does with market data
pub data Answer (F : Type 0) : Type 0 where
  panicked : Answer F
  answered : Signal F → Answer F

-- `strategy.CreateSignal`
abbrev pub create_signal : {F : Type 0} → Time → String → String → F → F → F → Metadata F → Signal F
create_signal now symbol action strength price quantity metadata = record {
  symbol = symbol;
  action = action;
  strength = strength;
  price = price;
  quantity = quantity;
  timestamp = now;
  metadata = metadata;
}

abbrev pub is_date : Option ℕ → ℕ → Bool
is_date none day = false
is_date (some d) day = d == day

-- `period > 0`, as the number that it then is
abbrev pub positive : ℤ → Option ℕ
positive (pos (suc n)) = some (suc n)
positive _ = none

-- `len(history) < period`
abbrev pub is_short : {A : Type 0} → List A → ℤ → Bool
is_short history period = ltb_ℤ (pos (length history)) period

module _ {F : Type 0} ⦃fl : Float F⦄ where
  -- `isDailyLimitReached`
  unfoldable pub is_daily_limit_reached : Time → ScalpingStrategy F → Bool
  is_daily_limit_reached now s =
      if is_date s.last_trade_date (jst_day (or_now now s.last_seen_timestamp))
      then leb_ℤ s.params.max_daily_trades s.daily_trade_count
      else false

  abbrev pub hold : Time → MarketData F → Metadata F → Answer F
  hold now d metadata =
      answered (create_signal now d.symbol signal_hold nought d.price nought metadata)

  abbrev pub reason : String → Metadata F
  reason why = ("reason", text why) ∷ []

  -- the action of the two averages
  abbrev pub action_of : F → F → String
  action_of fast slow =
      if slow ≺ fast then signal_buy else if fast ≺ slow then signal_sell else signal_hold

  abbrev pub finish : Time → Params F → MarketData F → F → F → Answer F
  finish now p d fast slow = answered (
      create_signal now d.symbol (action_of fast slow) (number 1) d.price
        (if nought ≺ d.price then p.order_notional ⊘ d.price else nought)
        (("ema_fast", float fast) ∷ (("ema_slow", float slow) ∷ [])))

  abbrev pub with_rsi : Time → Params F → MarketData F → F → F → F → Answer F
  with_rsi now p d fast slow rsi =
      if str_eq (action_of fast slow) signal_buy && (p.rsi_overbought ≺ rsi)
      then hold now d (("reason", text "rsi_overbought") ∷ (("rsi", float rsi) ∷ []))
      else if str_eq (action_of fast slow) signal_sell && (rsi ≺ p.rsi_oversold)
      then hold now d (("reason", text "rsi_oversold") ∷ (("rsi", float rsi) ∷ []))
      else finish now p d fast slow

  abbrev pub rsi_filter :
      Time → Params F → MarketData F → List (MarketData F) → F → F → Option ℕ → Answer F
  rsi_filter now p d history fast slow none = finish now p d fast slow
  rsi_filter now p d history fast slow (some period) =
      if str_eq (action_of fast slow) signal_hold
      then finish now p d fast slow
      else with_rsi now p d fast slow (calc_rsi history period)

  abbrev pub with_trend :
      Time → Params F → MarketData F → List (MarketData F) → F → F → Option F → Answer F
  with_trend now p d history fast slow none = panicked
  with_trend now p d history fast slow (some trend) =
      if d.price ≺ trend
      then hold now d (("reason", text "trend_filter") ∷ (("ema_trend", float trend) ∷ []))
      else rsi_filter now p d history fast slow (positive p.rsi_period)

  abbrev pub trend_filter : Time → Params F → MarketData F → List (MarketData F) → F → F → Answer F
  trend_filter now p d history fast slow =
      if str_eq (action_of fast slow) signal_buy && ltb_ℤ (pos 0) p.trend_ema_period
      then (if is_short history p.trend_ema_period
          then hold now d (reason "trend_filter_insufficient_history")
          else with_trend now p d history fast slow (calc_ema history p.trend_ema_period))
      else rsi_filter now p d history fast slow (positive p.rsi_period)

  abbrev pub observe : MarketData F → ScalpingStrategy F → ScalpingStrategy F
  observe d s = if is_zero d.timestamp then s else record s { last_seen_timestamp = d.timestamp }

  -- `RecordTrade`
  unfoldable pub record_trade : Time → ScalpingStrategy F → ScalpingStrategy F
  record_trade clock s =
      let now = or_now clock s.last_seen_timestamp in
      record s {
        last_trade_time = now;
        daily_trade_count =
            if is_date s.last_trade_date (jst_day now) then s.daily_trade_count +ℤ pos 1 else pos 1;
        last_trade_date = some (jst_day now);
      }

  -- `InitializeDailyTradeCount`
  abbrev pub initialize_daily_trade_count : Time → ℤ → ScalpingStrategy F → ScalpingStrategy F
  initialize_daily_trade_count clock count s = record s {
    daily_trade_count = count;
    last_trade_date = some (jst_day clock);
  }

  -- `Reset`, without the base strategy's figures
  abbrev pub reset : ScalpingStrategy F → ScalpingStrategy F
  reset s = record s {
    last_trade_time = zero_time;
    daily_trade_count = pos 0;
    last_trade_date = none;
  }

module _ {F : Type 0} ⦃fl : Float F⦄ (duration_seconds : ℤ → F) where
  -- `isInCooldown`
  unfoldable pub is_in_cooldown : Time → ScalpingStrategy F → Bool
  is_in_cooldown now s =
      if is_zero s.last_trade_time || eqb_ℤ s.params.cooldown_sec (pos 0)
      then false
      else duration_seconds (pos (or_now now s.last_seen_timestamp) -ℤ pos s.last_trade_time)
        ≺ fl.of_int s.params.cooldown_sec

  abbrev pub with_averages :
      Time
      → ScalpingStrategy F
      → MarketData F
      → List (MarketData F)
      → Option F
      → Option F
      → Answer F
  with_averages now s d history (some fast) (some slow) =
      if is_in_cooldown now s
      then hold now d (reason "cooldown")
      else if is_daily_limit_reached now s
      then hold now d (reason "daily_limit")
      else trend_filter now s.params d history fast slow
  with_averages now s d history _ _ = panicked

  -- what follows once the tick's time is noted
  unfoldable pub decide : Time → ScalpingStrategy F → MarketData F → List (MarketData F) → Answer F
  decide now s d history =
      if is_short history s.params.ema_slow_period
      then hold now d (reason "insufficient_history")
      else with_averages now s d history (calc_ema history s.params.ema_fast_period)
          (calc_ema history s.params.ema_slow_period)

  -- `GenerateSignal`, for data that is not nil
  unfoldable pub generate_signal :
      Time → MarketData F → List (MarketData F) → ScalpingStrategy F → Answer F × ScalpingStrategy F
  generate_signal now d history s = let seen = observe d s in (decide now seen d history, seen)

  abbrev analyze_latest :
      Time
      → Option (MarketData F)
      → List (MarketData F)
      → ScalpingStrategy F
      → Option (Answer F) × ScalpingStrategy F
  analyze_latest now none history s = (none, s)
  analyze_latest now (some d) history s =
      let (answer, seen) = generate_signal now d history s in (some answer, seen)

  -- `Analyze`; `none` is its error for an empty history
  unfoldable pub analyze :
      Time → List (MarketData F) → ScalpingStrategy F → Option (Answer F) × ScalpingStrategy F
  analyze now history s = analyze_latest now (last? history) history s
