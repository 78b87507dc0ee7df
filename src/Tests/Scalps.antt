-- ===== src/Tests/Scalps.antt =====
-- The strategies.
use gogocoin.Prelude.{◌≡◌, refl, true, some, List, [], ◌∷◌, ℕ, ◌≤◌, ◌/◌, arith}
use gogocoin.Prelude.Int.{ℤ, pos, ◌+ℤ◌, ◌*ℤ◌, ◌-ℤ◌, ◌/ℤ◌}
use gogocoin.Float.Exact.{exact_float}
use gogocoin.Strategy.{MarketData, Metadata, int}
use gogocoin.Risk.{second}
use gogocoin.Scalping.{
  Params, new_strategy, initialize, validate, get_config, generate_signal, decide, calc_ema,
  calc_rsi, is_in_cooldown, is_daily_limit_reached, generate_minimal_signal, apply_config,
}
use gogocoin.Scalping.Configured.{is_answered, initialize-get_config, configured_answers}
use gogocoin.Scalping.Filters.{IsClear, generate_signal-IsClear}
use gogocoin.Scalping.Days.{trades_on}
use gogocoin.Scalping.Limits.{Observation, played, daily_limit_kept}
use gogocoin.Scalping.Agreement.{shared, generate_signal-generate_minimal_signal}

abbrev settings : Params ℤ
settings = record {
  ema_fast_period = pos 1;
  ema_slow_period = pos 2;
  trend_ema_period = pos 0;
  rsi_period = pos 0;
  rsi_overbought = pos 70;
  rsi_oversold = pos 30;
  take_profit_pct = pos 2;
  stop_loss_pct = pos 1;
  cooldown_sec = pos 0;
  max_daily_trades = pos 3;
  order_notional = pos 1000;
}

abbrev filtered : Params ℤ
filtered = record settings {
  trend_ema_period = pos 2;
  rsi_period = pos 2;
  rsi_overbought = pos 100;
  cooldown_sec = pos 90;
}

abbrev data_at : ℕ → ℕ → MarketData ℤ
data_at t price = record {
  symbol = "BTC_JPY";
  product_code = "BTC_JPY";
  timestamp = t;
  price = pos price;
  volume = pos 1;
  best_bid = pos price;
  best_ask = pos price;
  spread = pos 0;
  open_price = pos price;
  high = pos price;
  low = pos price;
  close = pos price;
}

abbrev rising : List (MarketData ℤ)
rising = data_at 1 100 ∷ (data_at 2 90 ∷ (data_at 3 140 ∷ []))

-- the whole seconds of a duration
abbrev whole_seconds : ℤ → ℤ
whole_seconds (pos ns) = pos (ns / second)
whole_seconds n = n

initialize-get_config_example :
    initialize (some (get_config (new_strategy filtered))) (new_strategy settings) ≡ (
      validate (new_strategy filtered).params,
      record (new_strategy settings) { params = (new_strategy filtered).params },
    )
initialize-get_config_example =
    initialize-get_config (new_strategy filtered) (new_strategy settings)

abbrev change : Metadata ℤ
change = ("ema_slow_period", int (pos 3)) ∷ []

configured_answers_example :
    is_answered
      (generate_signal whole_seconds 5
        (data_at 3 140)
        rising
        (initialize (some change) (new_strategy settings)).1).0
    ≡ true
unfolding initialize validate apply_config new_strategy
configured_answers_example =
    configured_answers whole_seconds change (new_strategy settings) 5 (data_at 3 140) rising refl

generate_signal-IsClear_example :
    IsClear whole_seconds 5
      (generate_signal whole_seconds 5 (data_at 3 140) rising (new_strategy filtered)).1
      (data_at 3 140)
      rising
unfolding generate_signal decide calc_ema calc_rsi is_in_cooldown is_daily_limit_reached
    new_strategy ◌+ℤ◌ ◌*ℤ◌ ◌-ℤ◌ ◌/ℤ◌
generate_signal-IsClear_example =
    generate_signal-IsClear whole_seconds 5 (new_strategy filtered) (data_at 3 140) rising refl

generate_signal-generate_minimal_signal_example :
    (generate_signal whole_seconds 5 (data_at 3 140) rising (new_strategy settings)).0
    ≡ generate_minimal_signal 5 (data_at 3 140) rising (shared (new_strategy settings).params)
unfolding new_strategy is_daily_limit_reached
generate_signal-generate_minimal_signal_example =
    generate_signal-generate_minimal_signal whole_seconds 5 (new_strategy settings) (data_at 3 140)
      rising (refl, refl, refl) refl

abbrev seen_at : ℕ → Observation ℤ
seen_at t = record { clock = 5; market_data = data_at t 140; history = rising }

daily_limit_kept_example :
    trades_on 0 (played whole_seconds (seen_at 3 ∷ (seen_at 4 ∷ [])) (new_strategy settings) []).1
    ≤ 3
daily_limit_kept_example =
    daily_limit_kept whole_seconds settings 3 (seen_at 3 ∷ (seen_at 4 ∷ [])) refl (omega arith)
      ((omega arith, omega arith, (omega arith, omega arith, _))) 0
