-- ===== src/Scalping/Agreement.antt =====
-- The two strategies side by side.
use gogocoin.Prelude.{
  ◌≡◌, refl, Bool, true, false, none, List, ◌&&◌, ◌||◌, Bool-cases, Option-cases, inl, inr, str_eq,
  arith,
}
use gogocoin.Prelude.Int.{ℤ, pos, ltb_ℤ, eqb_ℤ}
use gogocoin.Float.{Float}
use gogocoin.Domain.{Time, is_zero}
use gogocoin.Strategy.{MarketData, signal_buy}
use gogocoin.Scalping.Averages.{calc_ema}
use gogocoin.Scalping.Settings.{Params, ScalpingStrategy}
use gogocoin.Scalping.Deciding.{
  is_short, is_in_cooldown, is_daily_limit_reached, action_of, trend_filter, decide, observe,
  generate_signal, positive, finish,
}
use gogocoin.Scalping.Minimal.{MinimalStrategy, generate_minimal_signal}

and_false : (b : Bool) → (b && false) ≡ false
and_false b = ground arith

or_true : (b : Bool) → (b || true) ≡ true
or_true b = ground arith

module _ {F : Type 0} ⦃fl : Float F⦄ where
  -- the settings that both strategies have
  abbrev pub shared : Params F → MinimalStrategy F
  shared p = record {
    ema_fast_period = p.ema_fast_period;
    ema_slow_period = p.ema_slow_period;
    take_profit_pct = p.take_profit_pct;
    stop_loss_pct = p.stop_loss_pct;
    order_notional = p.order_notional;
  }

  -- no trend filter, no RSI filter and no cooldown
  abbrev pub IsPlain : Params F → Type 0
  IsPlain p =
      (ltb_ℤ (pos 0) p.trend_ema_period ≡ false)
      × (positive p.rsi_period ≡ none)
      × (eqb_ℤ p.cooldown_sec (pos 0) ≡ true)

  trend_filter_plain :
      (now : Time) (p : Params F) (d : MarketData F) (history : List (MarketData F)) (fast slow : F)
      → IsPlain p
      → trend_filter now p d history fast slow ≡ finish now p d fast slow
  trend_filter_plain now p d history fast slow (no_trend, no_rsi, _) =
      rw (no_trend, and_false (str_eq (action_of fast slow) signal_buy), no_rsi) refl

  module _ (duration_seconds : ℤ → F) where
    not_cooling :
        (now : Time) (s : ScalpingStrategy F)
        → eqb_ℤ s.params.cooldown_sec (pos 0) ≡ true
        → is_in_cooldown duration_seconds now s ≡ false
    unfolding is_in_cooldown
    not_cooling now s off = rw (off, or_true (is_zero s.last_trade_time)) refl

    decide_minimal :
        (now : Time) (s : ScalpingStrategy F) (d : MarketData F) (history : List (MarketData F))
        → IsPlain s.params
        → is_daily_limit_reached now s ≡ false
        → decide duration_seconds now s d history
          ≡ generate_minimal_signal now d history (shared s.params)
    unfolding decide generate_minimal_signal
    decide_minimal now s d history plain below =
        let p = s.params in
        let warm = not_cooling now s plain.2 in
        elim (Bool-cases (is_short history p.ema_slow_period)) [
          | inl short ↦ rw short refl
          | inr enough ↦ elim (Option-cases (calc_ema history p.ema_fast_period)) [
            | inl no_fast ↦ rw (enough, no_fast) refl
            | inr (fast, f) ↦ elim (Option-cases (calc_ema history p.ema_slow_period)) [
              | inl no_slow ↦ rw (enough, f, no_slow) refl
              | inr (slow, e) ↦
                  let plainly = trend_filter_plain now p d history fast slow plain in
                  rw (enough, f, e, warm, below) plainly
            ]
          ]
        ]

    -- Without trend filter, RSI filter and cooldown, and below the day's limit of trades, the strategy
    -- of the examples answers what the strategy of the framework answers with the same settings, panics
    -- included.
    pub generate_signal-generate_minimal_signal :
        (now : Time) (s : ScalpingStrategy F) (d : MarketData F) (history : List (MarketData F))
        → IsPlain s.params
        → is_daily_limit_reached now (observe d s) ≡ false
        → (generate_signal duration_seconds now d history s).0
          ≡ generate_minimal_signal now d history (shared s.params)
    unfolding generate_signal
    generate_signal-generate_minimal_signal now s d history plain below =
        elim (Bool-cases (is_zero d.timestamp)) [
          | inl unset ↦ rw unset (decide_minimal now s d history plain (rw unset at below))
          | inr stamped ↦ rw stamped (
              decide_minimal now (record s { last_seen_timestamp = d.timestamp }) d history plain
                (rw stamped at below))
        ]
