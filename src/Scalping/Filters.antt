-- ===== src/Scalping/Filters.antt =====
-- When the strategy buys.
use gogocoin.Prelude.{
  ℕ, ◌≡◌, refl, Bool, true, false, not, Option, none, some, List, ◌&&◌, Bool-cases, Option-cases,
  inl, inr, if◌then◌else◌, str_eq,
}
use gogocoin.Prelude.Int.{ℤ, pos, ltb_ℤ}
use gogocoin.Float.{Float, ◌≺◌}
use gogocoin.Domain.{Time}
use gogocoin.Strategy.{MarketData, signal_buy}
use gogocoin.Scalping.Averages.{calc_ema, calc_rsi}
use gogocoin.Scalping.Settings.{Params, ScalpingStrategy}
use gogocoin.Scalping.Deciding.{
  Answer, answered, panicked, is_short, is_in_cooldown, is_daily_limit_reached, action_of,
  rsi_filter, trend_filter, decide, observe, generate_signal, positive,
}

module _ {F : Type 0} ⦃fl : Float F⦄ where
  abbrev pub is_buy : Answer F → Bool
  is_buy panicked = false
  is_buy (answered signal) = str_eq signal.action signal_buy

  -- the fast average is above the slow one
  abbrev is_rising : Option F → Option F → Bool
  is_rising (some fast) (some slow) = slow ≺ fast
  is_rising _ _ = false

  abbrev is_not_below : F → Option F → Bool
  is_not_below price (some trend) = not (price ≺ trend)
  is_not_below price none = false

  -- the trend filter is off, or the price is not below the trend's average
  abbrev is_trend_clear : Params F → MarketData F → List (MarketData F) → Bool
  is_trend_clear p d history =
      if ltb_ℤ (pos 0) p.trend_ema_period
      then not (is_short history p.trend_ema_period)
        && is_not_below d.price (calc_ema history p.trend_ema_period)
      else true

  -- the RSI filter is off, or the index is not above the limit
  abbrev is_rsi_clear : Params F → List (MarketData F) → Option ℕ → Bool
  is_rsi_clear p history none = true
  is_rsi_clear p history (some period) = not (p.rsi_overbought ≺ calc_rsi history period)

  action_rising : (fast slow : F) → str_eq (action_of fast slow) "BUY" ≡ true → (slow ≺ fast) ≡ true
  action_rising fast slow buy = elim (Bool-cases (slow ≺ fast)) [
    | inl rising ↦ rising
    | inr other ↦ elim (Bool-cases (fast ≺ slow)) [
      | inl falling ↦ let h = rw (other, falling) at buy in cc
      | inr level ↦ let h = rw (other, level) at buy in cc
    ]
  ]

  rsi_filter_buy :
      (now : Time) (p : Params F) (d : MarketData F) (history : List (MarketData F)) (fast slow : F)
      (period : Option ℕ)
      → is_buy (rsi_filter now p d history fast slow period) ≡ true
      → ((slow ≺ fast) ≡ true) × (is_rsi_clear p history period ≡ true)
  rsi_filter_buy now p d history fast slow none buy = (action_rising fast slow buy, refl)
  rsi_filter_buy now p d history fast slow (some period) buy =
      let rsi = calc_rsi history period in
      elim (Bool-cases (slow ≺ fast)) [
        | inl rising ↦ elim (Bool-cases (p.rsi_overbought ≺ rsi)) [
          | inl over ↦ let h = rw (rising, over) at buy in cc
          | inr below ↦ (rising, rw below refl)
        ]
        | inr other ↦ elim (Bool-cases (fast ≺ slow)) [
          | inl falling ↦ elim (Bool-cases (rsi ≺ p.rsi_oversold)) [
            | inl under ↦ let h = rw (other, falling, under) at buy in cc
            | inr above ↦ let h = rw (other, falling, above) at buy in cc
          ]
          | inr level ↦ let h = rw (other, level) at buy in cc
        ]
      ]

  trend_filter_buy :
      (now : Time) (p : Params F) (d : MarketData F) (history : List (MarketData F)) (fast slow : F)
      → is_buy (trend_filter now p d history fast slow) ≡ true
      → ((slow ≺ fast) ≡ true)
        × (is_trend_clear p d history ≡ true)
        × (is_rsi_clear p history (positive p.rsi_period) ≡ true)
  trend_filter_buy now p d history fast slow buy =
      let trending = ltb_ℤ (pos 0) p.trend_ema_period in
      let by_rsi = rsi_filter_buy now p d history fast slow (positive p.rsi_period) in
      elim (Bool-cases (str_eq (action_of fast slow) "BUY")) [
        | inl is_buy' ↦ elim (Bool-cases trending) [
          | inl on ↦ elim (Bool-cases (is_short history p.trend_ema_period)) [
            | inl short ↦ let h = rw (is_buy', on, short) at buy in cc
            | inr enough ↦ elim (Option-cases (calc_ema history p.trend_ema_period)) [
              | inl no_trend ↦ let h = rw (is_buy', on, enough, no_trend) at buy in cc
              | inr (trend, e) ↦ elim (Bool-cases (d.price ≺ trend)) [
                | inl below ↦ let h = rw (is_buy', on, enough, e, below) at buy in cc
                | inr above ↦
                    let (rising, rsi) = by_rsi (rw (is_buy', on, enough, e, above) at buy) in
                    (rising, rw (on, enough, e, above) refl, rsi)
              ]
            ]
          ]
          | inr off ↦
              let (rising, rsi) = by_rsi (rw (is_buy', off) at buy) in (rising, rw off refl, rsi)
        ]
        | inr other ↦
            let (rising, rsi) = by_rsi (rw other at buy) in
            let is_buy' : str_eq (action_of fast slow) "BUY" ≡ true = rw rising refl in cc
      ]

  module _ (duration_seconds : ℤ → F) where
    -- everything that speaks for a BUY
    abbrev pub IsClear : Time → ScalpingStrategy F → MarketData F → List (MarketData F) → Type 0
    IsClear now s d history =
        let p = s.params in
        (is_rising (calc_ema history p.ema_fast_period) (calc_ema history p.ema_slow_period) ≡ true)
        × (is_short history p.ema_slow_period ≡ false)
        × (is_in_cooldown duration_seconds now s ≡ false)
        × (is_daily_limit_reached now s ≡ false)
        × (is_trend_clear p d history ≡ true)
        × (is_rsi_clear p history (positive p.rsi_period) ≡ true)

    decide_buy :
        (now : Time) (s : ScalpingStrategy F) (d : MarketData F) (history : List (MarketData F))
        → is_buy (decide duration_seconds now s d history) ≡ true
        → IsClear now s d history
    unfolding decide
    decide_buy now s d history buy =
        let p = s.params in
        elim (Bool-cases (is_short history p.ema_slow_period)) [
          | inl short ↦ let h = rw short at buy in cc
          | inr enough ↦ elim (Option-cases (calc_ema history p.ema_fast_period)) [
            | inl no_fast ↦ let h = rw (enough, no_fast) at buy in cc
            | inr (fast, f) ↦ elim (Option-cases (calc_ema history p.ema_slow_period)) [
              | inl no_slow ↦ let h = rw (enough, f, no_slow) at buy in cc
              | inr (slow, e) ↦ elim (Bool-cases (is_in_cooldown duration_seconds now s)) [
                | inl cooling ↦ let h = rw (enough, f, e, cooling) at buy in cc
                | inr warm ↦ elim (Bool-cases (is_daily_limit_reached now s)) [
                  | inl reached ↦ let h = rw (enough, f, e, warm, reached) at buy in cc
                  | inr below ↦
                      let (rising, trend, rsi) =
                        trend_filter_buy now p d history fast slow
                          (rw (enough, f, e, warm, below) at buy) in
                      (rw (f, e) rising, enough, warm, below, trend, rsi)
                ]
              ]
            ]
          ]
        ]

    -- `GenerateSignal` answers BUY only where the history is as long as the slow period, the fast
    -- average is above the slow one, the cooldown after the last trade is over, the day's limit of
    -- trades is not reached, the price is not below the trend's average where that filter is on, and
    -- the RSI is not above its limit where that one is: all with the tick's own time noted.
    pub generate_signal-IsClear :
        (now : Time) (s : ScalpingStrategy F) (d : MarketData F) (history : List (MarketData F))
        → is_buy (generate_signal duration_seconds now d history s).0 ≡ true
        → IsClear now (generate_signal duration_seconds now d history s).1 d history
    unfolding generate_signal
    generate_signal-IsClear now s d history buy = decide_buy now (observe d s) d history buy
