-- ===== src/Scalping/Configured.antt =====
-- The settings of the strategy, and what valid settings are good for.
use gogocoin.Prelude.{
  ℕ, ◌≡◌, refl, Bool, true, false, Option, none, some, List, ok, ◌&&◌, Bool-cases, inl, inr, str_eq,
  arith, ltb, length,
}
use gogocoin.Prelude.Int.{ℤ, pos, negsuc, leb_ℤ, ltb_ℤ}
use gogocoin.Float.{Float, ◌≺◌, nought}
use gogocoin.Domain.{Time, is_zero}
use gogocoin.Strategy.{MarketData, Metadata, signal_buy}
use gogocoin.Scalping.Averages.{calc_ema}
use gogocoin.Scalping.Settings.{
  Params, ScalpingStrategy, validate, apply_config, initialize, get_config,
}
use gogocoin.Scalping.Deciding.{
  Answer, answered, panicked, is_short, is_in_cooldown, is_daily_limit_reached, action_of,
  rsi_filter, trend_filter, decide, generate_signal, positive,
}

is_positive :
    (b : Bool) (period : ℤ) → (b && ltb_ℤ (pos 0) period) ≡ true → leb_ℤ period (pos 0) ≡ false
is_positive b period h = ground arith

module _ {F : Type 0} ⦃fl : Float F⦄ where
  -- A strategy that is initialized with the configuration of another one has that one's settings
  -- afterwards, whatever its own were, keeps its counters, and returns an error where those settings
  -- are not valid.
  pub initialize-get_config :
      (s t : ScalpingStrategy F)
      → initialize (some (get_config s)) t ≡ (validate s.params, record t { params = s.params })
  unfolding initialize get_config apply_config
  initialize-get_config s t = refl

  calc_ema_positive :
      (history : List (MarketData F)) (period : ℤ)
      → leb_ℤ period (pos 0) ≡ false
      → (ema : F) × (calc_ema history period ≡ some ema)
  unfolding calc_ema
  calc_ema_positive history (pos n) above = elim (Bool-cases (ltb (length history) n)) [
    | inl short ↦ rw short (nought, refl)
    | inr enough ↦ rw enough (_, refl)
  ]
  calc_ema_positive history (negsuc n) above = ground arith

  -- what `validate` checks of the periods
  abbrev HasPeriods : Params F → Type 0
  HasPeriods p =
      (leb_ℤ p.ema_fast_period (pos 0) ≡ false) × (leb_ℤ p.ema_slow_period (pos 0) ≡ false)

  validate-HasPeriods : (p : Params F) → validate p ≡ ok tt → HasPeriods p
  unfolding validate
  validate-HasPeriods p valid = elim (Bool-cases (leb_ℤ p.ema_fast_period (pos 0))) [
    | inl bad ↦ let v = rw bad at valid in cc
    | inr fast ↦ elim (Bool-cases (leb_ℤ p.ema_slow_period (pos 0))) [
      | inl bad ↦ let v = rw (fast, bad) at valid in cc
      | inr slow ↦ (fast, slow)
    ]
  ]

  -- an answer, and no panic
  abbrev pub is_answered : Answer F → Bool
  is_answered panicked = false
  is_answered (answered signal) = true

  rsi_filter_answers :
      (now : Time) (p : Params F) (d : MarketData F) (history : List (MarketData F)) (fast slow : F)
      (period : Option ℕ)
      → is_answered (rsi_filter now p d history fast slow period) ≡ true
  rsi_filter_answers now p d history fast slow none = refl
  rsi_filter_answers now p d history fast slow (some period) = ground arith

  trend_filter_answers :
      (now : Time) (p : Params F) (d : MarketData F) (history : List (MarketData F)) (fast slow : F)
      → is_answered (trend_filter now p d history fast slow) ≡ true
  trend_filter_answers now p d history fast slow =
      let rsi = rsi_filter_answers now p d history fast slow (positive p.rsi_period) in
      elim (Bool-cases
        (str_eq (action_of fast slow) signal_buy && ltb_ℤ (pos 0) p.trend_ema_period)) [
          | inl asked ↦ elim (Bool-cases (is_short history p.trend_ema_period)) [
            | inl short ↦ rw (asked, short) refl
            | inr enough ↦
                let (trend, e) = calc_ema_positive history p.trend_ema_period (
                  is_positive (str_eq (action_of fast slow) signal_buy) p.trend_ema_period asked) in
                rw (asked, enough, e)
                  (elim (Bool-cases (d.price ≺ trend)) [
                    | inl below ↦ rw below refl
                    | inr above ↦ rw above rsi
                  ])
          ]
          | inr off ↦ rw off rsi
        ]

  module _ (duration_seconds : ℤ → F) where
    decide_answers :
        (now : Time) (s : ScalpingStrategy F) (d : MarketData F) (history : List (MarketData F))
        → HasPeriods s.params
        → is_answered (decide duration_seconds now s d history) ≡ true
    unfolding decide
    decide_answers now s d history (fast_positive, slow_positive) =
        elim (Bool-cases (is_short history s.params.ema_slow_period)) [
          | inl short ↦ rw short refl
          | inr enough ↦
              let (fast, f) = calc_ema_positive history s.params.ema_fast_period fast_positive in
              let (slow, e) = calc_ema_positive history s.params.ema_slow_period slow_positive in
              let rest = trend_filter_answers now s.params d history fast slow in
              rw (enough, f, e)
                (elim (Bool-cases (is_in_cooldown duration_seconds now s)) [
                  | inl cooling ↦ rw cooling refl
                  | inr warm ↦ elim (Bool-cases (is_daily_limit_reached now s)) [
                    | inl reached ↦ rw (warm, reached) refl
                    | inr below ↦ rw (warm, below) rest
                  ]
                ])
        ]

    -- Once `Initialize` has returned no error for a configuration, `GenerateSignal` does not panic,
    -- whatever the market data, the history and the strategy's counters are.
    pub configured_answers :
        (c : Metadata F) (s : ScalpingStrategy F) (now : Time) (d : MarketData F)
        (history : List (MarketData F))
        → (initialize (some c) s).0 ≡ ok tt
        → is_answered (generate_signal duration_seconds now d history (initialize (some c) s).1).0
          ≡ true
    unfolding initialize generate_signal
    configured_answers c s now d history valid =
        let p = apply_config c s.params in
        elim (Bool-cases (is_zero d.timestamp)) [
          | inl unset ↦
              rw unset (
                decide_answers now (record s { params = p }) d history
                  (validate-HasPeriods p valid))
          | inr stamped ↦ rw stamped (
              decide_answers now (record s { params = p; last_seen_timestamp = d.timestamp }) d
                history (validate-HasPeriods p valid))
        ]
