-- ===== src/Scalping/Minimal.antt =====
-- The strategy of pkg/strategy/scalping: the averages alone.
use gogocoin.Prelude.{Option, some, List, [], ◌∷◌, if◌then◌else◌}
use gogocoin.Prelude.Int.{ℤ}
use gogocoin.Float.{Float, ◌⊘◌, ◌≺◌, nought, number}
use gogocoin.Domain.{Time}
use gogocoin.Strategy.{MarketData, text, float, signal_buy, signal_sell, signal_hold}
use gogocoin.Scalping.Averages.{calc_ema}
use gogocoin.Scalping.Deciding.{Answer, panicked, answered, create_signal, is_short}

pub record MinimalStrategy (F : Type 0) : Type 0 where
  pub ema_fast_period : ℤ
  pub ema_slow_period : ℤ
  pub take_profit_pct : F
  pub stop_loss_pct : F
  pub order_notional : F

module _ {F : Type 0} ⦃fl : Float F⦄ where
  abbrev pub minimal_answer :
      Time → MinimalStrategy F → MarketData F → Option F → Option F → Answer F
  minimal_answer now s d (some fast) (some slow) = answered (
      create_signal now d.symbol
        (if slow ≺ fast then signal_buy else if fast ≺ slow then signal_sell else signal_hold)
        (number 1) d.price (if nought ≺ d.price then s.order_notional ⊘ d.price else nought)
        (("ema_fast", float fast) ∷ (("ema_slow", float slow) ∷ [])))
  minimal_answer now s d _ _ = panicked

  -- `GenerateSignal` of pkg/strategy/scalping, for data that is not nil
  unfoldable pub generate_minimal_signal :
      Time → MarketData F → List (MarketData F) → MinimalStrategy F → Answer F
  generate_minimal_signal now d history s =
      if is_short history s.ema_slow_period
      then answered (
          create_signal now d.symbol signal_hold nought d.price nought
            (("reason", text "insufficient_history") ∷ []))
      else minimal_answer now s d (calc_ema history s.ema_fast_period)
          (calc_ema history s.ema_slow_period)
