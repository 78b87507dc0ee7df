-- ===== src/Scalping/Settings.antt =====
-- The strategy of example/strategy/scalping, and its settings. A date of `jstDate` is the number of
-- the day; the empty date is `none`.
use gogocoin.Prelude.{ℕ, Option, none, some, [], ◌∷◌, Result, ok, reject_if, ◌>>◌, if◌then◌else◌}
use gogocoin.Prelude.Int.{ℤ, pos, ltb_ℤ, leb_ℤ}
use gogocoin.Float.{Float, ◌⊕◌, ◌⊖◌, ◌⊗◌, ◌⊘◌, ◌≼◌, ◌≐◌, nought, number}
use gogocoin.Domain.{Time, zero_time}
use gogocoin.Strategy.{Any, float, int, Metadata, lookup}

pub record Params (F : Type 0) : Type 0 where
  pub ema_fast_period : ℤ
  pub ema_slow_period : ℤ
  pub trend_ema_period : ℤ
  pub rsi_period : ℤ
  pub rsi_overbought : F
  pub rsi_oversold : F
  pub take_profit_pct : F
  pub stop_loss_pct : F
  pub cooldown_sec : ℤ
  pub max_daily_trades : ℤ
  pub order_notional : F

-- `params` are the fields that the strategy has in common with `Params`.
pub record ScalpingStrategy (F : Type 0) : Type 0 where
  pub params : Params F
  pub last_trade_time : Time
  pub daily_trade_count : ℤ
  pub last_trade_date : Option ℕ
  pub last_seen_timestamp : Time

pub data ConfigError : Type 0 where
  fast_not_positive slow_not_positive fast_not_below_slow : ConfigError
  take_profit_not_positive stop_loss_not_positive : ConfigError
  cooldown_negative daily_trades_not_positive notional_not_positive : ConfigError

-- `if v, ok := config[key].(int); ok { field = v }`
abbrev pub int_or : {F : Type 0} → ℤ → Option (Any F) → ℤ
int_or field (some (int v)) = v
int_or field _ = field

abbrev pub float_or : {F : Type 0} → F → Option (Any F) → F
float_or field (some (float v)) = v
float_or field _ = field

module _ {F : Type 0} ⦃fl : Float F⦄ where
  abbrev pub or_default : F → F → F
  or_default standard x = if x ≐ nought then standard else x

  -- `New`
  unfoldable pub new_strategy : Params F → ScalpingStrategy F
  new_strategy p = record {
    params = record p {
      rsi_overbought = or_default (number 70) p.rsi_overbought;
      rsi_oversold = or_default (number 30) p.rsi_oversold;
    };
    last_trade_time = zero_time;
    daily_trade_count = pos 0;
    last_trade_date = none;
    last_seen_timestamp = zero_time;
  }

  -- `validate`
  unfoldable pub validate : Params F → Result ConfigError (Unit {0})
  validate p =
      reject_if (leb_ℤ p.ema_fast_period (pos 0)) fast_not_positive
      >> reject_if (leb_ℤ p.ema_slow_period (pos 0)) slow_not_positive
      >> reject_if (leb_ℤ p.ema_slow_period p.ema_fast_period) fast_not_below_slow
      >> reject_if (p.take_profit_pct ≼ nought) take_profit_not_positive
      >> reject_if (p.stop_loss_pct ≼ nought) stop_loss_not_positive
      >> reject_if (ltb_ℤ p.cooldown_sec (pos 0)) cooldown_negative
      >> reject_if (leb_ℤ p.max_daily_trades (pos 0)) daily_trades_not_positive
      >> reject_if (p.order_notional ≼ nought) notional_not_positive

  unfoldable pub apply_config : Metadata F → Params F → Params F
  apply_config c p = record {
    ema_fast_period = int_or p.ema_fast_period (lookup "ema_fast_period" c);
    ema_slow_period = int_or p.ema_slow_period (lookup "ema_slow_period" c);
    trend_ema_period = int_or p.trend_ema_period (lookup "trend_ema_period" c);
    rsi_period = int_or p.rsi_period (lookup "rsi_period" c);
    rsi_overbought = float_or p.rsi_overbought (lookup "rsi_overbought" c);
    rsi_oversold = float_or p.rsi_oversold (lookup "rsi_oversold" c);
    take_profit_pct = float_or p.take_profit_pct (lookup "take_profit_pct" c);
    stop_loss_pct = float_or p.stop_loss_pct (lookup "stop_loss_pct" c);
    cooldown_sec = int_or p.cooldown_sec (lookup "cooldown_sec" c);
    max_daily_trades = int_or p.max_daily_trades (lookup "max_daily_trades" c);
    order_notional = float_or p.order_notional (lookup "order_notional" c);
  }

  -- `Initialize`; `none` is the nil map
  unfoldable pub initialize :
      Option (Metadata F) → ScalpingStrategy F → Result ConfigError (Unit {0}) × ScalpingStrategy F
  initialize none s = (ok tt, s)
  initialize (some c) s = let p = apply_config c s.params in (validate p, record s { params = p })

  -- `GetConfig`
  unfoldable pub get_config : ScalpingStrategy F → Metadata F
  get_config s =
      let p = s.params in
      ("ema_fast_period", int p.ema_fast_period)
      ∷ (("ema_slow_period", int p.ema_slow_period)
          ∷ (("trend_ema_period", int p.trend_ema_period)
              ∷ (("rsi_period", int p.rsi_period)
                  ∷ (("rsi_overbought", float p.rsi_overbought)
                      ∷ (("rsi_oversold", float p.rsi_oversold)
                          ∷ (("take_profit_pct", float p.take_profit_pct)
                              ∷ (("stop_loss_pct", float p.stop_loss_pct)
                                  ∷ (("cooldown_sec", int p.cooldown_sec)
                                      ∷ (("max_daily_trades", int p.max_daily_trades)
                                          ∷ (("order_notional", float p.order_notional)
                                              ∷ []))))))))))

  -- `GetTakeProfitPrice`
  abbrev pub get_take_profit_price : ScalpingStrategy F → F → F
  get_take_profit_price s entry = entry ⊗ (number 1 ⊕ s.params.take_profit_pct ⊘ number 100)

  -- `GetStopLossPrice`
  abbrev pub get_stop_loss_price : ScalpingStrategy F → F → F
  get_stop_loss_price s entry = entry ⊗ (number 1 ⊖ s.params.stop_loss_pct ⊘ number 100)
