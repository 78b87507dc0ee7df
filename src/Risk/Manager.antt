-- ===== src/Risk/Manager.antt =====
-- manager.go. What the manager asks of the trader and the repositories is a record of answers.
-- `balance` and `balance_again` answer the two calls of `GetBalance`. `int` values are integers
-- without bounds; `MinTradeInterval` is a duration that is not negative.
use gogocoin.Prelude.{
  ℕ, ◌+◌, ◌*◌, ◌/◌, String, Bool, ◌&&◌, ◌||◌, Option, none, some, List, [], ◌∷◌, Result, ok, err,
  ◌>>=◌, ◌>>◌, reject_if, map_err, ltb, ◌==◌, if◌then◌else◌, str_eq, length, count_if,
}
use gogocoin.Prelude.Int.{ℤ, pos, leb_ℤ}
use gogocoin.Float.{Float, ◌⊕◌, ◌⊗◌, ◌⊘◌, ◌≺◌, ◌≼◌, nought, number}
use gogocoin.Domain.{Time, is_zero, Balance, Position, Trade}
use gogocoin.Strategy.{Signal, signal_buy, signal_sell, lookup, as_text}

pub record ManagerConfig (F : Type 0) : Type 0 where
  pub max_total_loss_percent : F
  pub max_trade_loss_percent : F
  pub max_daily_loss_percent : F
  pub max_trade_amount_percent : F
  pub max_daily_trades : ℤ
  pub min_trade_interval : ℕ
  pub max_open_positions_per_symbol : ℤ
  pub pnl_epoch : Time
  pub fee_rate : F
  pub initial_balance : F

-- an error that a collaborator returns
pub data Failure : Type 0 where
  failure : Failure

pub record Answers (F : Type 0) : Type 0 where
  pub now : Time
  pub balance : Result Failure (List (Balance F))
  pub balance_again : Result Failure (List (Balance F))
  pub recent_trades : ℕ → Result Failure (List (Trade F))
  pub trades_since : Time → Result Failure (List (Trade F))
  -- `TotalPnL` of the metrics, the most recent first
  pub total_pnls : ℕ → Result Failure (List F)
  -- `none` where no repository was injected
  pub open_positions : Option (String → String → Result Failure (List (Position F)))

pub data RiskError : Type 0 where
  balance_unavailable : Failure → RiskError
  insufficient_jpy : RiskError
  trade_amount_exceeded : RiskError
  max_open_positions : RiskError
  trades_unavailable : Failure → RiskError
  daily_limit_reached : RiskError
  interval_too_short : RiskError
  metrics_unavailable : Failure → RiskError
  total_loss_exceeded : RiskError

abbrev pub Check : Type 0
Check = Result RiskError (Unit {0})

abbrev pub pass : Check
pass = ok tt

-- the nanoseconds of a second
abbrev pub second : ℕ
second = 1_000_000_000

-- the civil day of an instant in Japan, nine hours ahead of UTC, where no clock is ever changed:
-- `ToJST(t).Date()` of two instants is the same exactly when this is (the fallback to UTC, for a
-- host without time zone data, is left out)
abbrev pub jst_day : Time → ℕ
jst_day t = (t + 9 * 3600 * second) / (86_400 * second)

-- `isForcedExitSell`
unfoldable pub is_forced_exit_sell : {F : Type 0} → Signal F → Bool
is_forced_exit_sell signal =
    let reason = as_text (lookup "reason" signal.metadata) in
    str_eq signal.action signal_sell && (str_eq reason "stop_loss" || str_eq reason "take_profit")

module _ {F : Type 0} ⦃fl : Float F⦄ where
  -- the loop that looks for the JPY balance, from a default
  abbrev pub jpy_available : F → List (Balance F) → F
  jpy_available d [] = d
  jpy_available d (b ∷ bs) = if str_eq b.currency "JPY" then b.available else jpy_available d bs

  -- `checkTradeAmount`
  unfoldable pub check_trade_amount : ManagerConfig F → Signal F → F → Check
  check_trade_amount cfg signal jpy =
      let notional = signal.price ⊗ signal.quantity in
      let amount =
        if str_eq signal.action signal_buy
        then notional ⊗ (number 1 ⊕ cfg.fee_rate)
        else notional in
      let limit = jpy ⊗ cfg.max_trade_amount_percent ⊘ number 100 in
      reject_if (limit ≺ amount) trade_amount_exceeded

  abbrev pub count_today : Time → List (Trade F) → ℕ
  count_today now = count_if λ t. jst_day t.created_at == jst_day now

  -- `checkDailyTradeLimit`
  unfoldable pub check_daily_trade_limit : ManagerConfig F → Answers F → Check
  check_daily_trade_limit cfg ask = do
    trades ← map_err trades_unavailable (ask.recent_trades 100)
    reject_if (leb_ℤ cfg.max_daily_trades (pos (count_today ask.now trades))) daily_limit_reached

  -- `since < duration`, with the default of five minutes
  abbrev pub min_interval : ManagerConfig F → ℕ
  min_interval cfg = if cfg.min_trade_interval == 0 then 5 * 60 * second else cfg.min_trade_interval

  abbrev pub last_interval : ManagerConfig F → Time → List (Trade F) → Check
  last_interval cfg now [] = pass
  last_interval cfg now (t ∷ ts) =
      reject_if (ltb now (t.executed_at + min_interval cfg)) interval_too_short

  -- `checkTradeInterval`
  unfoldable pub check_trade_interval : ManagerConfig F → Answers F → Check
  check_trade_interval cfg ask = do
    trades ← map_err trades_unavailable (ask.recent_trades 1)
    last_interval cfg ask.now trades

  abbrev pub sum_pnl : F → List (Trade F) → F
  sum_pnl total [] = total
  sum_pnl total (t ∷ ts) = sum_pnl (total ⊕ t.pnl) ts

  abbrev pub latest : List F → Option F
  latest [] = none
  latest (m ∷ ms) = some m

  abbrev pub total_of : List (Trade F) → Option F
  total_of [] = none
  total_of (t ∷ ts) = some (sum_pnl nought (t ∷ ts))

  -- `cumulativePnL`; `none` is `ok == false`
  unfoldable pub cumulative_pnl : ManagerConfig F → Answers F → Result RiskError (Option F)
  cumulative_pnl cfg ask =
      if is_zero cfg.pnl_epoch
      then (map_err metrics_unavailable (ask.total_pnls 30) >>= λ ms. ok (latest ms))
      else (map_err trades_unavailable (ask.trades_since cfg.pnl_epoch) >>= λ ts. ok (total_of ts))

  -- the assets that the loss is measured against
  unfoldable pub loss_base : ManagerConfig F → List (Balance F) → F
  loss_base cfg balances =
      let assets = jpy_available cfg.initial_balance balances in
      if assets ≼ nought then cfg.initial_balance else assets

  -- the last part of `checkTotalLossLimit`, for positive assets only
  abbrev pub check_percent : ManagerConfig F → F → F → Check
  check_percent cfg loss assets =
      if assets ≼ nought
      then pass
      else reject_if (cfg.max_total_loss_percent ≺ loss ⊘ assets ⊗ number 100) total_loss_exceeded

  -- the rest of `checkTotalLossLimit`, once the loss is known
  unfoldable pub check_loss : ManagerConfig F → Answers F → F → Check
  check_loss cfg ask loss =
      if loss ≼ nought
      then pass
      else (map_err balance_unavailable ask.balance_again >>= λ balances.
          check_percent cfg loss (loss_base cfg balances))

  abbrev pub check_measured : ManagerConfig F → Answers F → Option F → Check
  check_measured cfg ask none = pass
  check_measured cfg ask (some pnl) = check_loss cfg ask (fl.neg pnl)

  -- `checkTotalLossLimit`
  unfoldable pub check_total_loss_limit : ManagerConfig F → Answers F → Check
  check_total_loss_limit cfg ask = cumulative_pnl cfg ask >>= check_measured cfg ask

  abbrev positions_below : ℤ → Result Failure (List (Position F)) → Check
  positions_below max (ok ps) = reject_if (leb_ℤ max (pos (length ps))) max_open_positions
  positions_below max (err _) = pass

  abbrev pub check_open :
      ManagerConfig F
      → String
      → Option (String → String → Result Failure (List (Position F)))
      → Check
  check_open cfg symbol none = pass
  check_open cfg symbol (some get) =
      if leb_ℤ cfg.max_open_positions_per_symbol (pos 0)
      then pass
      else positions_below cfg.max_open_positions_per_symbol (get symbol "BUY")

  -- `checkMaxOpenPositions`
  unfoldable pub check_max_open_positions : ManagerConfig F → Answers F → String → Check
  check_max_open_positions cfg ask symbol = check_open cfg symbol ask.open_positions

  -- the checks that only a BUY runs
  unfoldable pub check_buy : ManagerConfig F → Answers F → Signal F → F → Check
  check_buy cfg ask signal jpy = do
    reject_if (jpy ≼ nought) insufficient_jpy
    check_trade_amount cfg signal jpy
    check_max_open_positions cfg ask signal.symbol

  -- the checks that a forced exit passes by
  unfoldable pub check_portfolio : ManagerConfig F → Answers F → Check
  check_portfolio cfg ask = do
    check_daily_trade_limit cfg ask
    check_trade_interval cfg ask
    check_total_loss_limit cfg ask

  -- `CheckRiskManagement`
  unfoldable pub check_risk_management : ManagerConfig F → Answers F → Signal F → Check
  check_risk_management cfg ask signal = do
    balances ← map_err balance_unavailable ask.balance
    let jpy = jpy_available nought balances
    (if str_eq signal.action signal_buy then check_buy cfg ask signal jpy else pass)
    (if is_forced_exit_sell signal then pass else check_portfolio cfg ask)
