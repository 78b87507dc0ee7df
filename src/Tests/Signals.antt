-- ===== src/Tests/Signals.antt =====
-- Signals: risk checks, orders, scaling.
use gogocoin.Prelude.{◌≡◌, ◌≢◌, refl, true, false, some, [], ◌∷◌, List, ok, err, All, ◌⊎◌, arith}
use gogocoin.Prelude.Int.{ℤ, pos, ◌*ℤ◌, ◌+ℤ◌, ◌/ℤ◌, neg_ℤ}
use gogocoin.Float.{◌≺◌, ◌≼◌, nought}
use gogocoin.Float.Exact.{exact_float, exact-IsIeee}
use gogocoin.Domain.{Balance, Trade}
use gogocoin.Risk.{failure, check_risk_management}
use gogocoin.Risk.{
  check_daily_trade_limit, daily_limit_reached, check_buy, check_portfolio,
  check_max_open_positions, check_trade_interval, check_total_loss_limit, check_trade_amount,
  cumulative_pnl, check_loss, is_forced_exit_sell,
}
use gogocoin.Risk.Checks.{IsApproved, check_risk_management-IsApproved, daily_limit_unreachable}
use gogocoin.Worker.{
  SignalWorker, close_positions, process_signal, compute_scaled_notional, affordable,
  open_position_size, base_currency,
}
use gogocoin.Worker.Orders.{OnOrder, IsCleared, process_signal-IsCleared}
use gogocoin.Worker.Scaling.{compute_scaled_notional_bounds}
use gogocoin.Worker.Ghosts.{unreadable_balance_closes, unreadable_positions_close}
use gogocoin.Tests.Data.{answers, buy, config, scaling, sell, wallet, worker}

approved : check_risk_management (config (pos 10)) answers buy ≡ ok tt
unfolding check_risk_management check_buy check_trade_amount ◌/ℤ◌ ◌*ℤ◌ ◌+ℤ◌ check_max_open_positions
    is_forced_exit_sell check_portfolio check_daily_trade_limit check_trade_interval
    check_total_loss_limit cumulative_pnl check_loss neg_ℤ
approved = refl

check_risk_management-IsApproved_example :
    (bs : List (Balance ℤ)) × (day : List (Trade ℤ)) × (last : List (Trade ℤ)) × (answers.balance
      ≡ ok bs)
    × (answers.recent_trades 100 ≡ ok day)
    × (answers.recent_trades 1 ≡ ok last)
    × IsApproved (config (pos 10)) answers buy bs day last
check_risk_management-IsApproved_example =
    check_risk_management-IsApproved (config (pos 10)) answers buy refl approved

daily_limit_unreachable_example :
    check_daily_trade_limit (config (pos 200)) answers ≢ err daily_limit_reached
daily_limit_unreachable_example =
    daily_limit_unreachable (config (pos 200)) answers (λ ts e. ground arith) (ground arith)

process_signal-IsCleared_example :
    All
      (OnOrder
        (config (pos 10))
        answers
        worker
        buy
        (IsCleared (config (pos 10)) answers worker buy))
      (process_signal worker buy)
process_signal-IsCleared_example =
    process_signal-IsCleared (config (pos 10)) answers worker buy refl

compute_scaled_notional_bounds_example :
    let n = compute_scaled_notional (pos 200) (pos 10_000) scaling in
    (n ≡ nought)
    ⊎ (((n ≺ nought) ≡ false)
        × ((n ≼ affordable (pos 10_000) scaling) ≡ true)
        × (((nought ≺ scaling.max_notional) ≡ false) ⊎ ((n ≼ scaling.max_notional) ≡ true)))
compute_scaled_notional_bounds_example =
    compute_scaled_notional_bounds exact-IsIeee (pos 200) (pos 10_000) scaling (refl, refl)
      (refl, refl) (refl, refl)

abbrev unread : SignalWorker ℤ
unread = record worker { balance = err failure }

passed : unread.risk_checker sell ≡ ok tt
unfolding check_risk_management check_buy check_trade_amount ◌/ℤ◌ ◌*ℤ◌ ◌+ℤ◌ check_max_open_positions
    is_forced_exit_sell check_portfolio check_daily_trade_limit check_trade_interval
    check_total_loss_limit cumulative_pnl check_loss neg_ℤ
passed = refl

unreadable_balance_closes_example :
    process_signal unread sell ≡ close_positions "BTC_JPY" "BUY" ∷ []
unreadable_balance_closes_example =
    unreadable_balance_closes exact-IsIeee unread sell refl refl passed refl refl

abbrev shared : SignalWorker ℤ
shared = record worker { shared_wallet = true; position_reader = some (λ s side. err failure) }

unreadable_positions_close_example :
    process_signal shared sell ≡ close_positions "BTC_JPY" "BUY" ∷ []
unfolding open_position_size base_currency
unreadable_positions_close_example =
    unreadable_positions_close exact-IsIeee shared sell {bs = wallet} {available = pos 4} refl refl
      passed refl refl refl refl refl
