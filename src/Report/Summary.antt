-- ===== src/Report/Summary.antt =====
-- `ComputeSummary`. The map `ExitReasons`, which counts the trades of each reason once more, is left
-- out. `hours` and `month_of` are `Duration.Hours` and the year and the month of `Time.Date`.
use gogocoin.Prelude.{ℕ, suc, ◌||◌, ◌&&◌, List, [], ◌∷◌, length, ltb, ◌==◌, if◌then◌else◌}
use gogocoin.Prelude.Int.{ℤ, pos, ◌-ℤ◌}
use gogocoin.Float.{Float, ◌⊕◌, ◌⊖◌, ◌⊗◌, ◌⊘◌, ◌≺◌, nought, number}
use gogocoin.Domain.{Time, zero_time, is_zero}
use gogocoin.Backtest.{Trade, EquityPoint, ExitReason, RunResult}
use gogocoin.Report.Ratios.{equity_returns, annualised_sharpe, annualised_sortino}

pub record MonthlyPnl (F : Type 0) : Type 0 where
  pub year : ℕ
  pub month : ℕ
  pub pnl : F

pub record Summary (F : Type 0) : Type 0 where
  pub total_trades : ℕ
  pub wins : ℕ
  pub losses : ℕ
  pub win_rate : F
  pub gross_profit : F
  pub gross_loss : F
  pub net_pnl : F
  pub avg_pnl : F
  pub best_trade : F
  pub worst_trade : F
  pub profit_factor : F
  pub total_fees : F
  pub total_slippage : F
  pub max_drawdown : F
  pub max_drawdown_abs : F
  pub max_drawdown_at : Time
  pub sharpe_annualised : F
  pub sortino : F
  pub tp_hits : ℕ
  pub sl_hits : ℕ
  pub signal_exits : ℕ
  pub eod_exits : ℕ
  pub days : F
  pub return_pct : F
  pub monthly_pnl : List (MonthlyPnl F)

module _ {F : Type 0} ⦃fl : Float F⦄ where
  abbrev pub zero_summary : Summary F
  zero_summary = record {
    total_trades = 0;
    wins = 0;
    losses = 0;
    win_rate = nought;
    gross_profit = nought;
    gross_loss = nought;
    net_pnl = nought;
    avg_pnl = nought;
    best_trade = nought;
    worst_trade = nought;
    profit_factor = nought;
    total_fees = nought;
    total_slippage = nought;
    max_drawdown = nought;
    max_drawdown_abs = nought;
    max_drawdown_at = zero_time;
    sharpe_annualised = nought;
    sortino = nought;
    tp_hits = 0;
    sl_hits = 0;
    signal_exits = 0;
    eod_exits = 0;
    days = nought;
    return_pct = nought;
    monthly_pnl = [];
  }

  abbrev pub count_reason : ExitReason → Summary F → Summary F
  count_reason ExitReason.tp s = record s { tp_hits = suc s.tp_hits }
  count_reason ExitReason.sl s = record s { sl_hits = suc s.sl_hits }
  count_reason ExitReason.signal s = record s { signal_exits = suc s.signal_exits }
  count_reason ExitReason.eod s = record s { eod_exits = suc s.eod_exits }

  abbrev pub count_win : F → Summary F → Summary F
  count_win pnl s =
      if nought ≺ pnl
      then record s { wins = suc s.wins; gross_profit = s.gross_profit ⊕ pnl }
      else record s { losses = suc s.losses; gross_loss = s.gross_loss ⊕ fl.neg pnl }

  -- the body of the loop over the trades
  unfoldable pub count_trade : Summary F → Trade F → Summary F
  count_trade s t = count_win t.net_pnl (
      count_reason t.reason (record s {
        total_trades = suc s.total_trades;
        net_pnl = s.net_pnl ⊕ t.net_pnl;
        total_fees = s.total_fees ⊕ t.fee;
        total_slippage = s.total_slippage ⊕ t.slippage;
        best_trade = if s.best_trade ≺ t.net_pnl then t.net_pnl else s.best_trade;
        worst_trade = if t.net_pnl ≺ s.worst_trade then t.net_pnl else s.worst_trade;
      }))

  abbrev pub count_trades : Summary F → List (Trade F) → Summary F
  count_trades s [] = s
  count_trades s (t ∷ ts) = count_trades (count_trade s t) ts

  -- the loop over the equity curve
  abbrev pub drawdowns : Summary F → List (EquityPoint F) → Summary F
  drawdowns s [] = s
  drawdowns s (p ∷ ps) =
      let rest = number 1 ⊕ p.drawdown in
      drawdowns
        (if p.drawdown ≺ s.max_drawdown
          then record s {
            max_drawdown = p.drawdown;
            max_drawdown_abs =
                if nought ≺ rest then p.equity ⊗ p.drawdown ⊘ rest else s.max_drawdown_abs;
            max_drawdown_at = p.timestamp;
          }
          else s)
        ps

  module _ (hours : ℤ → F) (month_of : Time → ℕ × ℕ) where
    -- a trade in the months, which are kept in order
    abbrev add_month : ℕ → ℕ → F → List (MonthlyPnl F) → List (MonthlyPnl F)
    add_month year month pnl [] = record { year = year; month = month; pnl = nought ⊕ pnl } ∷ []
    add_month year month pnl (m ∷ ms) =
        let rest = add_month year month pnl ms in
        if (m.year == year) && (m.month == month)
        then record m { pnl = m.pnl ⊕ pnl } ∷ ms
        else if ltb year m.year || ((m.year == year) && ltb month m.month)
        then record { year = year; month = month; pnl = nought ⊕ pnl } ∷ (m ∷ ms)
        else m ∷ rest

    abbrev months : List (MonthlyPnl F) → List (Trade F) → List (MonthlyPnl F)
    months ms [] = ms
    months ms (t ∷ ts) =
        let (year, month) = month_of t.exit_time in months (add_month year month t.net_pnl ms) ts

    abbrev days_of : RunResult F → F
    days_of r =
        if is_zero r.start_time || is_zero r.end_time
        then nought
        else hours (pos r.end_time -ℤ pos r.start_time) ⊘ number 24

    -- the figures that follow from the totals
    abbrev pub with_ratios : RunResult F → Summary F → Summary F
    with_ratios r s = record s {
      win_rate =
          if ltb 0 s.total_trades
          then fl.of_int (pos s.wins) ⊘ fl.of_int (pos s.total_trades) ⊗ number 100
          else s.win_rate;
      avg_pnl =
          if ltb 0 s.total_trades then s.net_pnl ⊘ fl.of_int (pos s.total_trades) else s.avg_pnl;
      profit_factor =
          if nought ≺ s.gross_loss
          then s.gross_profit ⊘ s.gross_loss
          else if nought ≺ s.gross_profit
          then fl.infinity
          else s.profit_factor;
      return_pct =
          if nought ≺ r.initial_cash
          then (r.final_equity ⊖ r.initial_cash) ⊘ r.initial_cash ⊗ number 100
          else s.return_pct;
      days = days_of r;
    }

    abbrev pub with_returns : RunResult F → Summary F → Summary F
    with_returns r s =
        let rets = equity_returns r.equity in
        if ltb 2 (length r.equity)
        then record s {
          sharpe_annualised = annualised_sharpe rets (length r.equity) s.days;
          sortino = annualised_sortino rets (length r.equity) s.days;
        }
        else s

    -- `ComputeSummary`
    unfoldable pub compute_summary : RunResult F → Summary F
    compute_summary r =
        let counted = with_ratios r (count_trades zero_summary r.trades) in
        let s = with_returns r (drawdowns counted r.equity) in
        record s { monthly_pnl = months [] r.trades }
