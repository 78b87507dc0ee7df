-- ===== src/Analytics.antt =====
-- internal/usecase/analytics/performance.go: the statistics over the stored trades. The date of a
-- metric is left out.
pub mod Totals
pub mod Updates
pub mod Agreement
use gogocoin.Prelude.{
  ℕ, ◌+◌, ◌-◌, String, Bool, ◌&&◌, List, [], ◌∷◌, ltb, if◌then◌else◌, str_eq, length,
}
use gogocoin.Prelude.Int.{pos}
use gogocoin.Float.{Float, ◌⊕◌, ◌⊖◌, ◌⊗◌, ◌⊘◌, ◌≺◌, ◌≐◌, nought, number}
use gogocoin.Domain.{Trade}

pub record PerformanceMetric (F : Type 0) : Type 0 where
  pub total_return : F
  pub total_pnl : F
  pub win_rate : F
  pub max_drawdown : F
  pub sharpe_ratio : F
  pub profit_factor : F
  pub total_trades : ℕ
  pub winning_trades : ℕ
  pub losing_trades : ℕ
  pub average_win : F
  pub average_loss : F
  pub largest_win : F
  pub largest_loss : F

-- the variables of the loop of `CalculateFromTrades`
pub record Tally (F : Type 0) : Type 0 where
  pub total_pnl : F
  pub winning_trades : ℕ
  pub losing_trades : ℕ
  pub total_win : F
  pub total_loss : F
  pub max_win : F
  pub max_loss : F

module _ {F : Type 0} ⦃fl : Float F⦄ where
  abbrev pub empty_tally : Tally F
  empty_tally = record {
    total_pnl = nought;
    winning_trades = 0;
    losing_trades = 0;
    total_win = nought;
    total_loss = nought;
    max_win = nought;
    max_loss = nought;
  }

  -- the stored PnL, or minus the fee for a BUY that was stored without one
  unfoldable pub pnl_of : Trade F → F
  pnl_of t =
      if (t.pnl ≐ nought) && (str_eq t.side "BUY" && nought ≺ t.fee) then fl.neg t.fee else t.pnl

  abbrev pub greater : F → F → F
  greater m x = if m ≺ x then x else m

  -- the loop's body, for the PnL of a trade
  unfoldable pub counted : F → Tally F → Tally F
  counted pnl tally =
      let summed = record tally { total_pnl = tally.total_pnl ⊕ pnl } in
      if fl.lit 1 100 ≺ pnl
      then record summed {
        winning_trades = tally.winning_trades + 1;
        total_win = tally.total_win ⊕ pnl;
        max_win = greater tally.max_win pnl;
      }
      else if pnl ≺ fl.neg (fl.lit 1 100)
      then record summed {
        losing_trades = tally.losing_trades + 1;
        total_loss = tally.total_loss ⊕ fl.neg pnl;
        max_loss = greater tally.max_loss (fl.neg pnl);
      }
      else summed

  unfoldable pub tally_trades : List (Trade F) → Tally F → Tally F
  tally_trades [] tally = tally
  tally_trades (t ∷ ts) tally = tally_trades ts (counted (pnl_of t) tally)

  abbrev pub square_sum : F → List (Trade F) → F → F → F
  square_sum initial [] mean acc = acc
  square_sum initial (t ∷ ts) mean acc =
      let d = pnl_of t ⊘ initial ⊗ number 100 ⊖ mean in square_sum initial ts mean (acc ⊕ d ⊗ d)

  -- `calculateSharpeRatio` of the returns of the trades
  unfoldable pub calculate_sharpe_ratio : F → List (Trade F) → F → F
  calculate_sharpe_ratio initial trades total_return =
      let n = length trades in
      let mean = total_return ⊘ fl.of_int (pos n) in
      let deviation = fl.sqrt (square_sum initial trades mean nought ⊘ fl.of_int (pos (n - 1))) in
      if ltb 1 n then (if nought ≺ deviation then mean ⊘ deviation else nought) else nought

  -- the loop of `calculateMaxDrawdown`
  unfoldable pub drawdown_loop : F → List (Trade F) → F → F → F → F
  drawdown_loop initial [] worst peak running = worst
  drawdown_loop initial (t ∷ ts) worst peak running =
      let running' = running ⊕ pnl_of t in
      let peak' = greater peak running' in
      drawdown_loop initial ts (greater worst ((peak' ⊖ running') ⊘ initial ⊗ number 100)) peak'
        running'

  -- `calculateMaxDrawdown`
  unfoldable pub calculate_max_drawdown : F → List (Trade F) → F
  calculate_max_drawdown initial trades = drawdown_loop initial trades nought nought nought

  abbrev pub mean_of : F → ℕ → F
  mean_of total n = if ltb 0 n then total ⊘ fl.of_int (pos n) else nought

  abbrev pub metric_of : F → List (Trade F) → Tally F → PerformanceMetric F
  metric_of initial trades tally =
      let decided = tally.winning_trades + tally.losing_trades in
      let returned = tally.total_pnl ⊘ initial ⊗ number 100 in
      record {
        total_return = returned;
        total_pnl = tally.total_pnl;
        win_rate =
            if ltb 0 decided
            then fl.of_int (pos tally.winning_trades) ⊘ fl.of_int (pos decided) ⊗ number 100
            else nought;
        max_drawdown = calculate_max_drawdown initial trades;
        sharpe_ratio = calculate_sharpe_ratio initial trades returned;
        profit_factor =
            if nought ≺ tally.total_loss then tally.total_win ⊘ tally.total_loss else nought;
        total_trades = length trades;
        winning_trades = tally.winning_trades;
        losing_trades = tally.losing_trades;
        average_win = mean_of tally.total_win tally.winning_trades;
        average_loss = mean_of tally.total_loss tally.losing_trades;
        largest_win = tally.max_win;
        largest_loss = tally.max_loss;
      }

  abbrev pub empty_metric : PerformanceMetric F
  empty_metric = record {
    total_return = nought;
    total_pnl = nought;
    win_rate = nought;
    max_drawdown = nought;
    sharpe_ratio = nought;
    profit_factor = nought;
    total_trades = 0;
    winning_trades = 0;
    losing_trades = 0;
    average_win = nought;
    average_loss = nought;
    largest_win = nought;
    largest_loss = nought;
  }

  -- `CalculateFromTrades`
  unfoldable pub calculate_from_trades : F → List (Trade F) → PerformanceMetric F
  calculate_from_trades initial [] = empty_metric
  calculate_from_trades initial (t ∷ ts) =
      metric_of initial (t ∷ ts) (tally_trades (t ∷ ts) empty_tally)
