-- ===== src/Analytics/Updates.antt =====
-- `UpdateMetrics`. What the repositories answer is a record; `sort_trades` is the `sort.Slice` of Go's
-- library with the order by the time of the execution.
use gogocoin.Prelude.{Option, none, some, List, [], ◌∷◌, Result, ok, err, if◌then◌else◌}
use gogocoin.Float.{Float}
use gogocoin.Domain.{Time, is_zero, Trade}
use gogocoin.Risk.{Failure}
use gogocoin.Analytics.{PerformanceMetric, calculate_from_trades}

pub record PerformanceAnalytics (F : Type 0) : Type 0 where
  pub all_trades : Result Failure (List (Trade F))
  pub trades_since : Time → Result Failure (List (Trade F))
  pub save_metric : PerformanceMetric F → Option Failure
  pub initial_balance : F
  pub pnl_epoch : Time

pub data MetricsError : Type 0 where
  trades_unread not_saved : Failure → MetricsError

module _ {F : Type 0} ⦃fl : Float F⦄ (sort_trades : List (Trade F) → List (Trade F))
    (pa : PerformanceAnalytics F) where
  abbrev sorted : Result Failure (List (Trade F)) → Result Failure (List (Trade F))
  sorted (err e) = err e
  sorted (ok ts) = ok (sort_trades ts)

  -- `tradesInScope`
  unfoldable pub trades_in_scope : Result Failure (List (Trade F))
  trades_in_scope =
      if is_zero pa.pnl_epoch then pa.all_trades else sorted (pa.trades_since pa.pnl_epoch)

  abbrev saved :
      PerformanceMetric F → Option Failure → Result MetricsError (Option (PerformanceMetric F))
  saved m none = ok (some m)
  saved m (some e) = err (not_saved e)

  abbrev pub updated :
      Result Failure (List (Trade F)) → Result MetricsError (Option (PerformanceMetric F))
  updated (err e) = err (trades_unread e)
  updated (ok []) = ok none
  updated (ok (t ∷ ts)) =
      let m = calculate_from_trades pa.initial_balance (t ∷ ts) in saved m (pa.save_metric m)

  -- `UpdateMetrics`, with the metric that it stored
  unfoldable pub update_metrics : Result MetricsError (Option (PerformanceMetric F))
  update_metrics = updated trades_in_scope
