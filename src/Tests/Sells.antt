-- ===== src/Tests/Sells.antt =====
-- Sells, transactions and their bookkeeping.
use mathlib.Core.List.{Permᴰ}
use gogocoin.Prelude.{
  List, none, some, ok, ltb, Bool-cases, inl, inr, ◌≡◌, refl, true, false, [], ◌∷◌, All, Result,
  if◌then◌else◌,
}
use gogocoin.Prelude.Int.{ℤ, pos, ◌+ℤ◌, ◌-ℤ◌, ◌*ℤ◌, neg_ℤ, ltb_ℤ}
use gogocoin.Float.Exact.{exact_float, exact-IsIeee}
use gogocoin.Domain.{Trade, Position}
use gogocoin.Persistence.{Store, DbError, driver, save_trade, with_transaction}
use gogocoin.Persistence.Atomic.{SameTables, with_transaction-SameTables}
use gogocoin.Pnl.{
  Calculator, name_or_unknown, trade_of, match_positions, sell_data, calculate_and_save,
  effective_price, consume,
}
use gogocoin.Pnl.Fifo.{IsHolding, InOrder, match_positions-InOrder}
use gogocoin.Pnl.Exact.{
  taken_size, taken_cost, IsBalanced, match_positions-conserves, sell_data-pnl,
}
use gogocoin.Pnl.Saving.{Outcome, calculate_and_save-Outcome}
use gogocoin.Analytics.{PerformanceMetric, calculate_from_trades, pnl_of}
use gogocoin.Analytics.Totals.{sum_of}
use gogocoin.Analytics.Updates.{PerformanceAnalytics, update_metrics, trades_in_scope}
use gogocoin.Analytics.Agreement.{legacy_fees, update_metrics-cumulative_pnl}
use gogocoin.Risk.{ManagerConfig, Answers, cumulative_pnl}
use gogocoin.Tests.Data.{config, answers, two_lots, fill, store_with}

abbrev write : Store ℤ → Result DbError (Unit {0}) × Store ℤ
write = save_trade 9 (trade_of (fill "SELL" (pos 4) (pos 120)) "scalping" (pos 68))

-- the commit fails
abbrev failing : Store ℤ
failing = store_with (false ∷ (false ∷ (true ∷ [])))

with_transaction-SameTables_example : SameTables (with_transaction (λ e. e) write failing).1 failing
unfolding with_transaction save_trade
with_transaction-SameTables_example =
    with_transaction-SameTables (λ e. e) write failing {e = driver} refl

abbrev holding : All (λ (p : Position ℤ). IsHolding p) two_lots
holding = (
  record { remaining_finite = (refl, refl); remaining_nonneg = refl },
  (record { remaining_finite = (refl, refl); remaining_nonneg = refl }, tt),
)

match_positions-InOrder_example :
    let m = match_positions (pos 120) (pos 4) (pos 0) two_lots in
    InOrder (pos 120) m.unmatched two_lots m.touched
match_positions-InOrder_example =
    match_positions-InOrder exact-IsIeee (pos 120) (pos 4) (pos 0) two_lots (refl, refl) holding

match_positions-conserves_example :
    let m = match_positions (pos 120) (pos 4) (pos 0) two_lots in
    (m.unmatched +ℤ taken_size two_lots m.touched ≡ pos 4)
    × (m.cost ≡ pos 0 +ℤ taken_cost two_lots m.touched)
    × IsBalanced two_lots m.touched
match_positions-conserves_example = match_positions-conserves (pos 120) (pos 4) (pos 0) two_lots

sell_data-pnl_example :
    let r = fill "SELL" (pos 4) (pos 120) in
    let d = sell_data r two_lots in
    let size = taken_size two_lots d.positions in
    d.pnl ≡ (
      if ltb_ℤ (pos 0) size
      then effective_price r *ℤ size -ℤ taken_cost two_lots d.positions -ℤ r.fee
      else neg_ℤ r.fee)
sell_data-pnl_example = sell_data-pnl (fill "SELL" (pos 4) (pos 120)) two_lots

-- three at an entry price of 100 and one at 110 are sold at 120 each
sold_four : (sell_data (fill "SELL" (pos 4) (pos 120)) two_lots).pnl ≡ pos 68
unfolding sell_data match_positions consume ◌-ℤ◌ ◌*ℤ◌ ◌+ℤ◌
sold_four = refl

abbrev calculator : Calculator
calculator = record { has_db = true; strategy_name = "scalping" }

calculate_and_save-Outcome_example :
    Outcome
      (fill "SELL" (pos 4) (pos 120))
      (name_or_unknown calculator)
      []
      (calculate_and_save 9 calculator (fill "SELL" (pos 4) (pos 120)) failing)
calculate_and_save-Outcome_example =
    calculate_and_save-Outcome 9 calculator (fill "SELL" (pos 4) (pos 120)) failing refl

abbrev booked_trades : List (Trade ℤ)
booked_trades =
    trade_of (fill "SELL" (pos 4) (pos 120)) "scalping" (pos 68)
    ∷ (trade_of (fill "BUY" (pos 1) (pos 120)) "scalping" (pos 0) ∷ [])

-- an insertion sort by the time of the execution
abbrev insert : Trade ℤ → List (Trade ℤ) → List (Trade ℤ)
insert t [] = t ∷ []
insert t (u ∷ us) =
    let rest = insert t us in if ltb u.executed_at t.executed_at then u ∷ rest else t ∷ (u ∷ us)

abbrev sort_by_time : List (Trade ℤ) → List (Trade ℤ)
sort_by_time [] = []
sort_by_time (t ∷ ts) = insert t (sort_by_time ts)

unchanged : (ts : List (Trade ℤ)) → Permᴰ ts ts
unchanged [] = Permᴰ.nil
unchanged (t ∷ ts) = Permᴰ.cons refl (unchanged ts)

insert-Permᴰ : (t : Trade ℤ) (us : List (Trade ℤ)) → Permᴰ (insert t us) (t ∷ us)
insert-Permᴰ t [] = unchanged (t ∷ [])
insert-Permᴰ t (u ∷ us) = elim (Bool-cases (ltb u.executed_at t.executed_at)) [
  | inl later ↦ rw later (Permᴰ.trans (Permᴰ.cons refl (insert-Permᴰ t us)) (Permᴰ.swap refl refl))
  | inr earlier ↦ rw earlier (unchanged (t ∷ (u ∷ us)))
]

sort_by_time-Permᴰ : (ts : List (Trade ℤ)) → Permᴰ (sort_by_time ts) ts
sort_by_time-Permᴰ [] = Permᴰ.nil
sort_by_time-Permᴰ (t ∷ ts) =
    Permᴰ.trans (insert-Permᴰ t (sort_by_time ts)) (Permᴰ.cons refl (sort_by_time-Permᴰ ts))

abbrev analytics : PerformanceAnalytics ℤ
analytics = record {
  all_trades = ok [];
  trades_since = λ since. ok booked_trades;
  save_metric = λ m. none;
  initial_balance = pos 1000;
  pnl_epoch = 3;
}

abbrev since_epoch : ManagerConfig ℤ
since_epoch = record (config (pos 10)) { pnl_epoch = 3 }

abbrev booked_answers : Answers ℤ
booked_answers = record answers { trades_since = λ since. ok booked_trades }

abbrev stored_metric : PerformanceMetric ℤ
stored_metric = calculate_from_trades (pos 1000) (sort_by_time booked_trades)

update_metrics-cumulative_pnl_example :
    cumulative_pnl since_epoch booked_answers
    ≡ ok (some (stored_metric.total_pnl +ℤ legacy_fees booked_trades))
unfolding update_metrics trades_in_scope
update_metrics-cumulative_pnl_example =
    update_metrics-cumulative_pnl sort_by_time sort_by_time-Permᴰ analytics since_epoch
      booked_answers booked_trades stored_metric refl refl refl refl refl

-- the BUY was stored without a PnL, so its fee of 2 counts
booked_total : sum_of booked_trades ≡ pos 66
unfolding pnl_of ◌+ℤ◌ neg_ℤ
booked_total = refl
