-- ===== src/Tests/Watching.antt =====
-- Monitoring orders.
use gogocoin.Prelude.{◌≡◌, refl, true, [], ◌∷◌, ◌++◌, List, ok, err}
use gogocoin.Prelude.Int.{ℤ, pos}
use gogocoin.Float.Exact.{exact_float}
use gogocoin.Domain.{Position, OrderResult}
use gogocoin.Pnl.{Calculator}
use gogocoin.Trading.{
  Event, ticked, other_failure, MonitorState, monitor_execution, check_order_status,
}
use gogocoin.Trading.Monitored.{IsMonitored, monitor_execution-IsMonitored}
use gogocoin.Trading.Refusals.{unfilled_buy_opens}
use gogocoin.Tests.Data.{fill, two_lots, store_with}

abbrev calculator : Calculator
calculator = record { has_db = true; strategy_name = "scalping" }

-- an order as it is when it was just placed
abbrev active : OrderResult ℤ
active = record (fill "BUY" (pos 4) (pos 100)) {
  status = "ACTIVE";
  filled_size = pos 0;
  remaining_size = pos 4;
  average_price = pos 0;
}

abbrev watched : MonitorState ℤ
watched = record { local = active; store = store_with []; effects = [] }

abbrev events : List (Event ℤ)
events =
    ticked (err other_failure)
    ∷ (ticked (ok (active ∷ [])) ∷ (ticked (ok (fill "BUY" (pos 4) (pos 101) ∷ [])) ∷ []))

monitor_execution-IsMonitored_example :
    IsMonitored 9 calculator watched (monitor_execution 9 calculator events watched)
monitor_execution-IsMonitored_example = monitor_execution-IsMonitored 9 calculator watched events

abbrev rejected : OrderResult ℤ
rejected = record active { status = "REJECTED" }

unfilled_buy_opens_example :
    let (over, s) = check_order_status 9 calculator (ok (rejected ∷ [])) watched in
    (over ≡ true)
    × (row : Position ℤ) × (s.store.positions ≡ two_lots ++ (row ∷ []))
    × (row.status ≡ "OPEN")
    × (row.remaining_size ≡ pos 4)
unfilled_buy_opens_example =
    unfilled_buy_opens 9 calculator rejected [] active two_lots [] [] refl refl refl refl refl
