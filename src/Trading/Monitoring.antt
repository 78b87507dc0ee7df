-- ===== src/Trading/Monitoring.antt =====
-- internal/usecase/trading/monitor/order_monitor.go. The `select` of `MonitorExecution` is a list of
-- events, each with the answer of the exchange to the call that it leads to. `CalculateAndSave` runs
-- on the store of the state; the other calls are a list of effects. The calculator, the balance
-- updater and the callback are not nil, and the clock is the constant `now`.
use gogocoin.Prelude.{
  String, Bool, true, false, ◌||◌, Option, List, [], ◌∷◌, ◌++◌, Result, ok, err, if◌then◌else◌,
  str_eq,
}
use gogocoin.Float.{Float}
use gogocoin.Domain.{Time, OrderResult}
use gogocoin.Persistence.{Store}
use gogocoin.Pnl.{Calculator, PnlError, calculate_and_save}

pub data FetchError : Type 0 where
  authentication_failed other_failure : FetchError

abbrev pub Fetched : Type 0 → Type 0
Fetched F = Result FetchError (List (OrderResult F))

-- a branch of the `select`, with what `GetOrdersBySymbol` answers
pub data Event (F : Type 0) : Type 0 where
  ticked canceled timed_out : Fetched F → Event F

pub data MonitorEffect (F : Type 0) : Type 0 where
  booked : OrderResult F → MonitorEffect F
  balance_cache_invalidated balance_stored : MonitorEffect F
  order_completed : OrderResult F → MonitorEffect F

-- the local copy of the result, the store, and the calls so far
pub record MonitorState (F : Type 0) : Type 0 where
  pub local : OrderResult F
  pub store : Store F
  pub effects : List (MonitorEffect F)

abbrev pub is_terminal : String → Bool
is_terminal status =
    str_eq status "CANCELED" || (str_eq status "EXPIRED" || str_eq status "REJECTED")

module _ {F : Type 0} ⦃fl : Float F⦄ (now : Time) (calculator : Calculator) where
  -- the fields that both loops copy from the order
  abbrev pub refreshed : OrderResult F → OrderResult F → OrderResult F
  refreshed order local = record local {
    status = order.status;
    filled_size = order.filled_size;
    remaining_size = order.remaining_size;
    average_price = order.average_price;
    total_commission = order.total_commission;
    fee = order.fee;
    updated_at = now;
  }

  -- `saveTradeToDB`
  unfoldable pub save_trade_to_db : MonitorState F → Option PnlError × MonitorState F
  save_trade_to_db s =
      let ((_, e), store) = calculate_and_save now calculator s.local s.store in
      (e, record s { store = store; effects = s.effects ++ (booked s.local ∷ []) })

  -- what follows on a completed order, whether it was saved or not
  abbrev pub announced : MonitorState F → MonitorState F
  announced s = record s {
    effects =
        s.effects
        ++ (balance_cache_invalidated ∷ (balance_stored ∷ (order_completed s.local ∷ [])));
  }

  -- the loop of `checkOrderStatus`: is the monitoring over?
  unfoldable pub check_orders : List (OrderResult F) → MonitorState F → Bool × MonitorState F
  check_orders [] s = (false, s)
  check_orders (order ∷ orders) s =
      let fresh = record s { local = refreshed order s.local } in
      let passed = check_orders orders s in
      let noted = check_orders orders fresh in
      if str_eq order.order_id s.local.order_id
      then (if str_eq order.status "COMPLETED"
          then (true, announced (save_trade_to_db fresh).1)
          else if is_terminal order.status
          then (true, (save_trade_to_db fresh).1)
          else noted)
      else passed

  -- `checkOrderStatus`
  unfoldable pub check_order_status : Fetched F → MonitorState F → Bool × MonitorState F
  check_order_status (ok orders) s = check_orders orders s
  check_order_status (err other_failure) s = (false, s)
  check_order_status (err authentication_failed) s =
      let unknown = record (s.local) { status = "UNKNOWN_AUTH_ERROR"; updated_at = now } in
      (true, (save_trade_to_db (record s { local = unknown })).1)

  -- the loop of `saveFinalOrderState`, then the save; an order that is not found is not saved
  unfoldable pub save_found : List (OrderResult F) → MonitorState F → MonitorState F
  save_found [] s = s
  save_found (order ∷ orders) s =
      let rest = save_found orders s in
      if str_eq order.order_id s.local.order_id
      then (save_trade_to_db (record s { local = refreshed order s.local })).1
      else rest

  -- `saveFinalOrderState`; its error is only logged
  unfoldable pub save_final_order_state : Fetched F → MonitorState F → MonitorState F
  save_final_order_state (ok orders) s = save_found orders s
  save_final_order_state (err _) s = (save_trade_to_db s).1

  -- the loop of `MonitorExecution`: has it returned, and the state
  unfoldable pub monitor_execution : List (Event F) → MonitorState F → Bool × MonitorState F
  monitor_execution [] s = (false, s)
  monitor_execution (canceled answer ∷ events) s = (true, save_final_order_state answer s)
  monitor_execution (timed_out answer ∷ events) s = (true, save_final_order_state answer s)
  monitor_execution (ticked answer ∷ events) s =
      let (over, s') = check_order_status answer s in
      let rest = monitor_execution events s' in if over then (true, s') else rest
