-- ===== src/Trading/Refusals.antt =====
-- What the monitoring does with a BUY that the exchange ended before anything was filled.
use gogocoin.Prelude.{
  ◌≡◌, refl, ap, ◌∙◌, true, false, [], ◌∷◌, ◌++◌, List, ok, Bool-cases, inl, inr, str_eq, eq_iff,
  String,
}
use text.Mathlib.TextPositions.{eq_refl}
use gogocoin.Float.{Float, ◌≐◌, nought}
use gogocoin.Domain.{Time, Position, OrderResult, Trade}
use gogocoin.Pnl.{Calculator, effective_size}
use gogocoin.Pnl.Unfilled.{row_of, unfilled_buy_saved}
use gogocoin.Trading.Monitoring.{
  MonitorEffect, MonitorState, refreshed, save_trade_to_db, is_terminal, check_orders,
  check_order_status,
}

not_completed : (status : String) → is_terminal status ≡ true → str_eq status "COMPLETED" ≡ false
not_completed status h = elim (Bool-cases (str_eq status "COMPLETED")) [
  | inl completed ↦ absurd (cc (rw ((eq_iff status "COMPLETED").0 completed) at h))
  | inr other ↦ other
]

module _ {F : Type 0} ⦃fl : Float F⦄ (now : Time) (calculator : Calculator) where
  terminal_saved :
      (order : OrderResult F) (orders : List (OrderResult F)) (s : MonitorState F)
      → order.order_id ≡ s.local.order_id
      → is_terminal order.status ≡ true
      → check_order_status now calculator (ok (order ∷ orders)) s ≡ (
        true,
        (save_trade_to_db now calculator
            (record s { local = refreshed now calculator order s.local })).1,
      )
  unfolding check_order_status check_orders
  terminal_saved order orders s same terminal =
      rw (same, eq_refl s.local.order_id, not_completed order.status terminal, terminal) refl

  effective_of_unfilled :
      (r : OrderResult F) → (r.filled_size ≐ nought) ≡ true → effective_size r ≡ r.size
  effective_of_unfilled r h = rw h refl

  -- A BUY that the exchange has canceled, expired or rejected with nothing filled ends the
  -- monitoring, and if the database works, a new open position of the whole ordered size is stored.
  pub unfilled_buy_opens :
      (order : OrderResult F) (orders : List (OrderResult F)) (r : OrderResult F)
      (ps : List (Position F)) (ts : List (Trade F)) (es : List (MonitorEffect F))
      → calculator.has_db ≡ true
      → r.side ≡ "BUY"
      → order.order_id ≡ r.order_id
      → is_terminal order.status ≡ true
      → (order.filled_size ≐ nought) ≡ true
      → let (over, s) = check_order_status now calculator (ok (order ∷ orders)) (record {
        local = r;
        store = record { positions = ps; trades = ts; faults = [] };
        effects = es;
      }) in
        (over ≡ true)
        × (row : Position F) × (s.store.positions ≡ ps ++ (row ∷ []))
        × (row.status ≡ "OPEN")
        × (row.remaining_size ≡ r.size)
  unfolding save_trade_to_db
  unfilled_buy_opens order orders r ps ts es db buy same terminal unfilled =
      let fresh = refreshed now calculator order r in
      let s : MonitorState F = record {
        local = r;
        store = record { positions = ps; trades = ts; faults = [] };
        effects = es;
      } in
      let e = terminal_saved order orders s same terminal in
      (
        ap (λ x. x.0) e,
        row_of now calculator fresh,
        ap (λ x. x.1.store.positions) e ∙ unfilled_buy_saved now calculator fresh ps ts db buy,
        refl,
        effective_of_unfilled fresh unfilled,
      )
