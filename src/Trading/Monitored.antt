-- ===== src/Trading/Monitored.antt =====
-- What the monitoring of an order books, and when.
use gogocoin.Prelude.{
  ◌≡◌, refl, ap, Bool, true, false, ◌⊎◌, inl, inr, List, [], ◌∷◌, ◌++◌, ok, err, Bool-cases, str_eq,
  eq_iff, if◌then◌else◌,
}
use gogocoin.Float.{Float}
use gogocoin.Domain.{Time, OrderResult}
use gogocoin.Pnl.{Calculator, calculate_and_save}
use gogocoin.Trading.Monitoring.{
  authentication_failed, other_failure, Fetched, Event, ticked, canceled, timed_out, booked,
  balance_cache_invalidated, balance_stored, order_completed, MonitorState, refreshed,
  save_trade_to_db, announced, is_terminal, check_orders, check_order_status, save_found,
  save_final_order_state, monitor_execution,
}

module _ {F : Type 0} ⦃fl : Float F⦄ (now : Time) (calculator : Calculator)
    (start : MonitorState F) where
  -- the same order as at the start
  pub record IsSame (r : OrderResult F) : Type 0 where
    pub same_id : r.order_id ≡ start.local.order_id
    pub same_symbol : r.symbol ≡ start.local.symbol
    pub same_side : r.side ≡ start.local.side
    pub same_size : r.size ≡ start.local.size

  -- nothing was booked
  abbrev pub IsUntouched : MonitorState F → Type 0
  IsUntouched s = (s.store ≡ start.store) × (s.effects ≡ start.effects)

  -- the order was booked once, with its data of the end
  abbrev pub IsBooked : MonitorState F → Type 0
  IsBooked s =
      (s.store ≡ (calculate_and_save now calculator s.local start.store).1)
      × ((s.effects ≡ start.effects ++ (booked s.local ∷ []))
          ⊎ ((s.local.status ≡ "COMPLETED")
              × (s.effects
                  ≡ (start.effects ++ (booked s.local ∷ []))
                    ++ (balance_cache_invalidated
                        ∷ (balance_stored ∷ (order_completed s.local ∷ []))))))

  abbrev pub IsMonitored : Bool × MonitorState F → Type 0
  IsMonitored (over, s) = IsSame s.local × (IsUntouched s ⊎ ((over ≡ true) × IsBooked s))

  saved :
      (s : MonitorState F)
      → IsSame s.local
      → IsUntouched s
      → IsMonitored (true, (save_trade_to_db now calculator s).1)
  unfolding save_trade_to_db
  saved s same (store, effects) = (
    same,
    inr (
      refl,
      (
        ap (λ x. (calculate_and_save now calculator s.local x).1) store,
        inl (ap (λ x. x ++ (booked s.local ∷ [])) effects),
      ),
    ),
  )

  saved_completed :
      (s : MonitorState F)
      → IsSame s.local
      → IsUntouched s
      → s.local.status ≡ "COMPLETED"
      → IsMonitored (true, announced now calculator (save_trade_to_db now calculator s).1)
  unfolding save_trade_to_db
  saved_completed s same (store, effects) completed = (
    same,
    inr (
      refl,
      (
        ap (λ x. (calculate_and_save now calculator s.local x).1) store,
        inr (
          completed,
          ap
              (λ x.
                (x ++ (booked s.local ∷ []))
                ++ (balance_cache_invalidated ∷ (balance_stored ∷ (order_completed s.local ∷ []))))
              effects,
        ),
      ),
    ),
  )

  refreshed-IsSame :
      (order r : OrderResult F) → IsSame r → IsSame (refreshed now calculator order r)
  refreshed-IsSame order r same = record {
    same_id = same.same_id;
    same_symbol = same.same_symbol;
    same_side = same.same_side;
    same_size = same.same_size;
  }

  check_orders-IsMonitored :
      (orders : List (OrderResult F)) (s : MonitorState F)
      → IsSame s.local
      → IsUntouched s
      → IsMonitored (check_orders now calculator orders s)
  unfolding check_orders
  check_orders-IsMonitored [] s same clean = (same, inl clean)
  check_orders-IsMonitored (order ∷ orders) s same clean =
      let fresh = record s { local = refreshed now calculator order s.local } in
      let same' = refreshed-IsSame order s.local same in
      elim (Bool-cases (str_eq order.order_id s.local.order_id)) [
        | inr other ↦ rw other (check_orders-IsMonitored orders s same clean)
        | inl mine ↦ elim (Bool-cases (str_eq order.status "COMPLETED")) [
          | inl completed ↦
              rw (mine, completed)
                (saved_completed fresh same' clean ((eq_iff order.status "COMPLETED").0 completed))
          | inr active ↦ elim (Bool-cases (is_terminal order.status)) [
            | inl terminal ↦ rw (mine, active, terminal) (saved fresh same' clean)
            | inr open_order ↦
                rw (mine, active, open_order) (check_orders-IsMonitored orders fresh same' clean)
          ]
        ]
      ]

  check_order_status-IsMonitored :
      (answer : Fetched F) (s : MonitorState F)
      → IsSame s.local
      → IsUntouched s
      → IsMonitored (check_order_status now calculator answer s)
  unfolding check_order_status
  check_order_status-IsMonitored (ok orders) s same clean =
      check_orders-IsMonitored orders s same clean
  check_order_status-IsMonitored (err other_failure) s same clean = (same, inl clean)
  check_order_status-IsMonitored (err authentication_failed) s same clean =
      saved
        (record s { local = record (s.local) { status = "UNKNOWN_AUTH_ERROR"; updated_at = now } })
        (record {
          same_id = same.same_id;
          same_symbol = same.same_symbol;
          same_side = same.same_side;
          same_size = same.same_size;
        })
        clean

  save_found-IsMonitored :
      (orders : List (OrderResult F)) (s : MonitorState F)
      → IsSame s.local
      → IsUntouched s
      → IsMonitored (true, save_found now calculator orders s)
  unfolding save_found
  save_found-IsMonitored [] s same clean = (same, inl clean)
  save_found-IsMonitored (order ∷ orders) s same clean =
      elim (Bool-cases (str_eq order.order_id s.local.order_id)) [
        | inr other ↦ rw other (save_found-IsMonitored orders s same clean)
        | inl mine ↦ rw mine (
            saved (record s { local = refreshed now calculator order s.local })
              (refreshed-IsSame order s.local same) clean)
      ]

  save_final_order_state-IsMonitored :
      (answer : Fetched F) (s : MonitorState F)
      → IsSame s.local
      → IsUntouched s
      → IsMonitored (true, save_final_order_state now calculator answer s)
  unfolding save_final_order_state
  save_final_order_state-IsMonitored (ok orders) s same clean =
      save_found-IsMonitored orders s same clean
  save_final_order_state-IsMonitored (err e) s same clean = saved s same clean

  goes_on :
      (checked : Bool × MonitorState F) (rest : Bool × MonitorState F)
      → IsMonitored checked
      → (IsSame checked.1.local → IsUntouched checked.1 → IsMonitored rest)
      → IsMonitored (if checked.0 then (true, checked.1) else rest)
  goes_on (true, s) rest h next = h
  goes_on (false, s) rest (same, inl clean) next = next same clean
  goes_on (false, s) rest (same, inr (over, _)) next = cc

  monitor_execution_from :
      (events : List (Event F)) (s : MonitorState F)
      → IsSame s.local
      → IsUntouched s
      → IsMonitored (monitor_execution now calculator events s)
  unfolding monitor_execution
  monitor_execution_from [] s same clean = (same, inl clean)
  monitor_execution_from (canceled answer ∷ events) s same clean =
      save_final_order_state-IsMonitored answer s same clean
  monitor_execution_from (timed_out answer ∷ events) s same clean =
      save_final_order_state-IsMonitored answer s same clean
  monitor_execution_from (ticked answer ∷ events) s same clean =
      let checked = check_order_status now calculator answer s in
      goes_on checked _ (check_order_status-IsMonitored answer s same clean)
        (monitor_execution_from events checked.1)

  -- Whatever the events and the exchange's answers are, the monitoring books the order at most once,
  -- as its last step but for what follows on a completed order: until it returns, the store is as it
  -- was and nothing was called. What it books is the order that it was given, with the same size. The
  -- callback for completed orders is only called for an order with that status, after it was booked.
  pub monitor_execution-IsMonitored :
      (events : List (Event F)) → IsMonitored (monitor_execution now calculator events start)
  monitor_execution-IsMonitored events =
      monitor_execution_from events start
        (record { same_id = refl; same_symbol = refl; same_side = refl; same_size = refl })
        (refl, refl)
