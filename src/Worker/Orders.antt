-- ===== src/Worker/Orders.antt =====
-- The orders that the worker places, and the checks of the risk manager.
use gogocoin.Prelude.{
  ◌≡◌, refl, sym, ap, ◌∙◌, some-injective, ◌⊎◌, inl, inr, Bool, true, false, not, ◌||◌, Option,
  none, some, List, ok, arith, All, Bool-cases, Option-cases, Result-cases, str_eq,
}
use gogocoin.Float.{Float, ◌≐◌, nought}
use gogocoin.Domain.{Balance, Trade, OrderRequest}
use gogocoin.Strategy.{Signal, signal_buy, signal_hold}
use gogocoin.Risk.{ManagerConfig, Answers, Check, check_risk_management}
use gogocoin.Risk.Checks.{IsApproved, check_risk_management-IsApproved}
use gogocoin.Worker.Resizing.{IsResized, scaled_signal-IsResized}
use gogocoin.Worker.Signals.{
  SignalWorker, Command, place, close_positions, update_metrics, scaled_signal,
  get_available_sell_size, create_order_from_signal, order_of, check_and_order, execute, dispatch,
  process_signal,
}

enabled_of_go : (hold enabled : Bool) → (hold || not enabled) ≡ false → enabled ≡ true
enabled_of_go hold enabled h = ground arith

module _ {F : Type 0} ⦃fl : Float F⦄ (cfg : ManagerConfig F) (ask : Answers F) (w : SignalWorker F)
    (signal : Signal F) where
  -- a BUY order, for the signal that the risk manager approved
  pub record IsClearedBuy (order : OrderRequest F) : Type 0 where
    pub side_buy : order.side ≡ "BUY"
    pub ready : Signal F
    pub sized : order.size ≡ ready.quantity
    pub resized : IsResized signal ready
    pub passed : check_risk_management cfg ask ready ≡ ok tt
    pub balances : List (Balance F)
    pub day : List (Trade F)
    pub last : List (Trade F)
    pub balance_read : ask.balance ≡ ok balances
    pub day_read : ask.recent_trades 100 ≡ ok day
    pub last_read : ask.recent_trades 1 ≡ ok last
    pub approved : IsApproved cfg ask ready balances day last

  -- a SELL order for the signal that the risk manager approved, of a size that is not 0, as holdings and positions allow it
  pub record IsClearedSell (order : OrderRequest F) : Type 0 where
    pub side_sell : order.side ≡ "SELL"
    pub passed : check_risk_management cfg ask signal ≡ ok tt
    pub sized : order.size ≡ get_available_sell_size w signal.symbol signal.quantity
    pub nonzero : (order.size ≐ nought) ≡ false

  pub record IsCleared (order : OrderRequest F) : Type 0 where
    pub enabled : w.trading_enabled ≡ true
    pub market : order.type ≡ "MARKET"
    pub same_symbol : order.symbol ≡ signal.symbol
    pub same_price : order.price ≡ signal.price
    pub cleared : IsClearedBuy order ⊎ IsClearedSell order

  abbrev pub OnOrder : (OrderRequest F → Type 0) → Command F → Type 0
  OnOrder P (place order) = P order
  OnOrder P (close_positions symbol side) = Unit
  OnOrder P update_metrics = Unit

  All-execute :
      (P : OrderRequest F → Type 0) (order : OrderRequest F)
      → P order
      → All (OnOrder P) (execute w order)
  All-execute P order h = elim (Result-cases (w.place_order order)) [
    | inl (id, e) ↦ rw e (h, (tt, tt))
    | inr (f, e) ↦ rw e (h, tt)
  ]

  All-dispatch :
      (P : OrderRequest F → Type 0) (s : Signal F) (created : Option (OrderRequest F))
      → ((order : OrderRequest F) → created ≡ some order → P order)
      → All (OnOrder P) (dispatch w s created)
  All-dispatch P s (some order) h = All-execute P order (h order refl)
  All-dispatch P s none h = ground arith

  unscaled :
      {ready : Signal F}
      → str_eq ready.action signal_buy ≡ false
      → scaled_signal w signal ≡ some ready
      → ready ≡ signal
  unfolding scaled_signal
  unscaled {ready} other scaled =
      let (_, action, _) = scaled_signal-IsResized w signal scaled in
      let other' : str_eq signal.action signal_buy ≡ false = rw (← action) other in
      sym (some-injective _ _ (rw other' at scaled))

  created_sell :
      (ready : Signal F) {order : OrderRequest F}
      → str_eq ready.action signal_buy ≡ false
      → create_order_from_signal w ready ≡ some order
      → let size = get_available_sell_size w ready.symbol ready.quantity in
        (order ≡ order_of ready "SELL" size) × ((size ≐ nought) ≡ false)
  unfolding create_order_from_signal
  created_sell ready other created = ground arith

  sell-IsCleared :
      (ready : Signal F) (order : OrderRequest F)
      → str_eq ready.action signal_buy ≡ false
      → w.trading_enabled ≡ true
      → scaled_signal w signal ≡ some ready
      → check_risk_management cfg ask ready ≡ ok tt
      → create_order_from_signal w ready ≡ some order
      → IsCleared order
  sell-IsCleared ready order other on scaled passed created =
      let same = unscaled other scaled in
      let (e, nonzero) = created_sell ready other created in
      rw (e, same)
        (record {
          enabled = on;
          market = refl;
          same_symbol = refl;
          same_price = refl;
          cleared = inr (record {
            side_sell = refl;
            passed = rw same at passed;
            sized = refl;
            nonzero = rw same at nonzero;
          });
        })

  buy-IsCleared :
      (ready : Signal F) (order : OrderRequest F)
      → str_eq ready.action signal_buy ≡ true
      → w.trading_enabled ≡ true
      → scaled_signal w signal ≡ some ready
      → check_risk_management cfg ask ready ≡ ok tt
      → create_order_from_signal w ready ≡ some order
      → IsCleared order
  unfolding create_order_from_signal
  buy-IsCleared ready order buy on scaled passed created =
      let resized = scaled_signal-IsResized w signal scaled in
      let e : order ≡ order_of ready "BUY" ready.quantity =
        sym (some-injective _ _ (rw buy at created)) in
      let (bs, day, last, read, read_day, read_last, approved) =
        check_risk_management-IsApproved cfg ask ready buy passed in
      rw e (record {
        enabled = on;
        market = refl;
        same_symbol = resized.0;
        same_price = resized.2;
        cleared = inl (record {
          side_buy = refl;
          ready = ready;
          sized = refl;
          resized = resized;
          passed = passed;
          balances = bs;
          day = day;
          last = last;
          balance_read = read;
          day_read = read_day;
          last_read = read_last;
          approved = approved;
        });
      })

  create_order-IsCleared :
      (ready : Signal F) (order : OrderRequest F)
      → w.trading_enabled ≡ true
      → scaled_signal w signal ≡ some ready
      → check_risk_management cfg ask ready ≡ ok tt
      → create_order_from_signal w ready ≡ some order
      → IsCleared order
  create_order-IsCleared ready order = elim (Bool-cases (str_eq ready.action signal_buy)) [
    | inl buy ↦ buy-IsCleared ready order buy
    | inr other ↦ sell-IsCleared ready order other
  ]

  check_and_order-IsCleared :
      (ready : Signal F)
      → w.risk_checker ≡ check_risk_management cfg ask
      → w.trading_enabled ≡ true
      → scaled_signal w signal ≡ some ready
      → All (OnOrder IsCleared) (check_and_order w ready)
  unfolding check_and_order
  check_and_order-IsCleared ready managed on scaled = elim (Result-cases (w.risk_checker ready)) [
    | inl (u, e) ↦
        rw (e, check_and_order)
          (All-dispatch IsCleared ready (create_order_from_signal w ready) (λ order created.
            create_order-IsCleared ready order on scaled
              (ap (λ (check : Signal F → Check). check ready) (sym managed) ∙ e) created))
    | inr (f, e) ↦ rw (e, check_and_order) tt
  ]

  -- Every order that `processSignal` sends out has the signal's symbol and price, is a market order,
  -- and is sent only while trading is enabled. A BUY has the size of a scaled signal that passed the
  -- risk manager, and what `IsApproved` says of an approved BUY holds of it: it is funded and capped,
  -- the daily count, the newest trade and the cumulative loss are within their limits, and so is the
  -- number of open positions where it can be read. A SELL passed the risk manager, and its size is
  -- the available sell size, not 0.
  pub process_signal-IsCleared :
      w.risk_checker ≡ check_risk_management cfg ask
      → All (OnOrder IsCleared) (process_signal w signal)
  unfolding process_signal
  process_signal-IsCleared managed =
      elim (Bool-cases (str_eq signal.action signal_hold || not w.trading_enabled)) [
        | inl stop ↦ rw stop tt
        | inr go ↦ elim (Option-cases (scaled_signal w signal)) [
          | inl e ↦ rw (go, e) tt
          | inr (ready, e) ↦
              rw (go, e) (check_and_order-IsCleared ready managed (enabled_of_go _ _ go) e)
        ]
      ]
