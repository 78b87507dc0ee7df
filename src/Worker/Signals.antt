-- ===== src/Worker/Signals.antt =====
-- `SignalWorker`. What it asks of its collaborators is a record of answers, and what it makes them
-- do is a list of commands. The handler writes to the signal that it was given; here it goes on with
-- a changed copy.
use Prim.Native.String.{len, slice}
use gogocoin.Prelude.{
  ℕ, zero, suc, String, Bool, not, ◌&&◌, ◌||◌, Option, none, some, List, [], ◌∷◌, Result, ok, err,
  ltb, if◌then◌else◌, str_eq,
}
use gogocoin.Float.{Float, ◌⊕◌, ◌⊗◌, ◌⊘◌, ◌≺◌, ◌≼◌, ◌≐◌, nought, number}
use gogocoin.Domain.{Balance, Position, OrderRequest}
use gogocoin.Strategy.{Signal, AutoScaleConfig, float, signal_buy, signal_sell, signal_hold}
use gogocoin.Risk.{Failure, Check}

pub record SignalWorker (F : Type 0) : Type 0 where
  pub trading_enabled : Bool
  pub risk_checker : Signal F → Check
  pub balance : Result Failure (List (Balance F))
  pub place_order : OrderRequest F → Result Failure String
  pub auto_scale : AutoScaleConfig F
  -- `none` where the optional service was not injected
  pub lot_size_svc : Option (String → Result Failure F)
  pub position_reader : Option (String → String → Result Failure (List (Position F)))
  pub has_position_closer : Bool
  pub sell_size_percentage : F
  pub shared_wallet : Bool

pub data Command (F : Type 0) : Type 0 where
  place : OrderRequest F → Command F
  close_positions : String → String → Command F
  update_metrics : Command F

-- the text in front of the last '_' among the first `n` bytes
cut_before : String → ℕ → String
cut_before symbol zero = symbol
cut_before symbol (suc i) =
    let rest = cut_before symbol i in
    if str_eq (slice symbol i (suc i)) "_" then slice symbol 0 i else rest

-- the currency that `getAvailableSellSize` sells
unfoldable pub base_currency : String → String
unfolding cut_before
base_currency symbol = if ltb 1 (len symbol) then cut_before symbol (len symbol) else symbol

module _ {F : Type 0} ⦃fl : Float F⦄ where
  -- `fallbackLotSize`
  unfoldable pub fallback_lot_size : String → F
  fallback_lot_size symbol =
      if str_eq symbol "BTC_JPY"
      then fl.lit 1 1000
      else if str_eq symbol "ETH_JPY"
      then fl.lit 1 100
      else if str_eq symbol "XRP_JPY"
      then number 1
      else if str_eq symbol "XLM_JPY"
      then number 10
      else if str_eq symbol "MONA_JPY"
      then number 1
      else if str_eq symbol "BCH_JPY"
      then fl.lit 1 100
      else fl.lit 1 1000

  abbrev pub lot_from : String → Option (String → Result Failure F) → F
  lot_from symbol none = fallback_lot_size symbol
  lot_from symbol (some get) = elim (get symbol) [
    | ok size ↦ if nought ≺ size then size else fallback_lot_size symbol
    | err _ ↦ fallback_lot_size symbol
  ]

  -- `resolveLotsSize`
  unfoldable pub resolve_lots_size : SignalWorker F → String → F
  resolve_lots_size w symbol = lot_from symbol w.lot_size_svc

  abbrev pub total_remaining : F → List (Position F) → F
  total_remaining total [] = total
  total_remaining total (p ∷ ps) = total_remaining (total ⊕ p.remaining_size) ps

  abbrev pub open_size :
      String → Option (String → String → Result Failure (List (Position F))) → Option F
  open_size symbol none = none
  open_size symbol (some get) = elim (get symbol "BUY") [
    | ok ps ↦ some (total_remaining nought ps)
    | err _ ↦ none
  ]

  -- `openPositionSize`
  unfoldable pub open_position_size : SignalWorker F → String → Option F
  open_position_size w symbol = open_size symbol w.position_reader

  -- the loop that looks for a currency
  abbrev pub available_of : String → List (Balance F) → Option F
  available_of c [] = none
  available_of c (b ∷ bs) = if str_eq b.currency c then some b.available else available_of c bs

  abbrev or_nought : Option F → F
  or_nought none = nought
  or_nought (some x) = x

  abbrev floor_to : F → F → F
  floor_to lot size = fl.floor (size ⊘ lot) ⊗ lot

  -- what may be sold: the wallet, capped by the open positions; `none` skips the exit
  abbrev pub sellable : Bool → F → Option F → Option F
  sellable shared available (some held) = some (if held ≺ available then held else available)
  sellable shared available none = if shared then none else some available

  -- the end of `getAvailableSellSize`
  unfoldable pub exit_size : SignalWorker F → String → F → F → F
  exit_size w symbol requested most =
      let lot = resolve_lots_size w symbol in
      let size = fl.floor (most ⊗ w.sell_size_percentage ⊘ lot) ⊗ lot in
      if nought ≺ requested && requested ≺ most
      then requested
      else if size ≼ nought
      then (if lot ≼ most then lot else nought)
      else size

  unfoldable pub sell_size_from : SignalWorker F → String → F → F → F
  sell_size_from w symbol requested available =
      if available ≐ nought
      then nought
      else elim (sellable w.shared_wallet available (open_position_size w symbol)) [
        | none ↦ nought
        | some most ↦ exit_size w symbol requested most
      ]

  -- `getAvailableSellSize`
  unfoldable pub get_available_sell_size : SignalWorker F → String → F → F
  get_available_sell_size w symbol requested = elim (w.balance) [
    | err _ ↦ nought
    | ok bs ↦ sell_size_from w symbol requested (or_nought (available_of (base_currency symbol) bs))
  ]

  abbrev pub order_of : Signal F → String → F → OrderRequest F
  order_of signal side size = record {
    symbol = signal.symbol;
    side = side;
    type = "MARKET";
    size = size;
    price = signal.price;
    time_in_force = "IOC";
    minute_to_expire = 0;
  }

  -- `createOrderFromSignal`; `none` is `skip`
  unfoldable pub create_order_from_signal : SignalWorker F → Signal F → Option (OrderRequest F)
  create_order_from_signal w signal =
      let size = get_available_sell_size w signal.symbol signal.quantity in
      if str_eq signal.action signal_buy
      then some (order_of signal "BUY" signal.quantity)
      else if str_eq signal.action signal_sell
      then (if size ≐ nought then none else some (order_of signal "SELL" size))
      else none

  -- `roundBuyQuantityToLotSize`; `none` is `false`
  unfoldable pub round_buy_quantity : SignalWorker F → Signal F → Option (Signal F)
  round_buy_quantity w signal =
      let lot = resolve_lots_size w signal.symbol in
      let rounded = floor_to lot signal.quantity in
      if rounded ≼ nought then none else some (record signal { quantity = rounded })

  abbrev pub min_of : F → F → F
  min_of cap x = if cap ≺ x then cap else x

  abbrev pub scale_target : F → F → AutoScaleConfig F → F
  scale_target base available cfg =
      let target = available ⊗ cfg.balance_pct ⊘ number 100 in
      if cfg.enabled && base ≺ target then target else base

  abbrev pub cap_notional : AutoScaleConfig F → F → F
  cap_notional cfg x = if nought ≺ cfg.max_notional then min_of cfg.max_notional x else x

  abbrev pub affordable : F → AutoScaleConfig F → F
  affordable available cfg =
      available ⊘ (number 1 ⊕ (if cfg.fee_rate ≺ nought then nought else cfg.fee_rate))

  -- `computeScaledNotional`
  unfoldable pub compute_scaled_notional : F → F → AutoScaleConfig F → F
  compute_scaled_notional base available cfg =
      let scaled = cap_notional cfg (scale_target base available cfg) in
      let effective = min_of (affordable available cfg) scaled in
      if base ≼ nought || available ≼ nought
      then nought
      else if effective ≺ nought
      then nought
      else effective

  -- the metadata that auto scaling writes
  abbrev noted : F → F → Signal F → Signal F
  noted effective base signal = record signal {
    metadata =
        ("order_notional_base", float base)
        ∷ ("order_notional_effective", float effective)
        ∷ signal.metadata;
  }

  -- auto scaling with the JPY balance at hand
  unfoldable pub scale_buy : SignalWorker F → Signal F → F → Option (Signal F)
  scale_buy w signal available =
      let base = signal.price ⊗ signal.quantity in
      let effective = compute_scaled_notional base available w.auto_scale in
      if effective ≺ base
      then none
      else elim (round_buy_quantity w (record signal { quantity = effective ⊘ signal.price })) [
        | none ↦ none
        | some rounded ↦ some (noted effective base rounded)
      ]

  -- `getAvailableBalance`
  unfoldable pub get_available_balance : SignalWorker F → String → Option F
  get_available_balance w currency = elim (w.balance) [
    | ok bs ↦ available_of currency bs
    | err _ ↦ none
  ]

  -- `applyAutoScaleToBuySignal`; `none` is `false`
  unfoldable pub apply_auto_scale : SignalWorker F → Signal F → Option (Signal F)
  apply_auto_scale w signal =
      if signal.price ≼ nought || signal.quantity ≼ nought
      then none
      else if not w.auto_scale.enabled
      then round_buy_quantity w signal
      else elim (get_available_balance w "JPY") [
        | none ↦ none
        | some available ↦ scale_buy w signal available
      ]

  -- `closeGhostPositions`
  abbrev pub close_ghost_positions : SignalWorker F → String → List (Command F)
  close_ghost_positions w symbol =
      if w.has_position_closer then close_positions symbol "BUY" ∷ [] else []

  -- the order goes out, and the metrics follow if the exchange took it
  abbrev pub execute : SignalWorker F → OrderRequest F → List (Command F)
  execute w order =
      place order ∷ elim (w.place_order order) [ ok _ ↦ update_metrics ∷ [] | err _ ↦ [] ]

  abbrev pub dispatch : SignalWorker F → Signal F → Option (OrderRequest F) → List (Command F)
  dispatch w signal (some order) = execute w order
  dispatch w signal none =
      if str_eq signal.action signal_sell then close_ghost_positions w signal.symbol else []

  -- `processSignal` behind the scaling
  unfoldable pub check_and_order : SignalWorker F → Signal F → List (Command F)
  check_and_order w signal = elim (w.risk_checker signal) [
    | err _ ↦ []
    | ok _ ↦ dispatch w signal (create_order_from_signal w signal)
  ]

  -- the signal that the risk check sees; `none` ends the processing
  unfoldable pub scaled_signal : SignalWorker F → Signal F → Option (Signal F)
  scaled_signal w signal =
      if str_eq signal.action signal_buy then apply_auto_scale w signal else some signal

  -- `processSignal`
  unfoldable pub process_signal : SignalWorker F → Signal F → List (Command F)
  process_signal w signal =
      if str_eq signal.action signal_hold || not w.trading_enabled
      then []
      else elim (scaled_signal w signal) [ none ↦ [] | some ready ↦ check_and_order w ready ]
