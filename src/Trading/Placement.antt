-- ===== src/Trading/Placement.antt =====
-- `buildOrderRequest` and `buildOrderResult` of order_service.go, and `PlaceOrder` of it and of
-- bitflyer_trader.go. What a call makes others do is a list of effects.
use gogocoin.Prelude.{
  ℕ, String, Bool, Option, none, some, List, [], ◌∷◌, Result, ok, err, ◌>>=◌, map_err, ltb,
  if◌then◌else◌, str_eq,
}
use gogocoin.Float.{Float, ◌⊗◌, nought}
use gogocoin.Domain.{Time, Balance, OrderRequest, OrderResult}
use gogocoin.Risk.{Failure}
use gogocoin.Trading.Validation.{OrderError, validate_order, check_balance}

-- the body of the request to the exchange
pub record OrderBody (F : Type 0) : Type 0 where
  pub product_code : String
  pub child_order_type : String
  pub side : String
  pub size : F
  pub price : Option F
  pub time_in_force : Option String
  pub minute_to_expire : Option ℕ

-- How a call of the order service ends but with an identifier: with an error, or with a panic over an
-- answer that the exchange's client did not parse.
pub data PostError : Type 0 where
  refused : Failure → PostError
  unparsed : PostError

-- What the trader asks of others. `post` is `PlaceOrder` of the order service (Trading/Calls). `float32` is the conversion of the Go language, and `monitored`
-- says that there is a monitor and that the trader is not shutting down.
pub record Trader (F : Type 0) : Type 0 where
  pub balance : Result Failure (List (Balance F))
  pub fee_rate : F
  pub post : OrderBody F → Result PostError (Option String)
  pub float32 : F → F
  pub monitored : Bool
  pub now : Time

-- `answer_missing` is the panic of the order service, which goes through the trader.
pub data PlaceError : Type 0 where
  invalid_order : OrderError → PlaceError
  balance_unreadable : Failure → PlaceError
  not_covered : OrderError → PlaceError
  not_placed : Failure → PlaceError
  answer_missing : PlaceError

-- `posted` is the call of the order service, which waits for the rate limit and may send the request to
-- the exchange several times.
pub data Effect (F : Type 0) : Type 0 where
  posted : OrderBody F → Effect F
  cache_invalidated : Effect F
  monitor_started : OrderResult F → Effect F

abbrev order_type : String → String
order_type type = if str_eq type "LIMIT" then "LIMIT" else "MARKET"

abbrev pub order_side : String → String
order_side side = if str_eq side "SELL" then "SELL" else "BUY"

abbrev in_force : String → String
in_force t =
    if str_eq t "GTC"
    then "GTC"
    else if str_eq t "IOC"
    then "IOC"
    else if str_eq t "FOK"
    then "FOK"
    else "IOC"

abbrev or_empty : Option String → String
or_empty none = ""
or_empty (some id) = id

module _ {F : Type 0} ⦃fl : Float F⦄ (trader : Trader F) where
  -- `buildOrderRequest`
  unfoldable pub build_order_request : OrderRequest F → OrderBody F
  build_order_request order = record {
    product_code = order.symbol;
    child_order_type = order_type order.type;
    side = order_side order.side;
    size = trader.float32 order.size;
    price = if str_eq order.type "LIMIT" then some (trader.float32 order.price) else none;
    time_in_force =
        if str_eq order.time_in_force "" then none else some (in_force order.time_in_force);
    minute_to_expire = if ltb 0 order.minute_to_expire then some order.minute_to_expire else none;
  }

  -- `buildOrderResult`
  unfoldable pub build_order_result : OrderRequest F → Option String → OrderResult F
  build_order_result order id = record {
    order_id = or_empty id;
    symbol = order.symbol;
    side = order.side;
    type = order.type;
    size = order.size;
    price = order.price;
    status = "ACTIVE";
    filled_size = nought;
    remaining_size = order.size;
    average_price = nought;
    total_commission = nought;
    fee = order.size ⊗ order.price ⊗ trader.fee_rate;
    created_at = trader.now;
    updated_at = trader.now;
  }

  -- the checks in front of the request
  unfoldable pub check_order : OrderRequest F → Result PlaceError (Unit {0})
  check_order order = map_err invalid_order (validate_order order) >>= λ u.
      map_err balance_unreadable trader.balance >>= λ balances.
      map_err not_covered (check_balance order balances trader.fee_rate)

  abbrev pub watched : OrderResult F → List (Effect F)
  watched result = if trader.monitored then monitor_started result ∷ [] else []

  abbrev pub accepted :
      OrderRequest F
      → OrderBody F
      → Result PostError (Option String)
      → Result PlaceError (OrderResult F) × List (Effect F)
  accepted order body (err (refused e)) = (err (not_placed e), posted body ∷ [])
  accepted order body (err unparsed) = (err answer_missing, posted body ∷ [])
  accepted order body (ok id) =
      let result = build_order_result order id in
      (ok result, posted body ∷ (cache_invalidated ∷ watched result))

  abbrev pub send :
      OrderRequest F
      → Result PlaceError (Unit {0})
      → Result PlaceError (OrderResult F) × List (Effect F)
  send order (err e) = (err e, [])
  send order (ok _) = let body = build_order_request order in accepted order body (trader.post body)

  -- `PlaceOrder`
  unfoldable pub place_order : OrderRequest F → Result PlaceError (OrderResult F) × List (Effect F)
  place_order order = send order (check_order order)
