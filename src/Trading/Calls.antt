-- ===== src/Trading/Calls.antt =====
-- The calls of order/order_service.go. The exchange is a state `Y` and the answers of its HTTP client;
-- `with_retry` is the client's `WithRetry`. `print` is the format `%d`. A `float32` of an answer is given
-- as the `float64` that it is converted to.
use Prim.Native.String.{◌++◌ as ◌++str◌}
use gogocoin.Prelude.{
  ℕ, String, Bool, Option, none, some, List, Result, ok, err, map, if◌then◌else◌, ◌==◌,
}
use gogocoin.Float.{Float, nought}
use gogocoin.Domain.{Time, zero_time, OrderRequest, OrderResult}
use gogocoin.Exchange.{RetryPolicy, CallError, Outcome, succeeded, cancelled, failed, with_retry}
use gogocoin.Trading.Placement.{OrderBody, Trader, build_order_request, build_order_result}

-- an answer: its status, its body, and what the client parsed of it
pub record HttpResponse (B : Type 0) : Type 0 where
  pub status : ℕ
  pub body : String
  pub json200 : Option B

-- What the service asks of the exchange's client; `rate_limit` is the error of the rate limiter.
pub record OrderService : Type 0 where
  pub has_client : Bool
  pub rate_limit : Option CallError
  pub policy : RetryPolicy
  pub is_cancelled : ℕ → Bool
  pub print : ℕ → String

-- `panicked` is the use of a missing answer.
pub data ServiceError : Type 0 where
  no_client panicked : ServiceError
  rate_limited : CallError → ServiceError
  not_done : Outcome → ServiceError

-- an order as the exchange lists it
pub record ListedOrder (F : Type 0) : Type 0 where
  pub child_order_acceptance_id : Option String
  pub product_code : Option String
  pub side : Option String
  pub child_order_type : Option String
  pub child_order_state : Option String
  pub child_order_date : Option Time
  pub size : Option F
  pub price : Option F
  pub executed_size : Option F
  pub outstanding_size : Option F
  pub average_price : Option F
  pub total_commission : Option F

abbrev default_order_limit : ℕ
default_order_limit = 100

abbrev call_error : String → CallError
call_error message = record { api_retryable = none; message = message }

abbrev value_or : {A : Type 0} → A → Option A → A
value_or d none = d
value_or d (some a) = a

-- the loop body of `getOrdersForSymbol`
unfoldable pub order_of : {F : Type 0} ⦃fl : Float F⦄ → ListedOrder F → OrderResult F
order_of order =
    let commission = value_or nought order.total_commission in
    let date = value_or zero_time order.child_order_date in
    record {
      order_id = value_or "" order.child_order_acceptance_id;
      symbol = value_or "" order.product_code;
      side = value_or "" order.side;
      type = value_or "" order.child_order_type;
      size = value_or nought order.size;
      price = value_or nought order.price;
      status = value_or "" order.child_order_state;
      filled_size = value_or nought order.executed_size;
      remaining_size = value_or nought order.outstanding_size;
      average_price = value_or nought order.average_price;
      total_commission = commission;
      fee = commission;
      created_at = date;
      updated_at = date;
    }

-- an attempt: the call is made, its answer is kept and checked
abbrev pub replied :
    {B Y : Type 0}
    → (HttpResponse B → Option CallError)
    → Result CallError (HttpResponse B) × Y
    → Option CallError × (Y × Option (HttpResponse B))
replied check (err e, y) = (some e, (y, none))
replied check (ok r, y) = (check r, (y, some r))

-- the rate limiter comes first
abbrev pub limited :
    {A Y : Type 0} → Option CallError → Y → Result ServiceError A × Y → Result ServiceError A × Y
limited none y rest = rest
limited (some e) y rest = (err (rate_limited e), y)

module _ (service : OrderService) where
  -- the check of an answer to an order
  abbrev pub check_sent : {B : Type 0} → HttpResponse B → Option CallError
  check_sent r =
      if r.status == 200
      then none
      else some (
          call_error
            ("API error: status " ++str (service.print r.status ++str (", body: " ++str r.body))))

  abbrev pub check_cancelled : {B : Type 0} → HttpResponse B → Option CallError
  check_cancelled r =
      if r.status == 200
      then none
      else some (call_error ("API error: status " ++str service.print r.status))

  abbrev pub present : {B : Type 0} → Option B → Option CallError
  present none = some (call_error "empty response body")
  present (some b) = none

  abbrev pub check_listed : {B : Type 0} → HttpResponse B → Option CallError
  check_listed r =
      if r.status == 200
      then present r.json200
      else some (call_error ("API error: status " ++str service.print r.status))

  -- the call with its retries
  abbrev pub request :
      {B Y : Type 0}
      → (HttpResponse B → Option CallError)
      → (Y → Result CallError (HttpResponse B) × Y)
      → Y
      → Outcome × (Y × Option (HttpResponse B))
  request check call y =
      with_retry service.policy service.is_cancelled (λ x. replied check (call x.0)) (y, none)

  -- `CancelOrder`
  abbrev settled :
      {B Y : Type 0} → Outcome × (Y × Option (HttpResponse B)) → Result ServiceError (Unit {0}) × Y
  settled (succeeded, (y, r)) = (ok tt, y)
  settled (cancelled, (y, r)) = (err (not_done cancelled), y)
  settled (failed e, (y, r)) = (err (not_done (failed e)), y)

  unfoldable pub cancel_order :
      {B Y : Type 0}
      → (String → Y → Result CallError (HttpResponse B) × Y)
      → String
      → Y
      → Result ServiceError (Unit {0}) × Y
  cancel_order call id y = limited service.rate_limit y (
      if service.has_client
      then settled (request check_cancelled (call id) y)
      else (err no_client, y))

  module _ {F : Type 0} ⦃fl : Float F⦄ {Y : Type 0} where
    abbrev pub listed :
        Outcome × (Y × Option (HttpResponse (List (ListedOrder F))))
        → Result ServiceError (List (OrderResult F)) × Y
    listed (succeeded, (y, none)) = (err panicked, y)
    listed (succeeded, (y, some r)) =
        elim r.json200 as (λ x. Result ServiceError (List (OrderResult F)) × Y) [
          | none ↦ (err panicked, y)
          | some orders ↦ (ok (map order_of orders), y)
        ]
    listed (cancelled, (y, r)) = (err (not_done cancelled), y)
    listed (failed e, (y, r)) = (err (not_done (failed e)), y)

    -- `getOrdersForSymbol`
    unfoldable pub get_orders_for_symbol :
        (String → ℕ → Y → Result CallError (HttpResponse (List (ListedOrder F))) × Y)
        → String
        → Y
        → Result ServiceError (List (OrderResult F)) × Y
    get_orders_for_symbol call symbol y = limited service.rate_limit y (
        if service.has_client
        then listed (request check_listed (call symbol default_order_limit) y)
        else (err no_client, y))

    module _ (trader : Trader F) where
      abbrev pub placed :
          OrderRequest F
          → Outcome × (Y × Option (HttpResponse (Option String)))
          → Result ServiceError (OrderResult F) × Y
      placed order (succeeded, (y, none)) = (err panicked, y)
      placed order (succeeded, (y, some r)) =
          elim r.json200 as (λ x. Result ServiceError (OrderResult F) × Y) [
            | none ↦ (err panicked, y)
            | some id ↦ (ok (build_order_result trader order id), y)
          ]
      placed order (cancelled, (y, r)) = (err (not_done cancelled), y)
      placed order (failed e, (y, r)) = (err (not_done (failed e)), y)

      -- `PlaceOrder` of the service
      unfoldable pub send_order :
          (OrderBody F → Y → Result CallError (HttpResponse (Option String)) × Y)
          → OrderRequest F
          → Y
          → Result ServiceError (OrderResult F) × Y
      send_order call order y =
          let body = build_order_request trader order in
          if service.has_client
          then limited service.rate_limit y (placed order (request check_sent (call body) y))
          else (err no_client, y)
