-- ===== src/Trading/Sent.antt =====
-- What `PlaceOrder` of order/order_service.go returns.
use gogocoin.Prelude.{
  ℕ, String, ◌≡◌, refl, true, Option, none, some, Result, ok, err, Bool-cases, inl, inr, ◌==◌,
}
use gogocoin.Prelude.Int.{pos}
use gogocoin.Float.{Float}
use gogocoin.Domain.{OrderRequest, OrderResult}
use gogocoin.Exchange.{CallError, Outcome, succeeded, cancelled, failed}
use gogocoin.Exchange.Successes.{IsEarned}
use gogocoin.Trading.Placement.{OrderBody, Trader, build_order_request, build_order_result}
use gogocoin.Trading.Calls.{
  HttpResponse, OrderService, ServiceError, no_client, panicked, rate_limited, not_done, check_sent,
  request, placed, send_order,
}
use gogocoin.Trading.Called.{IsChecked, request-IsEarned, limited-keeps}

module _ (service : OrderService) where
  status_of :
      {B : Type 0} (r : HttpResponse B) → check_sent service r ≡ none → (r.status == 200) ≡ true
  status_of r fine = elim (Bool-cases (r.status == 200)) [
    | inl same ↦ same
    | inr other ↦ let bad = rw other at fine in cc
  ]

  module _ {F : Type 0} ⦃fl : Float F⦄ {Y : Type 0} (trader : Trader F)
      (call : OrderBody F → Y → Result CallError (HttpResponse (Option String)) × Y)
      (order : OrderRequest F) where
    -- the exchange answered a request for this order with status 200
    abbrev IsAnswered : HttpResponse (Option String) → Y → Type 0
    IsAnswered r y =
        (z : Y) × (call (build_order_request trader order) z ≡ (ok r, y))
        × ((r.status == 200) ≡ true)

    -- an order has the identifier of such an answer, and a panic comes of such an answer without one
    abbrev pub IsSent : Result ServiceError (OrderResult F) × Y → Type 0
    IsSent (ok result, y) =
        (r : HttpResponse (Option String)) × (id : Option String) × IsAnswered r y
        × (r.json200 ≡ some id)
        × (result ≡ build_order_result trader order id)
    IsSent (err panicked, y) =
        (r : HttpResponse (Option String)) × IsAnswered r y × (r.json200 ≡ none)
    IsSent (err no_client, y) = Unit
    IsSent (err (rate_limited e), y) = Unit
    IsSent (err (not_done o), y) = Unit

    placed_id :
        (z y : Y) (status : ℕ) (body : String) (o : Option (Option String))
        → call (build_order_request trader order) z
          ≡ (ok record { status = status; body = body; json200 = o }, y)
        → ((status == 200) ≡ true)
        → IsSent (
            placed service trader order
              (succeeded, (y, some record { status = status; body = body; json200 = o })))
    placed_id z y status body none same fine =
        (record { status = status; body = body; json200 = none }, (z, same, fine), refl)
    placed_id z y status body (some id) same fine = (
      record { status = status; body = body; json200 = some id },
      id,
      (z, same, fine),
      refl,
      refl,
    )

    placed-IsSent :
        (x : Outcome × (Y × Option (HttpResponse (Option String))))
        → IsEarned (IsChecked (check_sent service) (call (build_order_request trader order))) x
        → IsSent (placed service trader order x)
    placed-IsSent (succeeded, (y, none)) h = absurd h
    placed-IsSent (succeeded, (y, some r)) (z, same, fine) =
        placed_id z y r.status r.body r.json200 same (status_of r fine)
    placed-IsSent (cancelled, (y, r)) h = tt
    placed-IsSent (failed e, (y, r)) h = tt

    -- With a configured number of retries that is not negative, an order that `PlaceOrder` of the service
    -- returns was answered by the exchange with status 200, and has the identifier of that answer,
    -- whatever was retried and whenever the context is cancelled. A panic comes only of an answer of
    -- the exchange with status 200 that its client did not parse.
    pub send_order-IsSent :
        (m : ℕ) (y : Y)
        → service.policy.max_retries ≡ pos m
        → IsSent (send_order service trader call order y)
    unfolding send_order
    send_order-IsSent m y limit =
        let body = build_order_request trader order in
        let answer = request service (check_sent service) (call body) y in
        elim (Bool-cases service.has_client) [
          | inl there ↦ rw there (
              limited-keeps IsSent service.rate_limit y (placed service trader order answer)
                (placed-IsSent answer
                  (request-IsEarned (check_sent service) (call body) service m y limit))
                (λ e. tt))
          | inr missing ↦ rw missing tt
        ]
