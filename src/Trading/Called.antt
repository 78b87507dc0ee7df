-- ===== src/Trading/Called.antt =====
-- What the calls of order/order_service.go return.
use gogocoin.Prelude.{
  ℕ, String, ◌≡◌, refl, true, Option, none, some, List, map, Result, ok, err, Bool-cases, inl, inr,
  ◌==◌,
}
use gogocoin.Prelude.Int.{pos}
use gogocoin.Float.{Float}
use gogocoin.Domain.{OrderResult}
use gogocoin.Exchange.{CallError, Outcome, succeeded, cancelled, failed}
use gogocoin.Exchange.Successes.{IsEarned, IsEarnedBy, with_retry-IsEarned}
use gogocoin.Trading.Calls.{
  HttpResponse, OrderService, ServiceError, no_client, panicked, rate_limited, not_done,
  ListedOrder, order_of, replied, limited, check_listed, present, request, listed,
  get_orders_for_symbol,
}

module _ {B Y : Type 0} (check : HttpResponse B → Option CallError)
    (call : Y → Result CallError (HttpResponse B) × Y) where
  -- the state that a call left whose answer is kept and passed the check
  abbrev pub IsChecked : Y × Option (HttpResponse B) → Type 0
  IsChecked (y, none) = ⊥
  IsChecked (y, some r) = (z : Y) × (call z ≡ (ok r, y)) × (check r ≡ none)

  checked :
      (z y : Y) (r : HttpResponse B) (e : Option CallError)
      → call z ≡ (ok r, y)
      → check r ≡ e
      → IsEarnedBy IsChecked (e, (y, some r))
  checked z y r none same fine = (z, same, fine)
  checked z y r (some e) same bad = tt

  attempted :
      (z : Y) (answer : Result CallError (HttpResponse B) × Y)
      → call z ≡ answer
      → IsEarnedBy IsChecked (replied check answer)
  attempted z (err e, y) same = tt
  attempted z (ok r, y) same = checked z y r (check r) same refl

  each_attempt : (x : Y × Option (HttpResponse B)) → IsEarnedBy IsChecked (replied check (call x.0))
  each_attempt x = attempted x.0 (call x.0) refl

  pub request-IsEarned :
      (service : OrderService) (m : ℕ) (y : Y)
      → service.policy.max_retries ≡ pos m
      → IsEarned IsChecked (request service check call y)
  request-IsEarned service m y limit =
      with_retry-IsEarned service.policy service.is_cancelled (λ x. replied check (call x.0))
        IsChecked each_attempt m (y, none) limit

pub limited-keeps :
    {A Y : Type 0} (P : Result ServiceError A × Y → Type 0) (o : Option CallError) (y : Y)
    (x : Result ServiceError A × Y)
    → P x
    → ((e : CallError) → P (err (rate_limited e), y))
    → P (limited o y x)
limited-keeps P none y x h rest = h
limited-keeps P (some e) y x h rest = rest e

module _ (service : OrderService) where
  listed_answer :
      {B : Type 0} (r : HttpResponse B)
      → check_listed service r ≡ none
      → ((r.status == 200) ≡ true) × (present service r.json200 ≡ none)
  listed_answer r fine = elim (Bool-cases (r.status == 200)) [
    | inl same ↦ (same, rw same at fine)
    | inr other ↦ let bad = rw other at fine in cc
  ]

  module _ {F : Type 0} ⦃fl : Float F⦄ {Y : Type 0} where
    -- The orders are those of an answer that the exchange gave with status 200, and there was no panic.
    abbrev pub IsListing :
        (String → ℕ → Y → Result CallError (HttpResponse (List (ListedOrder F))) × Y)
        → String
        → Result ServiceError (List (OrderResult F)) × Y
        → Type 0
    IsListing call symbol (ok orders, y) =
        (z : Y) × (r : HttpResponse (List (ListedOrder F))) × (rows : List (ListedOrder F)) × (call
            symbol 100 z
          ≡ (ok r, y))
        × ((r.status == 200) ≡ true)
        × (r.json200 ≡ some rows)
        × (orders ≡ map order_of rows)
    IsListing call symbol (err panicked, y) = ⊥
    IsListing call symbol (err no_client, y) = Unit
    IsListing call symbol (err (rate_limited e), y) = Unit
    IsListing call symbol (err (not_done o), y) = Unit

    module _ (call : String → ℕ → Y → Result CallError (HttpResponse (List (ListedOrder F))) × Y)
        (symbol : String) where
      listed_rows :
          (z y : Y) (status : ℕ) (body : String) (o : Option (List (ListedOrder F)))
          → call symbol 100 z ≡ (ok record { status = status; body = body; json200 = o }, y)
          → ((status == 200) ≡ true)
          → present service o ≡ none
          → IsListing call symbol (
              listed service
                (succeeded, (y, some record { status = status; body = body; json200 = o })))
      listed_rows z y status body none same fine there = cc
      listed_rows z y status body (some rows) same fine there = (
        z,
        record { status = status; body = body; json200 = some rows },
        rows,
        same,
        fine,
        refl,
        refl,
      )

      listed-IsListing :
          (x : Outcome × (Y × Option (HttpResponse (List (ListedOrder F)))))
          → IsEarned (IsChecked (check_listed service) (call symbol 100)) x
          → IsListing call symbol (listed service x)
      listed-IsListing (succeeded, (y, none)) h = h
      listed-IsListing (succeeded, (y, some r)) (z, same, fine) =
          let (status, there) = listed_answer r fine in
          listed_rows z y r.status r.body r.json200 same status there
      listed-IsListing (cancelled, (y, r)) h = tt
      listed-IsListing (failed e, (y, r)) h = tt

      -- With a configured number of retries that is not negative, `getOrdersForSymbol` does not panic,
      -- and the orders that it returns are the converted orders of an answer with status 200 that
      -- the exchange gave to a call for this symbol and the latest 100 orders, whatever was
      -- retried and whenever the context is cancelled.
      pub get_orders_for_symbol-IsListing :
          (m : ℕ) (y : Y)
          → service.policy.max_retries ≡ pos m
          → IsListing call symbol (get_orders_for_symbol service call symbol y)
      unfolding get_orders_for_symbol
      get_orders_for_symbol-IsListing m y limit =
          limited-keeps (IsListing call symbol) service.rate_limit y _
            (elim (Bool-cases service.has_client) [
              | inl there ↦ rw there (
                  listed-IsListing (request service (check_listed service) (call symbol 100) y)
                    (request-IsEarned (check_listed service) (call symbol 100) service m y limit))
              | inr missing ↦ rw missing tt
            ])
            (λ e. tt)
