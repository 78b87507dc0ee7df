-- ===== src/Tests/Placing.antt =====
-- Placing orders.
use gogocoin.Prelude.{
  ◌≡◌, refl, ◌*◌, err, true, false, none, some, ok, ℕ, zero, suc, String, Option, [], ◌∷◌, Result,
}
use gogocoin.Prelude.Int.{ℤ, pos, ◌*ℤ◌, ◌+ℤ◌}
use gogocoin.Float.Exact.{exact_float}
use gogocoin.Domain.{OrderRequest}
use gogocoin.Trading.{
  Cache, Looks, not_called, failed, get_balance, invalidate_cache, fetch, Trader, place_order,
  check_order, validate_order, check_balance, get_currency_from_symbol, OrderService, HttpResponse,
  ListedOrder, panicked, get_orders_for_symbol, send_order,
}
use gogocoin.Exchange.{CallError, with_retry, attempts_from, should_retry, is_network_error}
use gogocoin.Trading.Placed.{IsPlaced, place_order-IsPlaced}
use gogocoin.Trading.Freshness.{IsFresh, get_balance-IsFresh}
use gogocoin.Trading.Called.{IsListing, get_orders_for_symbol-IsListing}
use gogocoin.Trading.Sent.{IsSent, send_order-IsSent}
use gogocoin.Risk.{failure, second}
use gogocoin.Tests.Data.{wallet}

abbrev trader : Trader ℤ
trader = record {
  balance = ok wallet;
  fee_rate = pos 0;
  post = λ body. ok (some "id");
  float32 = λ x. x;
  monitored = true;
  now = 7;
}

abbrev limit_buy : OrderRequest ℤ
limit_buy = record {
  symbol = "BTC_JPY";
  side = "BUY";
  type = "LIMIT";
  size = pos 2;
  price = pos 100;
  time_in_force = "GTC";
  minute_to_expire = 0;
}

place_order-IsPlaced_example : IsPlaced trader limit_buy (place_order trader limit_buy)
place_order-IsPlaced_example = place_order-IsPlaced trader limit_buy

limit_buy_passes : check_order trader limit_buy ≡ ok tt
unfolding check_order validate_order check_balance ◌*ℤ◌ ◌+ℤ◌
limit_buy_passes = refl

currency_of_btc : get_currency_from_symbol "BTC_JPY" ≡ "BTC"
unfolding get_currency_from_symbol
currency_of_btc = refl

abbrev recent : Cache ℤ
recent = record { balances = wallet; timestamp = 100 * second }

abbrev looks : Looks ℤ
looks = record {
  seen = recent;
  locked = recent;
  left = recent;
  seen_at = 200 * second;
  locked_at = 201 * second;
  left_at = 202 * second;
}

get_balance-IsFresh_example :
    IsFresh (err (failed failure)) looks (get_balance (err (failed failure)) looks)
get_balance-IsFresh_example = get_balance-IsFresh (err (failed failure)) looks

-- the calls failed, and the cache is a hundred seconds old
stale_wallet : (get_balance (err (failed failure)) looks).0 ≡ ok wallet
unfolding get_balance fetch
stale_wallet = refl

-- without a client, the same cache is not used
no_wallet : (get_balance (err (not_called failure)) looks).0 ≡ err failure
unfolding get_balance fetch
no_wallet = refl

abbrev invalid_looks : Looks ℤ
invalid_looks = record looks { left = invalidate_cache recent }

-- the cache was invalidated during the call
invalidated_wallet : (get_balance (err (failed failure)) invalid_looks).0 ≡ err failure
unfolding get_balance fetch invalidate_cache
invalidated_wallet = refl

abbrev service : OrderService
service = record {
  has_client = true;
  rate_limit = none;
  policy = record { max_retries = pos 3; base_delay = second };
  is_cancelled = λ attempt. false;
  print = λ n. "503";
}

-- an answer to the request with this number, after one of status 503
abbrev second_time : {B : Type 0} → B → ℕ → Result CallError (HttpResponse B) × ℕ
second_time b zero = (ok record { status = 503; body = "upstream timeout"; json200 = none }, 1)
second_time b (suc n) = (ok record { status = 200; body = ""; json200 = some b }, suc (suc n))

abbrev btc_order : ListedOrder ℤ
btc_order = record {
  child_order_acceptance_id = some "id";
  product_code = some "BTC_JPY";
  side = some "BUY";
  child_order_type = none;
  child_order_state = some "ACTIVE";
  child_order_date = none;
  size = some (pos 2);
  price = none;
  executed_size = none;
  outstanding_size = some (pos 2);
  average_price = none;
  total_commission = none;
}

get_orders_for_symbol-IsListing_example :
    IsListing service
      (λ symbol count. second_time (btc_order ∷ []))
      "BTC_JPY"
      (get_orders_for_symbol service (λ symbol count. second_time (btc_order ∷ [])) "BTC_JPY" 1)
get_orders_for_symbol-IsListing_example =
    get_orders_for_symbol-IsListing service (λ symbol count. second_time (btc_order ∷ [])) "BTC_JPY"
      3 1 refl

send_order-IsSent_example :
    IsSent service trader
      (λ body. second_time (some "id"))
      limit_buy
      (send_order service trader (λ body. second_time (some "id")) limit_buy 0)
send_order-IsSent_example =
    send_order-IsSent service trader (λ body. second_time (some "id")) limit_buy 3 0 refl

-- The body of the first answer names a timeout, so the order is sent again.
sent_again : (send_order service trader (λ body. second_time (some "id")) limit_buy 0).1 ≡ 2
unfolding send_order with_retry attempts_from should_retry is_network_error
sent_again = refl

abbrev unparsed_answer : ℕ → Result CallError (HttpResponse (Option String)) × ℕ
unparsed_answer n = (ok record { status = 200; body = "{}"; json200 = none }, suc n)

-- a panic, after one request
panicked_order : send_order service trader (λ body. unparsed_answer) limit_buy 0 ≡ (err panicked, 1)
unfolding send_order with_retry attempts_from
panicked_order = refl
