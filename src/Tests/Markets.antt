-- ===== src/Tests/Markets.antt =====
-- The exchange's client, the configuration and the start of the engine.
use gogocoin.Prelude.{
  List, ◌≡◌, refl, true, false, some, none, [], ◌∷◌, ok, err, ℕ, zero, suc, ◌≤◌, ◌*◌, Option,
}
use gogocoin.Prelude.Int.{ℤ, pos}
use gogocoin.Float.Exact.{exact_float, exact-IsIeee}
use gogocoin.Risk.{failure, second}
use gogocoin.Exchange.{
  RetryPolicy, CallError, succeeded, with_retry, attempts_from, should_retry, get_delay,
  is_network_error, SpecCache,
}
use gogocoin.Exchange.Attempts.{IsRun, with_retry-IsRun, with_retry_repeats}
use gogocoin.Configuration.{
  Config, default_worker_config, validate_config, with_defaults, check_trading, check_api,
  check_worker, worker_with_defaults, runtime_with_defaults, parse_pnl_epoch, seconds,
}
use gogocoin.Configuration.Usable.{IsUsable, validate_config-IsUsable}
use gogocoin.Engine.{
  TradingController, new_trading_controller, set_trading_enabled, Event, flipped, stored_at,
  handle_event, handle_events, flip,
}
use gogocoin.Engine.Restarts.{
  restart_keeps, started, overtaking, overtaken_request_returns, unstored_request_forgotten,
}

abbrev policy : RetryPolicy
policy = record { max_retries = pos 3; base_delay = second }

abbrev timeout : CallError
timeout = record { api_retryable = none; message = "Client.Timeout exceeded: timeout" }

-- books every order, and answers the first two requests with a timeout
abbrev slow_post : ℕ → Option CallError × ℕ
slow_post zero = (some timeout, 1)
slow_post (suc zero) = (some timeout, 2)
slow_post (suc (suc n)) = (none, suc (suc (suc n)))

posted_three_times : with_retry policy (λ k. false) slow_post 0 ≡ (succeeded, 3)
unfolding with_retry attempts_from should_retry is_network_error
posted_three_times = refl

fourth_delay : get_delay policy 4 ≡ pos (8 * second)
unfolding get_delay
fourth_delay = refl

with_retry-IsRun_example :
    (n : ℕ) × (n ≤ 3) × IsRun policy slow_post 0 n 0 (with_retry policy (λ k. false) slow_post 0)
with_retry-IsRun_example = with_retry-IsRun policy slow_post 3 0 refl

abbrev book : ℕ → Option CallError × ℕ
book n = (some timeout, suc n)

with_retry_repeats_example : 2 ≤ (with_retry policy (λ k. false) book 0).1
unfolding should_retry is_network_error
with_retry_repeats_example =
    with_retry_repeats policy book 3 0 timeout (λ n. n) refl (λ n. refl) refl refl

abbrev empty_cache : SpecCache ℤ
empty_cache = record { cache = λ symbol. none; last_fetch = 0 }

-- two requests that overlap and store in their order
abbrev overlapping : List Event
overlapping = flipped true ∷ (flipped false ∷ (stored_at 0 ∷ (stored_at 0 ∷ [])))

abbrev left_by : TradingController
left_by = (handle_events overlapping (started true "")).controller

restart_keeps_example : (new_trading_controller true true left_by.stored).enabled ≡ left_by.enabled
unfolding handle_events handle_event flip new_trading_controller
restart_keeps_example = restart_keeps true true "" overlapping (tt, (tt, (tt, (tt, _)))) refl

abbrev trading : TradingController
trading = record { enabled = true; stored = "true" }

unstored_request_forgotten_example :
    ((set_trading_enabled false false trading).0 ≡ err failure)
    × ((set_trading_enabled true false (set_trading_enabled false false trading).1).0 ≡ ok tt)
    × ((set_trading_enabled true false (set_trading_enabled false false trading).1).1.enabled
        ≡ false)
    × ((new_trading_controller true true
          (set_trading_enabled true false
            (set_trading_enabled false false trading).1).1.stored).enabled
        ≡ true)
unstored_request_forgotten_example = unstored_request_forgotten false true true trading refl refl

overtaken_request_returns_example :
    let r = handle_events (overtaking false) (record { controller = trading; waiting = [] }) in
    (r.waiting ≡ [])
    × (r.controller.enabled ≡ true)
    × ((new_trading_controller true true r.controller.stored).enabled ≡ false)
overtaken_request_returns_example = overtaken_request_returns false true trading refl

abbrev configured : Config ℤ
configured = record {
  app_name = "gogocoin";
  api = record { endpoint = "https"; api_key = "k"; api_secret = "s"; timeout = seconds 10 };
  trading = record {
    initial_balance = pos 1000;
    symbols = "BTC_JPY" ∷ [];
    risk_management = record {
      max_total_loss_percent = pos 20;
      max_trade_amount_percent = pos 10;
      pnl_epoch = "";
    };
  };
  ui_port = pos 8080;
  retention_days = pos 0;
  worker = record default_worker_config { max_concurrent_saves = pos 0 };
  runtime = record {
    sell_size_percentage = pos 1;
    history_limit = pos 0;
    signal_strength_threshold = pos 1;
  };
}

validate_config-IsUsable_example :
    IsUsable (with_defaults configured) × ((with_defaults configured).trading ≡ configured.trading)
unfolding validate_config with_defaults check_trading check_api check_worker parse_pnl_epoch
    worker_with_defaults runtime_with_defaults
validate_config-IsUsable_example =
    validate_config-IsUsable exact-IsIeee (λ epoch. none) configured (with_defaults configured)
      (record {
        balance_finite = (refl, refl);
        loss_finite = (refl, refl);
        amount_finite = (refl, refl);
      })
      (refl, refl) refl
