-- ===== src/Tests/Ticks.antt =====
-- The strategy worker.
use gogocoin.Prelude.{
  ◌≡◌, refl, true, false, some, none, List, [], ◌∷◌, map, ok, err, ℕ, suc, String, arith, ◌*◌,
  Result, ◌+◌,
}
use gogocoin.Prelude.Int.{ℤ, pos, ◌+ℤ◌, ◌-ℤ◌, neg_ℤ}
use gogocoin.Float.Exact.{exact_float}
use gogocoin.Domain.{Position}
use gogocoin.Strategy.{Strategy, Signal, signal_sell}
use gogocoin.Risk.{Failure, second, check_risk_management}
use gogocoin.Backtest.Resampling.{new_resampling, read_bars}
use gogocoin.Ticking.{
  Tick, StrategyWorker, Surroundings, Delivery, room, late_room, timed_out, Arrival, WorkerState,
  forced_exit_signal, check_stop_loss, first_stop, exit_signal, handle_tick, handle_ticks,
  is_cooling, process_tick_bar_mode, send_if_cooled, send_forced_exit, send_signal,
}
use gogocoin.Ticking.Aggregation.{live_bars, seen_live, seen_replayed, as_bar, live_bars-read_bars}
use gogocoin.Ticking.Cooldown.{IsSpaced, forced_of, forced_exits_apart}
use gogocoin.Ticking.Protection.{SendsStopLoss, stop_loss_sent, IsNoBuy, no_buys_unreadable}
use gogocoin.Ticking.Log.{Adds}
use gogocoin.Ticking.Passing.{forced_exit_signal-passes}
use gogocoin.Tests.Data.{answers, buy, config, scaling, wallet}

abbrev tick_at : ℕ → ℤ → Tick ℤ
tick_at t price = record {
  symbol = "BTC_JPY";
  timestamp = t;
  price = price;
  volume = pos 2;
  best_bid = price;
  best_ask = price;
  spread = pos 0;
}

abbrev three_ticks : List (Tick ℤ)
three_ticks = tick_at 65 (pos 100) ∷ (tick_at 70 (pos 90) ∷ (tick_at 130 (pos 95) ∷ []))

live_bars-read_bars_example :
    map (seen_live 60 10) (live_bars 60 10 0 three_ticks)
    ≡ map
        (seen_replayed 60 10)
        (read_bars 60 9 (new_resampling (map (as_bar 60 10) three_ticks) false)).0
unfolding gogocoin.Ticking.bar_bucket_start
live_bars-read_bars_example =
    live_bars-read_bars 60 10 0 9 three_ticks (omega arith, (omega arith, (omega arith, _)))
      (omega arith)

-- a strategy that always gives the same answer, and sells 10 below the entry price
abbrev steady : Signal ℤ → Strategy ℤ ℕ String
steady answer = record {
  generate_signal = λ now md history n. (ok (some answer), suc n);
  analyze = λ now history n. (ok (some answer), suc n);
  start = λ now n. ok n;
  stop = λ now n. n;
  name = λ n. "steady";
  record_trade = λ now n. n;
  get_stop_loss_price = λ n entry. entry -ℤ pos 10;
  get_take_profit_price = λ n entry. entry +ℤ pos 10;
  get_base_notional = λ n symbol. pos 200;
  get_auto_scale_config = λ n. scaling;
}

abbrev sell : Signal ℤ
sell = record buy { action = signal_sell }

abbrev worker : ℕ → Signal ℤ → StrategyWorker ℤ ℕ String
worker period answer = record {
  strategy = steady answer;
  history_limit = 1000;
  symbol_expiry_period = 86_400 * second;
  bar_period = period;
  has_position_reader = true;
  trade_symbols = none;
}

abbrev held : Position ℤ
held = record {
  symbol = "BTC_JPY";
  product_code = "BTC_JPY";
  side = "BUY";
  size = pos 1;
  used_size = pos 0;
  remaining_size = pos 1;
  entry_price = pos 100;
  current_price = pos 100;
  unrealized_pl = pos 0;
  pnl = pos 0;
  status = "OPEN";
  order_id = "1";
  created_at = 1;
  updated_at = 1;
}

abbrev around : ℕ → Result Failure (List (Position ℤ)) → Surroundings ℤ
around now read = record {
  now = now;
  stop_loss_read = λ symbol side. read;
  take_profit_read = λ symbol side. read;
  delivery = late_room;
  sent_at = now + 1;
}

abbrev arrival : ℕ → ℕ → ℤ → Result Failure (List (Position ℤ)) → Arrival ℤ
arrival now t price read = record {
  tick = tick_at t price;
  now = now;
  on_tick = around now read;
  on_run = around now read;
}

abbrev fresh : WorkerState ℤ ℕ
fresh = record {
  memory = 0;
  histories = λ symbol. none;
  dropped_signals = 0;
  position_read_failures = 0;
  last_sent_signals = λ symbol. none;
  last_forced_exit_attempt = λ symbol. none;
  sent = [];
}

-- two ticks below the stop price, 40 s apart
abbrev falling : List (Arrival ℤ)
falling =
    arrival (40 * second) 65 (pos 80) (ok (held ∷ []))
    ∷ (arrival (80 * second) 70 (pos 80) (ok (held ∷ [])) ∷ [])

forced_exits_apart_example :
    IsSpaced (forced_of "BTC_JPY" (handle_ticks (worker 60 buy) falling fresh).sent)
forced_exits_apart_example =
    forced_exits_apart (worker 60 buy) "BTC_JPY" falling fresh refl refl
      ((omega arith, omega arith), ((omega arith, omega arith), _))

abbrev stop_signal : ℕ → Signal ℤ
stop_signal now =
    exit_signal (worker 0 buy) now "BTC_JPY" (pos 80) "stop_loss" "stop_price" (pos 100) (pos 90)

-- Two goroutines look at the last attempt before either has sent: both send, a nanosecond apart.
abbrev overlapped : WorkerState ℤ ℕ
overlapped =
    send_if_cooled (is_cooling 6 "BTC_JPY" fresh) (around 6 (ok (held ∷ []))) (stop_signal 6)
      (send_forced_exit (around 5 (ok (held ∷ []))) (stop_signal 5) fresh)

both_sent : map (λ e. e.decided_at) (forced_of "BTC_JPY" overlapped.sent) ≡ 6 ∷ (5 ∷ [])
unfolding is_cooling send_forced_exit send_signal
both_sent = refl

stop_loss_sent_example :
    SendsStopLoss
      (worker 60 sell)
      (arrival 5 65 (pos 80) (ok (held ∷ [])))
      fresh.sent
      (handle_tick (worker 60 sell) (arrival 5 65 (pos 80) (ok (held ∷ []))) fresh).sent
unfolding is_cooling ◌-ℤ◌
stop_loss_sent_example =
    stop_loss_sent (worker 60 sell) (arrival 5 65 (pos 80) (ok (held ∷ []))) fresh (held ∷ []) refl
      refl refl refl refl refl refl

-- the price is below the stop price of 90
forced_exit_signal-passes_example :
    check_risk_management (config (pos 10)) answers (
      exit_signal (worker 60 sell) 5 "BTC_JPY" (pos 80) "stop_loss" "stop_price" (pos 100) (pos 90))
    ≡ ok tt
unfolding forced_exit_signal check_stop_loss first_stop ◌-ℤ◌ neg_ℤ ◌+ℤ◌
forced_exit_signal-passes_example =
    forced_exit_signal-passes (worker 60 sell) (config (pos 10)) answers {bs = wallet} refl 0
      (around 5 (ok (held ∷ []))) "BTC_JPY" (pos 80) refl

abbrev unreadable : List (Arrival ℤ)
unreadable = arrival 5 65 (pos 80) (err Failure.failure) ∷ []

no_buys_unreadable_example :
    Adds (IsNoBuy (worker 0 buy)) [] (handle_ticks (worker 0 buy) unreadable fresh).sent
no_buys_unreadable_example =
    no_buys_unreadable (worker 0 buy) unreadable fresh refl ((λ symbol. refl, λ symbol. refl), _)

abbrev sold : WorkerState ℤ ℕ
sold = record fresh { last_sent_signals = λ symbol. some signal_sell }
