-- ===== src/Tests/Replays.antt =====
-- Backtests.
use gogocoin.Prelude.{
  arith, ◌≡◌, refl, true, false, some, [], ◌∷◌, List, ok, err, Bool, ℕ, suc, Result, take, String,
}
use gogocoin.Prelude.Int.{ℤ, pos, ◌+ℤ◌, ◌-ℤ◌, ◌*ℤ◌, ◌/ℤ◌}
use gogocoin.Float.Exact.{exact_float}
use gogocoin.Strategy.{Strategy}
use gogocoin.Backtest.{Bar, zero_bar, Position, Portfolio, SimulatorConfig}
use gogocoin.Backtest.{new_portfolio, open_long}
use gogocoin.Backtest.{handle_exit, handle_signal, exit_of}
use gogocoin.Backtest.{
  EngineConfig, Datasource, RunState, run, rounds, initial, round, process, note_bar, advance,
  try_exit, sample_equity, mark_to_market, evaluate, remember, enter, entry_of, new_simulator,
  report_progress,
}
use gogocoin.Backtest.Accounting.{IsBalanced, open_long-IsBalanced}
use gogocoin.Backtest.Runs.{Ends, IsAccounted, run-IsAccounted}
use gogocoin.Backtest.Schedule.{number_from, rounds_schedule}
use gogocoin.Backtest.Exits.{IsDue, exit_of-IsDue}
use gogocoin.Backtest.Resampling.{eof, new_resampling, read_bars}
use gogocoin.Backtest.Resampling.Periods.{resampled, read_bars-resampled}
use gogocoin.Report.Figures.{IsReported, run-IsReported}
use gogocoin.Tests.Data.{buy, scaling}

-- buys whenever it can
abbrev eager : Strategy ℤ ℕ String
eager = record {
  generate_signal = λ now md history n. (ok (some buy), suc n);
  analyze = λ now history n. (ok (some buy), suc n);
  start = λ now n. ok n;
  stop = λ now n. n;
  name = λ n. "eager";
  record_trade = λ now n. n;
  get_stop_loss_price = λ n entry. entry -ℤ pos 10;
  get_take_profit_price = λ n entry. entry +ℤ pos 10;
  get_base_notional = λ n symbol. pos 200;
  get_auto_scale_config = λ n. scaling;
}

abbrev simulator : SimulatorConfig ℤ
simulator = record {
  initial_balance = pos 10_000;
  fee_rate = pos 0;
  slippage_bps = pos 0;
  same_bar_rule = "";
  min_volume_ratio = pos 0;
}

abbrev engine : EngineConfig ℤ
engine = record {
  simulator = simulator;
  history_limit = pos 0;
  warmup_bars = pos 0;
  equity_every_n_bar = pos 0;
}

abbrev bar_at : ℕ → ℤ → ℤ → Bar ℤ
bar_at t low high = record {
  symbol = "BTC_JPY";
  timestamp = t;
  open_price = low;
  high = high;
  low = low;
  close = high;
  volume = pos 1000;
}

abbrev source : Datasource ℤ
source = record {
  bars =
      bar_at 1 (pos 100) (pos 101)
      ∷ (bar_at 2 (pos 100) (pos 105)
          ∷ (bar_at 3 (pos 100) (pos 120) ∷ (bar_at 4 (pos 80) (pos 130) ∷ [])));
  broken = false;
}

abbrev long : Position ℤ
long = record {
  symbol = "BTC_JPY";
  entry_time = 1;
  entry_price = pos 100;
  quantity = pos 2;
  notional = pos 200;
  entry_fee = pos 1;
  entry_slip = pos 1;
  tp_price = pos 110;
  sl_price = pos 90;
  bars_held = 0;
}

abbrev holding_long : Portfolio ℤ
holding_long = open_long long (new_portfolio (pos 10_000))

empty-IsBalanced : IsBalanced (pos 10_000) (new_portfolio (pos 10_000))
empty-IsBalanced = record { balanced = refl; priced = tt }

open_long-IsBalanced_example : IsBalanced (pos 10_000) holding_long
unfolding ◌*ℤ◌
open_long-IsBalanced_example =
    open_long-IsBalanced (pos 10_000) long (new_portfolio (pos 10_000)) refl refl empty-IsBalanced

holding_long-IsBalanced : IsBalanced (pos 10_000) holding_long
unfolding open_long ◌-ℤ◌ ◌+ℤ◌ ◌*ℤ◌
holding_long-IsBalanced = record { balanced = refl; priced = refl }

exit_of-IsDue_example :
    IsDue simulator long
      (bar_at 3 (pos 80) (pos 120))
      (exit_of simulator (bar_at 3 (pos 80) (pos 120)) long)
exit_of-IsDue_example = exit_of-IsDue simulator long (bar_at 3 (pos 80) (pos 120))

run-IsAccounted_example :
    Ends eager engine 0 (IsAccounted eager engine 0) (run eager engine 0 source 0)
run-IsAccounted_example = run-IsAccounted eager engine 0 source 0

-- a clock that counts hours, and one month
abbrev hours : ℤ → ℤ
hours d = d

abbrev month_of : ℕ → ℕ × ℕ
month_of t = (2024, 1)

run-IsReported_example : IsReported hours month_of engine (run eager engine 0 source 0)
run-IsReported_example = run-IsReported hours month_of eager engine 0 source 0

is_ok : {E A : Type 0} → Result E A → Bool
is_ok (ok a) = true
is_ok (err e) = false

abbrev ok_or : {E A : Type 0} → A → Result E A → A
ok_or d (ok a) = a
ok_or d (err e) = d

ok_or_lem : {E A : Type 0} (d : A) (r : Result E A) → is_ok r ≡ true → r ≡ ok (ok_or d r)
unfolding is_ok
ok_or_lem d (ok a) h = refl
ok_or_lem d (err e) h = cc

abbrev three_bars : List (Bar ℤ)
three_bars = take 3 source.bars

abbrev looped : RunState ℤ ℕ
looped =
    ok_or (initial eager engine 0 0) (rounds eager engine 0 three_bars (initial eager engine 0 0))

loop_ends : is_ok (rounds eager engine 0 three_bars (initial eager engine 0 0)) ≡ true
unfolding is_ok rounds round process note_bar advance try_exit handle_exit sample_equity
    mark_to_market evaluate remember handle_signal enter new_simulator ◌*ℤ◌ ◌+ℤ◌ ◌/ℤ◌
    report_progress open_long exit_of entry_of ◌-ℤ◌
loop_ends = refl

rounds_schedule_example : looped.progress ≡ number_from 2 (take 2 (zero_bar ∷ three_bars))
rounds_schedule_example =
    rounds_schedule eager engine 0 (bar_at 1 (pos 100) (pos 101))
      (bar_at 2 (pos 100) (pos 105) ∷ (bar_at 3 (pos 100) (pos 120) ∷ [])) 0 {t = looped}
      (ok_or_lem _ _ loop_ends)

-- two periods of two nanoseconds
read_bars-resampled_example :
    read_bars 2 6 (new_resampling source.bars false) ≡ (resampled 2 source.bars, eof)
read_bars-resampled_example = read_bars-resampled 2 source.bars 6 (omega arith)
