-- ===== src/Backtest/Engine.antt =====
-- engine.go. The datasource is the list of bars that `Next` returns before it ends the data or, if
-- `broken`, before it fails. The strategy and the datasource are not nil. The bars handed to
-- `OnProgress` are kept in the state as `progress`. The strategy's state after an error and the
-- summary, which is computed from the result, are not part of the run.
use Prim.Native.String.{◌++◌ as ◌++str◌}
use gogocoin.Prelude.{
  ℕ, ◌+◌, ◌-◌, ◌%◌, String, Bool, true, false, Option, none, some, List, [], ◌∷◌, ◌++◌, Result, ok,
  err, ◌>>=◌, ◌==◌, if◌then◌else◌, str_eq, length, drop, last?,
}
use gogocoin.Prelude.Int.{ℤ, pos, pos_part, leb_ℤ, ltb_ℤ}
use gogocoin.Float.{Float, ◌⊕◌, ◌≺◌, ◌≼◌, nought}
use gogocoin.Domain.{Time}
use gogocoin.Strategy.{Signal, MarketData, Strategy, lookup, as_text}
use gogocoin.Backtest.Types.{
  Bar, zero_bar, Trade, EquityPoint, SimulatorConfig, Position, Portfolio,
}
use gogocoin.Backtest.Book.{new_portfolio, mark_value, mark_to_market}
use gogocoin.Backtest.Fills.{new_simulator, handle_exit, handle_signal, force_close}

pub record EngineConfig (F : Type 0) : Type 0 where
  pub simulator : SimulatorConfig F
  pub history_limit : ℤ
  pub warmup_bars : ℤ
  pub equity_every_n_bar : ℤ

pub record Datasource (F : Type 0) : Type 0 where
  pub bars : List (Bar F)
  pub broken : Bool

pub data RunError (E : Type 0) : Type 0 where
  invalid_balance : RunError E
  start_failed : E → RunError E
  datasource_failed : RunError E
  generate_signal_failed : E → RunError E
  panicked : RunError E

-- the variables of `Run`, with the strategy's state
pub record RunState (F S : Type 0) : Type 0 where
  pub portfolio : Portfolio F
  pub strategy : S
  pub history : List (MarketData F)
  pub signal_counts : List (String × ℕ)
  pub bar_count : ℕ
  pub start_time : Time
  pub end_time : Time
  pub symbol : String
  pub curr : Bar F
  pub nxt : Bar F
  pub has_curr : Bool
  pub progress : List (ℕ × Bar F)

pub record RunResult (F : Type 0) : Type 0 where
  pub strategy_name : String
  pub symbol : String
  pub start_time : Time
  pub end_time : Time
  pub bars : ℕ
  pub trades : List (Trade F)
  pub equity : List (EquityPoint F)
  pub signal_counts : List (String × ℕ)
  pub initial_cash : F
  pub final_cash : F
  pub final_equity : F

abbrev pub default_history_limit : ℕ
default_history_limit = 1000

abbrev pub or_default : ℕ → ℤ → ℕ
or_default d n = if leb_ℤ n (pos 0) then d else pos_part n

-- `signalCounts[key]++`
unfoldable pub increment : String → List (String × ℕ) → List (String × ℕ)
increment k [] = (k, 1) ∷ []
increment k ((j, n) ∷ m) = if str_eq j k then (j, n + 1) ∷ m else (j, n) ∷ increment k m

-- the last `limit` points with a new one
unfoldable pub append_history :
    {F : Type 0} → ℕ → MarketData F → List (MarketData F) → List (MarketData F)
append_history limit md history =
    let longer = history ++ (md ∷ []) in drop (length longer - limit) longer

module _ {F : Type 0} ⦃fl : Float F⦄ where
  -- `barToMarketData`
  unfoldable pub bar_to_market_data : Bar F → MarketData F
  bar_to_market_data b = record {
    symbol = b.symbol;
    product_code = "";
    timestamp = b.timestamp;
    price = b.close;
    volume = b.volume;
    best_bid = nought;
    best_ask = nought;
    spread = nought;
    open_price = b.open_price;
    high = b.high;
    low = b.low;
    close = b.close;
  }

  -- `signalKey`
  unfoldable pub signal_key : Signal F → String
  signal_key s = s.action ++str ("|" ++str as_text (lookup "reason" s.metadata))

  abbrev pub has_open : Portfolio F → Bool
  has_open p = elim (p.position) [ none ↦ false | some _ ↦ true ]

module _ {F S E : Type 0} ⦃fl : Float F⦄ (strat : Strategy F S E) (cfg : EngineConfig F)
    (now : Time) where
  open strat use {generate_signal, name}

  abbrev pub sim : SimulatorConfig F
  sim = new_simulator cfg.simulator

  -- the closure `advance`
  unfoldable pub advance : Bar F → RunState F S → RunState F S
  advance b s = record s { curr = if s.has_curr then s.nxt else s.curr; nxt = b; has_curr = true }

  -- what is noted of every bar that the datasource returns
  unfoldable pub note_bar : Bar F → RunState F S → RunState F S
  note_bar bar s = record s {
    start_time = if s.bar_count == 0 then bar.timestamp else s.start_time;
    symbol = if s.bar_count == 0 then bar.symbol else s.symbol;
    end_time = bar.timestamp;
    bar_count = s.bar_count + 1;
  }

  -- step 1: the equity sample
  unfoldable pub sample_equity : RunState F S → RunState F S
  sample_equity s =
      if s.bar_count % or_default 1 cfg.equity_every_n_bar == 0
      then record s { portfolio = mark_to_market s.curr.timestamp s.curr.close s.portfolio }
      else s

  -- step 2: take-profit and stop-loss
  unfoldable pub try_exit : RunState F S → Result (RunError E) (RunState F S)
  try_exit s = elim (handle_exit sim s.curr s.portfolio) [
    | none ↦ err panicked
    | some (_, p) ↦ ok (record s { portfolio = p })
  ]

  -- step 3: history
  unfoldable pub remember : RunState F S → RunState F S
  remember s = record s {
    history =
        append_history (or_default default_history_limit cfg.history_limit)
          (bar_to_market_data s.curr) s.history;
  }

  abbrev pub act_on :
      Bar F → RunState F S → Result E (Option (Signal F)) × S → Result (RunError E) (RunState F S)
  act_on bar s (err e, t) = err (generate_signal_failed e)
  act_on bar s (ok none, t) = ok (record s { strategy = t })
  act_on bar s (ok (some signal), t) =
      elim (handle_signal strat now sim s.curr bar signal true s.portfolio t) [
        | none ↦ err panicked
        | some (_, p, t') ↦ ok (record s {
          strategy = t';
          portfolio = p;
          signal_counts = increment (signal_key signal) s.signal_counts;
        })
      ]

  -- the rest of step 3: the signal, past the warmup
  unfoldable pub evaluate : Bar F → RunState F S → Result (RunError E) (RunState F S)
  evaluate bar s =
      if ltb_ℤ cfg.warmup_bars (pos s.bar_count)
      then act_on bar s (generate_signal now (bar_to_market_data s.curr) s.history s.strategy)
      else ok s

  unfoldable pub report_progress : RunState F S → RunState F S
  report_progress s = record s { progress = s.progress ++ ((s.bar_count, s.curr) ∷ []) }

  -- the body of the loop once a bar is buffered
  unfoldable pub process : Bar F → RunState F S → Result (RunError E) (RunState F S)
  process bar s = try_exit (sample_equity s) >>= λ s'.
      evaluate bar (remember s') >>= λ s''. ok (advance bar (report_progress s''))

  -- one round of the loop
  unfoldable pub round : Bar F → RunState F S → Result (RunError E) (RunState F S)
  round bar s =
      let noted = note_bar bar s in
      if noted.has_curr then process bar noted else ok (advance bar noted)

  -- the loop, until the data end or the datasource fails
  unfoldable pub rounds : List (Bar F) → RunState F S → Result (RunError E) (RunState F S)
  rounds [] s = ok s
  rounds (bar ∷ bars) s = round bar s >>= rounds bars

  unfoldable pub close_out : RunState F S → Result (RunError E) (RunState F S)
  close_out s =
      if has_open s.portfolio
      then elim (force_close sim s.nxt.timestamp s.nxt.close s.portfolio) [
        | none ↦ err panicked
        | some (_, p) ↦ ok (record s { portfolio = mark_to_market s.nxt.timestamp s.nxt.close p })
      ]
      else ok s

  -- the exit of the last bar, and its equity sample
  unfoldable pub settle : RunState F S → Result (RunError E) (RunState F S)
  settle s = elim (handle_exit sim s.nxt s.portfolio) [
    | none ↦ err panicked
    | some (_, p) ↦
        close_out (record s { portfolio = mark_to_market s.nxt.timestamp s.nxt.close p })
  ]

  -- the final buffered bar
  unfoldable pub drain : RunState F S → Result (RunError E) (RunState F S)
  drain s = if s.has_curr then settle s else ok s

  abbrev pub final_price : Option (MarketData F) → F
  final_price none = nought
  final_price (some md) = md.price

  abbrev pub final_equity_of : Portfolio F → F → Option (Position F) → F
  final_equity_of p price none = p.cash
  final_equity_of p price (some held) =
      if nought ≺ price then p.cash ⊕ mark_value held price else p.cash

  unfoldable pub result_of : RunState F S → RunResult F
  result_of s = record {
    strategy_name = name s.strategy;
    symbol = s.symbol;
    start_time = s.start_time;
    end_time = s.end_time;
    bars = s.bar_count;
    trades = s.portfolio.trades;
    equity = s.portfolio.equity;
    signal_counts = s.signal_counts;
    initial_cash = cfg.simulator.initial_balance;
    final_cash = s.portfolio.cash;
    final_equity = final_equity_of s.portfolio (final_price (last? s.history)) s.portfolio.position;
  }

  abbrev pub initial : S → RunState F S
  initial s = record {
    portfolio = new_portfolio cfg.simulator.initial_balance;
    strategy = s;
    history = [];
    signal_counts = [];
    bar_count = 0;
    start_time = 0;
    end_time = 0;
    symbol = "";
    curr = zero_bar;
    nxt = zero_bar;
    has_curr = false;
    progress = [];
  }

  abbrev pub started : Result E S → Result (RunError E) S
  started (ok s) = ok s
  started (err e) = err (start_failed e)

  -- `Run`, with the strategy's state once it is stopped
  unfoldable pub run : Datasource F → S → Result (RunError E) (RunResult F × S)
  run source s₀ =
      if cfg.simulator.initial_balance ≼ nought
      then err invalid_balance
      else (started (strat.start now s₀) >>= λ s. rounds source.bars (initial s) >>= λ t.
          (if source.broken then err datasource_failed else drain t) >>= λ u.
          ok (result_of u, strat.stop now u.strategy))
