-- ===== src/Ticking/Handling.antt =====
-- `dispatchForcedExitIfAny`, `executeStrategy`, and what `Run` does with a tick. Without bars, `Run`
-- handles ticks in up to ten goroutines at once; here one tick is handled before the next. The
-- worker's context is not cancelled between ticks, and `analyze` does not panic.
use gogocoin.Prelude.{
  ◌-◌, String, Bool, true, false, Option, none, some, List, [], ◌∷◌, Result, ok, err, ltb,
  if◌then◌else◌, str_eq,
}
use gogocoin.Float.{Float}
use gogocoin.Domain.{Time}
use gogocoin.Strategy.{Signal, MarketData, signal_buy, signal_sell, signal_hold}
use gogocoin.Risk.{Failure}
use gogocoin.Ticking.Bars.{Tick, SymbolHistory, new_history, append_point, aggregate}
use gogocoin.Ticking.Exits.{StrategyWorker, Surroundings, forced_exit_signal}
use gogocoin.Ticking.Sending.{
  WorkerState, store, send_signal, send_forced_exit, report_position_read_failure, forget_action,
}

-- A tick with what happens around it: the clock as it comes in, and the surroundings of the exits
-- on the tick's own price and of the strategy's run.
pub record Arrival (F : Type 0) : Type 0 where
  pub tick : Tick F
  pub now : Time
  pub on_tick : Surroundings F
  pub on_run : Surroundings F

abbrev pub is_among : String → List String → Bool
is_among s [] = false
is_among s (t ∷ ts) = if str_eq t s then true else is_among s ts

-- the ticks that `Run` handles
abbrev pub is_traded : String → Option (List String) → Bool
is_traded s none = true
is_traded s (some symbols) = is_among s symbols

module _ {F S E : Type 0} ⦃fl : Float F⦄ (w : StrategyWorker F S E) where
  abbrev or_new : Time → Option (SymbolHistory F) → SymbolHistory F
  or_new now (some h) = h
  or_new now none = new_history now

  -- `getOrCreateHistory`
  unfoldable pub get_or_create_history : Time → String → WorkerState F S → SymbolHistory F
  get_or_create_history now symbol st = or_new now (st.histories symbol)

  abbrev pub unless_expired : Time → Option (SymbolHistory F) → Option (SymbolHistory F)
  unless_expired now none = none
  unless_expired now (some h) =
      if ltb w.symbol_expiry_period (now - h.last_access) then none else some h

  -- `cleanupInactiveSymbols`
  unfoldable pub cleanup_inactive_symbols : Time → WorkerState F S → WorkerState F S
  cleanup_inactive_symbols now st = record st {
    histories = λ symbol. unless_expired now (st.histories symbol);
  }

  abbrev pub dispatched :
      Surroundings F → WorkerState F S → Result Failure (Option (Signal F)) → WorkerState F S
  dispatched env st (err e) = report_position_read_failure st
  dispatched env st (ok none) = st
  dispatched env st (ok (some signal)) = send_forced_exit env signal st

  -- `dispatchForcedExitIfAny`
  unfoldable pub dispatch_forced_exit_if_any :
      Surroundings F → String → F → WorkerState F S → WorkerState F S
  dispatch_forced_exit_if_any env symbol price st =
      dispatched env st (forced_exit_signal w st.memory env symbol price)

  abbrev pub is_repeated : String → Option String → Bool
  is_repeated action none = false
  is_repeated action (some last) = str_eq last action

  -- the strategy's own signal: HOLD forgets the last action, and a repeated action is not sent
  unfoldable pub send_own : Surroundings F → Signal F → WorkerState F S → WorkerState F S
  send_own env signal st =
      if str_eq signal.action signal_hold
      then forget_action signal.symbol st
      else if is_repeated signal.action (st.last_sent_signals signal.symbol)
      then st
      else (send_signal env signal false st).1

  -- the strategy's signal is not a SELL, and the open positions were asked for
  abbrev pub overridden :
      Surroundings F
      → Signal F
      → WorkerState F S
      → Result Failure (Option (Signal F))
      → WorkerState F S
  overridden env signal st (err e) =
      let reported = report_position_read_failure st in
      if str_eq signal.action signal_buy then reported else send_own env signal reported
  overridden env signal st (ok none) = send_own env signal st
  overridden env signal st (ok (some forced)) = send_forced_exit env forced st

  abbrev pub analyzed :
      Surroundings F → Tick F → WorkerState F S → Result E (Option (Signal F)) × S → WorkerState F S
  analyzed env t st (err e, s) = record st { memory = s }
  -- reading the action of a nil signal panics, and the handler of the tick recovers
  analyzed env t st (ok none, s) = record st { memory = s }
  analyzed env t st (ok (some signal), s) =
      let st' = record st { memory = s } in
      if str_eq signal.action signal_sell
      then send_own env signal st'
      else overridden env signal st' (forced_exit_signal w s env t.symbol t.price)

  -- `executeStrategy`
  unfoldable pub execute_strategy :
      Surroundings F → Tick F → List (MarketData F) → WorkerState F S → WorkerState F S
  execute_strategy env t history st =
      analyzed env t st (w.strategy.analyze env.now history st.memory)

  abbrev pub put_history : String → SymbolHistory F → WorkerState F S → WorkerState F S
  put_history symbol h st = record st { histories = store symbol h st.histories }

  abbrev pub run_on_history : Arrival F → WorkerState F S → SymbolHistory F → WorkerState F S
  run_on_history a st h =
      execute_strategy a.on_run a.tick h.points
        (put_history a.tick.symbol (record h { last_access = a.now }) st)

  -- the body of the goroutine of `Run`
  unfoldable pub process_tick : Arrival F → WorkerState F S → WorkerState F S
  process_tick a st =
      run_on_history a st
        (append_point w.history_limit a.tick (get_or_create_history a.now a.tick.symbol st))

  abbrev pub run_on_bar :
      Surroundings F → List (MarketData F) → Option (Tick F) → WorkerState F S → WorkerState F S
  run_on_bar env history none st = st
  run_on_bar env history (some bar) st = execute_strategy env bar history st

  -- the exits are looked at on each tick, and the strategy runs on a bar that the tick completes
  abbrev pub follow_bar :
      Arrival F → WorkerState F S → Option (Tick F) × SymbolHistory F → WorkerState F S
  follow_bar a st (bar, h) =
      let noted = put_history a.tick.symbol (record h { last_access = a.now }) st in
      run_on_bar a.on_run h.points bar
        (dispatch_forced_exit_if_any a.on_tick a.tick.symbol a.tick.price noted)

  -- `processTickBarMode`
  unfoldable pub process_tick_bar_mode : Arrival F → WorkerState F S → WorkerState F S
  process_tick_bar_mode a st =
      follow_bar a st (
        aggregate w.bar_period w.history_limit a.tick
          (get_or_create_history a.now a.tick.symbol st))

  -- What `Run` does with a tick: with bars in its loop, and without bars in a goroutine of its own.
  unfoldable pub handle_tick : Arrival F → WorkerState F S → WorkerState F S
  handle_tick a st =
      if is_traded a.tick.symbol w.trade_symbols
      then (if ltb 0 w.bar_period then process_tick_bar_mode a st else process_tick a st)
      else st

  -- Ticks that are handled one after the other, as they are with bars. Without bars up to ten
  -- goroutines may overlap; then this is a run in which none of them does.
  unfoldable pub handle_ticks : List (Arrival F) → WorkerState F S → WorkerState F S
  handle_ticks [] st = st
  handle_ticks (a ∷ later) st = handle_ticks later (handle_tick a st)
