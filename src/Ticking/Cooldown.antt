-- ===== src/Ticking/Cooldown.antt =====
-- How far apart the forced exits of a symbol are.
use gogocoin.Prelude.{
  ℕ, ◌+◌, ◌≤◌, ◌≡◌, subst, eq_iff, String, Bool, true, false, Option, none, some, List, [], ◌∷◌,
  Result, ok, err, ltb, leb, All, select, ◌&&◌, Bool-cases, inl, inr, arith, str_eq,
}
use gogocoin.Float.{Float}
use gogocoin.Domain.{Time}
use gogocoin.Strategy.{Signal, MarketData, signal_buy, signal_sell, signal_hold}
use gogocoin.Risk.{Failure}
use gogocoin.Ticking.Bars.{Tick, aggregate, SymbolHistory}
use gogocoin.Ticking.Exits.{
  StrategyWorker, Surroundings, Delivery, room, stopped, late_room, late_stopped, timed_out,
  forced_exit_signal,
}
use gogocoin.Ticking.Sending.{
  WorkerState, Sent, forced_exit_cooldown, is_cooling_since, is_cooling, send_signal,
  send_forced_exit, offer, note_attempt, forget_action, report_position_read_failure,
}
use gogocoin.Ticking.Handling.{
  Arrival, dispatched, dispatch_forced_exit_if_any, send_own, overridden, analyzed,
  execute_strategy, process_tick_bar_mode, run_on_bar, handle_tick, handle_ticks, is_traded,
  is_repeated, follow_bar, put_history, get_or_create_history,
}

-- there was an attempt, at `t` or later
abbrev is_covered : Option Time → Time → Bool
is_covered none t = false
is_covered (some last) t = leb t last

spaced_of :
    (now t : Time) (last : Option Time)
    → is_covered last t ≡ true
    → is_cooling_since now last ≡ false
    → t + forced_exit_cooldown ≤ now
spaced_of now t last covered warm = ground arith

module _ {F : Type 0} where
  -- the forced exits of a symbol, the latest first
  abbrev pub forced_of : String → List (Sent F) → List (Sent F)
  forced_of symbol sent = select (λ e. e.is_forced && str_eq e.signal.symbol symbol) sent

  -- each was decided at least the cooldown after all before it had been sent
  abbrev pub IsSpaced : List (Sent F) → Type 0
  IsSpaced [] = Unit
  IsSpaced (e ∷ older) =
      All (λ old. old.sent_at + forced_exit_cooldown ≤ e.decided_at) older × IsSpaced older

  all_spaced :
      (now : Time) (last : Option Time) (older : List (Sent F))
      → is_cooling_since now last ≡ false
      → All (λ e. is_covered last e.sent_at ≡ true) older
      → All (λ e. e.sent_at + forced_exit_cooldown ≤ now) older
  all_spaced now last [] warm _ = _
  all_spaced now last (e ∷ older) warm (covered, rest) =
      (spaced_of now e.sent_at last covered warm, all_spaced now last older warm rest)

  all_covered :
      (now sent : Time) (older : List (Sent F))
      → now ≤ sent
      → All (λ e. e.sent_at + forced_exit_cooldown ≤ now) older
      → All (λ e. is_covered (some sent) e.sent_at ≡ true) older
  all_covered now sent [] le _ = _
  all_covered now sent (e ∷ older) le (spaced, rest) =
      (ground arith, all_covered now sent older le rest)

module _ {F S E : Type 0} ⦃fl : Float F⦄ (w : StrategyWorker F S E) (symbol : String) where
  abbrev IsPaced : WorkerState F S → Type 0
  IsPaced st =
      let exits = forced_of symbol st.sent in
      IsSpaced exits
      × All (λ e. is_covered (st.last_forced_exit_attempt symbol) e.sent_at ≡ true) exits

  leb_self : (n : ℕ) → leb n n ≡ true
  leb_self n = ground arith

  -- the clock does not run backwards while a signal is sent
  abbrev IsForward : Surroundings F → Type 0
  IsForward env = env.now ≤ env.sent_at

  accepted-IsPaced :
      (env : Surroundings F) (signal : Signal F) (st : WorkerState F S)
      → IsForward env
      → is_cooling_since env.now (st.last_forced_exit_attempt signal.symbol) ≡ false
      → IsPaced st
      → IsPaced (
          note_attempt env signal.symbol
            (offer room env signal true (forget_action signal.symbol st)))
  accepted-IsPaced env signal st forward warm (spaced, covered) =
      elim (Bool-cases (str_eq signal.symbol symbol)) [
        | inl same ↦
            let attempts = st.last_forced_exit_attempt in
            let warm' : is_cooling_since env.now (attempts symbol) ≡ false =
              subst (λ s. is_cooling_since env.now (attempts s) ≡ false)
                ((eq_iff signal.symbol symbol).0 same) warm in
            let apart =
              all_spaced env.now (attempts symbol) (forced_of symbol st.sent) warm' covered in
            rw same (
              (apart, spaced),
              (
                leb_self env.sent_at,
                all_covered env.now env.sent_at (forced_of symbol st.sent) forward apart,
              ),
            )
        | inr other ↦ rw other (spaced, covered)
      ]

  offer-IsPaced :
      (d : Delivery) (env : Surroundings F) (signal : Signal F) (st : WorkerState F S)
      → IsForward env
      → is_cooling_since env.now (st.last_forced_exit_attempt signal.symbol) ≡ false
      → IsPaced st
      → IsPaced (
          note_attempt env signal.symbol (offer d env signal true (forget_action signal.symbol st)))
  offer-IsPaced room env signal st forward warm paced =
      accepted-IsPaced env signal st forward warm paced
  offer-IsPaced stopped env signal st forward warm paced = paced
  offer-IsPaced late_room env signal st forward warm paced =
      accepted-IsPaced env signal st forward warm paced
  offer-IsPaced late_stopped env signal st forward warm paced = paced
  offer-IsPaced timed_out env signal st forward warm paced = paced

  send_forced_exit-IsPaced :
      (env : Surroundings F) (signal : Signal F) (st : WorkerState F S)
      → IsForward env
      → IsPaced st
      → IsPaced (send_forced_exit env signal st)
  unfolding send_forced_exit send_signal is_cooling
  send_forced_exit-IsPaced env signal st forward paced =
      elim (Bool-cases (is_cooling_since env.now (st.last_forced_exit_attempt signal.symbol))) [
        | inl cooling ↦ rw cooling paced
        | inr warm ↦ rw warm (offer-IsPaced env.delivery env signal st forward warm paced)
      ]

  offer_own-IsPaced :
      (d : Delivery) (env : Surroundings F) (signal : Signal F) (st : WorkerState F S)
      → IsPaced st
      → IsPaced (offer d env signal false st).1
  offer_own-IsPaced room env signal st paced = paced
  offer_own-IsPaced stopped env signal st paced = paced
  offer_own-IsPaced late_room env signal st paced = paced
  offer_own-IsPaced late_stopped env signal st paced = paced
  offer_own-IsPaced timed_out env signal st paced = paced

  send_own-IsPaced :
      (env : Surroundings F) (signal : Signal F) (st : WorkerState F S)
      → IsPaced st
      → IsPaced (send_own w env signal st)
  unfolding send_own send_signal
  send_own-IsPaced env signal st paced = elim (Bool-cases (str_eq signal.action signal_hold)) [
    | inl hold ↦ rw hold paced
    | inr other ↦
        rw other
          (elim (Bool-cases (is_repeated w signal.action (st.last_sent_signals signal.symbol))) [
            | inl again ↦ rw again paced
            | inr new ↦ rw new (offer_own-IsPaced env.delivery env signal st paced)
          ])
  ]

  dispatched-IsPaced :
      (env : Surroundings F) (st : WorkerState F S) (found : Result Failure (Option (Signal F)))
      → IsForward env
      → IsPaced st
      → IsPaced (dispatched w env st found)
  dispatched-IsPaced env st (err e) forward paced = paced
  dispatched-IsPaced env st (ok none) forward paced = paced
  dispatched-IsPaced env st (ok (some signal)) forward paced =
      send_forced_exit-IsPaced env signal st forward paced

  overridden-IsPaced :
      (env : Surroundings F) (signal : Signal F) (st : WorkerState F S)
      (found : Result Failure (Option (Signal F)))
      → IsForward env
      → IsPaced st
      → IsPaced (overridden w env signal st found)
  overridden-IsPaced env signal st (err e) forward paced =
      elim (Bool-cases (str_eq signal.action signal_buy)) [
        | inl buy ↦ rw buy paced
        | inr other ↦ rw other (send_own-IsPaced env signal (report_position_read_failure st) paced)
      ]
  overridden-IsPaced env signal st (ok none) forward paced = send_own-IsPaced env signal st paced
  overridden-IsPaced env signal st (ok (some forced)) forward paced =
      send_forced_exit-IsPaced env forced st forward paced

  analyzed-IsPaced :
      (env : Surroundings F) (t : Tick F) (st : WorkerState F S)
      (answer : Result E (Option (Signal F)) × S)
      → IsForward env
      → IsPaced st
      → IsPaced (analyzed w env t st answer)
  analyzed-IsPaced env t st (err e, s) forward paced = paced
  analyzed-IsPaced env t st (ok none, s) forward paced = paced
  analyzed-IsPaced env t st (ok (some signal), s) forward paced =
      let st' = record st { memory = s } in
      elim (Bool-cases (str_eq signal.action signal_sell)) [
        | inl sell ↦ rw sell (send_own-IsPaced env signal st' paced)
        | inr other ↦ rw other (
            overridden-IsPaced env signal st' (forced_exit_signal w s env t.symbol t.price) forward
              paced)
      ]

  execute_strategy-IsPaced :
      (env : Surroundings F) (t : Tick F) (history : List (MarketData F)) (st : WorkerState F S)
      → IsForward env
      → IsPaced st
      → IsPaced (execute_strategy w env t history st)
  unfolding execute_strategy
  execute_strategy-IsPaced env t history st forward paced =
      analyzed-IsPaced env t st (w.strategy.analyze env.now history st.memory) forward paced

  run_on_bar-IsPaced :
      (env : Surroundings F) (history : List (MarketData F)) (bar : Option (Tick F))
      (st : WorkerState F S)
      → IsForward env
      → IsPaced st
      → IsPaced (run_on_bar w env history bar st)
  run_on_bar-IsPaced env history none st forward paced = paced
  run_on_bar-IsPaced env history (some bar) st forward paced =
      execute_strategy-IsPaced env bar history st forward paced

  abbrev pub IsForwardAt : Arrival F → Type 0
  IsForwardAt a = (a.on_tick.now ≤ a.on_tick.sent_at) × (a.on_run.now ≤ a.on_run.sent_at)

  follow_bar-IsPaced :
      (a : Arrival F) (st : WorkerState F S) (r : Option (Tick F) × SymbolHistory F)
      → IsForwardAt a
      → IsPaced st
      → IsPaced (follow_bar w a st r)
  unfolding dispatch_forced_exit_if_any
  follow_bar-IsPaced a st (bar, h) (at_tick, at_run) paced =
      let noted = put_history w a.tick.symbol (record h { last_access = a.now }) st in
      let found = forced_exit_signal w noted.memory a.on_tick a.tick.symbol a.tick.price in
      run_on_bar-IsPaced a.on_run h.points bar (dispatched w a.on_tick noted found) at_run
        (dispatched-IsPaced a.on_tick noted found at_tick paced)

  handle_tick-IsPaced :
      (a : Arrival F) (st : WorkerState F S)
      → ltb 0 w.bar_period ≡ true
      → IsForwardAt a
      → IsPaced st
      → IsPaced (handle_tick w a st)
  unfolding handle_tick process_tick_bar_mode
  handle_tick-IsPaced a st bars forward paced =
      elim (Bool-cases (is_traded a.tick.symbol w.trade_symbols)) [
        | inl traded ↦
            rw (traded, bars)
              (follow_bar-IsPaced a st
                (aggregate w.bar_period w.history_limit a.tick
                  (get_or_create_history w a.now a.tick.symbol st))
                forward paced)
        | inr observed ↦ rw observed paced
      ]

  handle_ticks-IsPaced :
      (arrivals : List (Arrival F)) (st : WorkerState F S)
      → ltb 0 w.bar_period ≡ true
      → All IsForwardAt arrivals
      → IsPaced st
      → IsPaced (handle_ticks w arrivals st)
  unfolding handle_ticks
  handle_ticks-IsPaced [] st bars _ paced = paced
  handle_ticks-IsPaced (a ∷ later) st bars (forward, rest) paced =
      handle_ticks-IsPaced later (handle_tick w a st) bars rest
        (handle_tick-IsPaced a st bars forward paced)

  -- With bars, where the loop of `Run` handles one tick after the other, a worker that has sent nothing
  -- handles any ticks, and the clock does not run backwards while a signal is sent. Then of two
  -- stop-loss or take-profit signals of one symbol the later was decided at least 30 s after the
  -- earlier had been accepted.
  pub forced_exits_apart :
      (arrivals : List (Arrival F)) (st : WorkerState F S)
      → ltb 0 w.bar_period ≡ true
      → st.sent ≡ []
      → All IsForwardAt arrivals
      → IsSpaced (forced_of symbol (handle_ticks w arrivals st).sent)
  forced_exits_apart arrivals st bars fresh forward =
      (handle_ticks-IsPaced arrivals st bars forward (rw fresh (_, _))).0
