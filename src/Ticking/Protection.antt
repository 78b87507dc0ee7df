-- ===== src/Ticking/Protection.antt =====
-- Stop-loss exits and unreadable positions.
use gogocoin.Prelude.{
  ◌≡◌, refl, subst, sym, ap, ◌∙◌, String, Bool, true, false, not, ◌&&◌, ◌||◌, Option, some, List,
  [], ◌∷◌, ◌++◌, ok, err, All, Bool-cases, inl, inr, if◌then◌else◌, str_eq, ltb,
}
use gogocoin.Float.{Float, ◌≼◌, nought}
use gogocoin.Domain.{Time, Position}
use gogocoin.Strategy.{Signal, signal_buy}
use gogocoin.Risk.{Failure}
use gogocoin.Ticking.Bars.{Tick, SymbolHistory, aggregate, append_point}
use gogocoin.Ticking.Exits.{
  StrategyWorker, Surroundings, Delivery, room, stopped, late_room, late_stopped, timed_out,
  exit_signal, first_stop, check_stop_loss, forced_exit_signal, or_take_profit,
}
use gogocoin.Ticking.Sending.{
  WorkerState, Sent, is_cooling, send_signal, send_forced_exit, offer, note_attempt, forget_action,
}
use gogocoin.Ticking.Handling.{
  Arrival, dispatched, dispatch_forced_exit_if_any, process_tick, process_tick_bar_mode, run_on_bar,
  handle_tick, handle_ticks, is_traded, follow_bar, put_history, get_or_create_history,
}
use gogocoin.Ticking.Log.{
  Adds, Adds-none, Adds-both, entry, dispatched-Adds, execute_strategy-Adds, run_on_bar-Adds,
}

module _ {F S E : Type 0} ⦃fl : Float F⦄ (w : StrategyWorker F S E) where
  -- a position that has an entry price and a stop price, which the price has reached
  abbrev pub has_reached_stop : S → F → Position F → Bool
  has_reached_stop s price p =
      let stop = w.strategy.get_stop_loss_price s p.entry_price in
      not (p.entry_price ≼ nought) && (not (stop ≼ nought) && (price ≼ stop))

  abbrev pub any_reached_stop : S → F → List (Position F) → Bool
  any_reached_stop s price [] = false
  any_reached_stop s price (p ∷ ps) = has_reached_stop s price p || any_reached_stop s price ps

  -- the exit of the tick's symbol at the tick's price
  abbrev pub IsStopLoss : Time → String → F → Signal F → Type 0
  IsStopLoss now symbol price signal =
      (entry_price stop : F) × (signal
        ≡ exit_signal w now symbol price "stop_loss" "stop_price" entry_price stop)

  first_stop_here :
      (s : S) (now : Time) (symbol : String) (price : F) (p : Position F) (ps : List (Position F))
      → let stop = w.strategy.get_stop_loss_price s p.entry_price in
        first_stop w s now symbol price (p ∷ ps) ≡ (
          if has_reached_stop s price p
          then some (exit_signal w now symbol price "stop_loss" "stop_price" p.entry_price stop)
          else first_stop w s now symbol price ps)
  unfolding first_stop
  first_stop_here s now symbol price p ps =
      let stop = w.strategy.get_stop_loss_price s p.entry_price in
      elim (Bool-cases (p.entry_price ≼ nought)) [
        | inl no_entry ↦ rw no_entry refl
        | inr has_entry ↦ elim (Bool-cases (stop ≼ nought)) [
          | inl no_stop ↦ rw (has_entry, no_stop) refl
          | inr has_stop ↦ rw (has_entry, has_stop) refl
        ]
      ]

  first_stop_reached :
      (s : S) (now : Time) (symbol : String) (price : F) (ps : List (Position F))
      → any_reached_stop s price ps ≡ true
      → (signal : Signal F) × (first_stop w s now symbol price ps ≡ some signal)
        × IsStopLoss now symbol price signal
  first_stop_reached s now symbol price [] reached = cc
  first_stop_reached s now symbol price (p ∷ ps) reached =
      elim (Bool-cases (has_reached_stop s price p)) [
        | inl here ↦
            let stop = w.strategy.get_stop_loss_price s p.entry_price in
            (
              exit_signal w now symbol price "stop_loss" "stop_price" p.entry_price stop,
              first_stop_here s now symbol price p ps ∙ rw here refl,
              (p.entry_price, stop, refl),
            )
        | inr later ↦
            let (signal, found, is_stop) =
              first_stop_reached s now symbol price ps
                (subst (λ b. (b || any_reached_stop s price ps) ≡ true) later reached) in
            (signal, first_stop_here s now symbol price p ps ∙ rw later found, is_stop)
      ]

  -- the channel takes the forced exit, at once or before the wait ends
  abbrev pub is_taken : Delivery → Bool
  is_taken room = true
  is_taken stopped = false
  is_taken late_room = true
  is_taken late_stopped = false
  is_taken timed_out = false

  offer_taken :
      (d : Delivery) (env : Surroundings F) (signal : Signal F) (st : WorkerState F S)
      → is_taken d ≡ true
      → (note_attempt env signal.symbol
          (offer d env signal true (forget_action signal.symbol st))).sent
        ≡ entry env signal true ∷ st.sent
  offer_taken room env signal st taken = refl
  offer_taken stopped env signal st taken = cc
  offer_taken late_room env signal st taken = refl
  offer_taken late_stopped env signal st taken = cc
  offer_taken timed_out env signal st taken = cc

  send_forced_exit_taken :
      (env : Surroundings F) (signal : Signal F) (st : WorkerState F S)
      → is_cooling env.now signal.symbol st ≡ false
      → is_taken env.delivery ≡ true
      → (send_forced_exit env signal st).sent ≡ entry env signal true ∷ st.sent
  unfolding send_forced_exit send_signal
  send_forced_exit_taken env signal st warm taken =
      rw warm (offer_taken env.delivery env signal st taken)

  forced_exit_signal_read :
      (s : S) (env : Surroundings F) (symbol : String) (price : F) (ps : List (Position F))
      → w.has_position_reader ≡ true
      → env.stop_loss_read symbol "BUY" ≡ ok ps
      → forced_exit_signal w s env symbol price
        ≡ or_take_profit w s env symbol price (first_stop w s env.now symbol price ps)
  unfolding forced_exit_signal check_stop_loss
  forced_exit_signal_read s env symbol price ps reader read = simp (reader, read)

  forced_exit_signal_stop :
      (s : S) (env : Surroundings F) (symbol : String) (price : F) (ps : List (Position F))
      → w.has_position_reader ≡ true
      → env.stop_loss_read symbol "BUY" ≡ ok ps
      → any_reached_stop s price ps ≡ true
      → (signal : Signal F) × (forced_exit_signal w s env symbol price ≡ ok (some signal))
        × IsStopLoss env.now symbol price signal
  forced_exit_signal_stop s env symbol price ps reader read reached =
      let (signal, found, is_stop) = first_stop_reached s env.now symbol price ps reached in
      (
        signal,
        forced_exit_signal_read s env symbol price ps reader read
            ∙ ap (or_take_profit w s env symbol price) found,
        is_stop,
      )

  -- a stop-loss exit is the next signal that is sent after `old`
  abbrev pub SendsStopLoss : Arrival F → List (Sent F) → List (Sent F) → Type 0
  SendsStopLoss a old new =
      (later : List (Sent F)) × (signal : Signal F) × (new
        ≡ later ++ (entry a.on_tick signal true ∷ old))
      × IsStopLoss a.on_tick.now a.tick.symbol a.tick.price signal

  dispatch_stop :
      (a : Arrival F) (st : WorkerState F S) (ps : List (Position F))
      → w.has_position_reader ≡ true
      → a.on_tick.stop_loss_read a.tick.symbol "BUY" ≡ ok ps
      → any_reached_stop st.memory a.tick.price ps ≡ true
      → is_cooling a.on_tick.now a.tick.symbol st ≡ false
      → is_taken a.on_tick.delivery ≡ true
      → (signal : Signal F) × ((dispatch_forced_exit_if_any w a.on_tick a.tick.symbol a.tick.price
            st).sent
          ≡ entry a.on_tick signal true ∷ st.sent)
        × IsStopLoss a.on_tick.now a.tick.symbol a.tick.price signal
  unfolding dispatch_forced_exit_if_any
  dispatch_stop a st ps reader read reached warm taken =
      let (signal, found, (entry_price, stop, is_stop)) =
        forced_exit_signal_stop st.memory a.on_tick a.tick.symbol a.tick.price ps reader read
          reached in
      let same : signal.symbol ≡ a.tick.symbol = ap (λ s. s.symbol) is_stop in
      let warm' : is_cooling a.on_tick.now signal.symbol st ≡ false =
        subst (λ s. is_cooling a.on_tick.now s st ≡ false) (sym same) warm in
      (
        signal,
        ap (λ r. (dispatched w a.on_tick st r).sent) found
            ∙ send_forced_exit_taken a.on_tick signal st warm' taken,
        (entry_price, stop, is_stop),
      )

  abbrev IsAny : Sent F → Type 0
  IsAny e = Unit

  follow_bar_stop :
      (a : Arrival F) (st : WorkerState F S) (r : Option (Tick F) × SymbolHistory F)
      (ps : List (Position F))
      → w.has_position_reader ≡ true
      → a.on_tick.stop_loss_read a.tick.symbol "BUY" ≡ ok ps
      → any_reached_stop st.memory a.tick.price ps ≡ true
      → is_cooling a.on_tick.now a.tick.symbol st ≡ false
      → is_taken a.on_tick.delivery ≡ true
      → SendsStopLoss a st.sent (follow_bar w a st r).sent
  unfolding is_cooling
  follow_bar_stop a st (bar, h) ps reader read reached warm taken =
      let noted = put_history w a.tick.symbol (record h { last_access = a.now }) st in
      let (signal, sent, is_stop) = dispatch_stop a noted ps reader read reached warm taken in
      let after = dispatch_forced_exit_if_any w a.on_tick a.tick.symbol a.tick.price noted in
      let (later, more, _) =
        run_on_bar-Adds w IsAny a.on_run h.points bar after (λ signal other. _)
          (λ s symbol price. inr (λ signal forced. _)) in
      (later, signal, more ∙ ap (λ r. later ++ r) sent, is_stop)

  -- In bar mode, a tick at or below the stop price of an open position makes the worker send a
  -- stop-loss SELL of the tick's symbol at the tick's price before anything else, whatever the
  -- strategy answers and has answered: where the positions can be read, the symbol's last forced exit
  -- is 30 s or more ago, and the channel has room before the wait for it ends.
  pub stop_loss_sent :
      (a : Arrival F) (st : WorkerState F S) (ps : List (Position F))
      → is_traded a.tick.symbol w.trade_symbols ≡ true
      → ltb 0 w.bar_period ≡ true
      → w.has_position_reader ≡ true
      → a.on_tick.stop_loss_read a.tick.symbol "BUY" ≡ ok ps
      → any_reached_stop st.memory a.tick.price ps ≡ true
      → is_cooling a.on_tick.now a.tick.symbol st ≡ false
      → is_taken a.on_tick.delivery ≡ true
      → SendsStopLoss a st.sent (handle_tick w a st).sent
  unfolding handle_tick process_tick_bar_mode
  stop_loss_sent a st ps traded bars reader read reached warm taken =
      rw (traded, bars)
        (follow_bar_stop a st
          (aggregate w.bar_period w.history_limit a.tick
            (get_or_create_history w a.now a.tick.symbol st))
          ps reader read reached warm taken)

  abbrev pub IsNoBuy : Sent F → Type 0
  IsNoBuy e = (str_eq e.signal.action signal_buy ≡ false) × (e.is_forced ≡ false)

  -- the open positions cannot be read
  abbrev pub IsUnreadable : Surroundings F → Type 0
  IsUnreadable env = (symbol : String) → env.stop_loss_read symbol "BUY" ≡ err Failure.failure

  forced_exit_signal_unreadable :
      (s : S) (env : Surroundings F) (symbol : String) (price : F)
      → w.has_position_reader ≡ true
      → IsUnreadable env
      → forced_exit_signal w s env symbol price ≡ err Failure.failure
  unfolding forced_exit_signal check_stop_loss
  forced_exit_signal_unreadable s env symbol price reader unreadable =
      rw (reader, unreadable symbol) refl

  follow_bar_unreadable :
      (a : Arrival F) (st : WorkerState F S) (r : Option (Tick F) × SymbolHistory F)
      → w.has_position_reader ≡ true
      → IsUnreadable a.on_tick
      → IsUnreadable a.on_run
      → Adds IsNoBuy st.sent (follow_bar w a st r).sent
  unfolding dispatch_forced_exit_if_any
  follow_bar_unreadable a st (bar, h) reader on_tick on_run =
      let noted = put_history w a.tick.symbol (record h { last_access = a.now }) st in
      let found = forced_exit_signal w noted.memory a.on_tick a.tick.symbol a.tick.price in
      let after = dispatched w a.on_tick noted found in
      Adds-both IsNoBuy st.sent after.sent (run_on_bar w a.on_run h.points bar after).sent
        (dispatched-Adds w IsNoBuy a.on_tick noted found (
          inl (
            forced_exit_signal_unreadable noted.memory a.on_tick a.tick.symbol a.tick.price reader
              on_tick)))
        (run_on_bar-Adds w IsNoBuy a.on_run h.points bar after (λ signal other. (other, refl))
          (λ s symbol price.
            inl (forced_exit_signal_unreadable s a.on_run symbol price reader on_run)))

  process_tick_unreadable :
      (a : Arrival F) (st : WorkerState F S)
      → w.has_position_reader ≡ true
      → IsUnreadable a.on_run
      → Adds IsNoBuy st.sent (process_tick w a st).sent
  unfolding process_tick
  process_tick_unreadable a st reader on_run =
      let h =
        append_point w.history_limit a.tick (get_or_create_history w a.now a.tick.symbol st) in
      execute_strategy-Adds w IsNoBuy a.on_run a.tick h.points
        (put_history w a.tick.symbol (record h { last_access = a.now }) st)
        (λ signal other. (other, refl))
        (λ s.
          inl (forced_exit_signal_unreadable s a.on_run a.tick.symbol a.tick.price reader on_run))

  handle_tick_unreadable :
      (a : Arrival F) (st : WorkerState F S)
      → w.has_position_reader ≡ true
      → IsUnreadable a.on_tick × IsUnreadable a.on_run
      → Adds IsNoBuy st.sent (handle_tick w a st).sent
  unfolding handle_tick process_tick_bar_mode
  handle_tick_unreadable a st reader (on_tick, on_run) =
      elim (Bool-cases (is_traded a.tick.symbol w.trade_symbols)) [
        | inl traded ↦ rw traded (elim (Bool-cases (ltb 0 w.bar_period)) [
          | inl bars ↦ rw bars (
              follow_bar_unreadable a st
                (aggregate w.bar_period w.history_limit a.tick
                  (get_or_create_history w a.now a.tick.symbol st))
                reader on_tick on_run)
          | inr ticks ↦ rw ticks (process_tick_unreadable a st reader on_run)
        ])
        | inr observed ↦ rw observed (Adds-none IsNoBuy st.sent)
      ]

  -- While the open positions cannot be read, nothing that the worker adds to the sent signals is a BUY
  -- or a forced exit, over any ticks that are handled one after the other, with bars or
  -- without, and whatever the strategy answers.
  pub no_buys_unreadable :
      (arrivals : List (Arrival F)) (st : WorkerState F S)
      → w.has_position_reader ≡ true
      → All (λ a. IsUnreadable a.on_tick × IsUnreadable a.on_run) arrivals
      → Adds IsNoBuy st.sent (handle_ticks w arrivals st).sent
  unfolding handle_ticks
  no_buys_unreadable [] st reader _ = Adds-none IsNoBuy st.sent
  no_buys_unreadable (a ∷ later) st reader (here, rest) =
      Adds-both IsNoBuy st.sent (handle_tick w a st).sent
        (handle_ticks w later (handle_tick w a st)).sent (handle_tick_unreadable a st reader here)
        (no_buys_unreadable later (handle_tick w a st) reader rest)
