-- ===== src/Ticking/Log.antt =====
-- What the handlers add to the signals that were sent.
use gogocoin.Prelude.{
  ◌≡◌, refl, sym, ap, ◌∙◌, eq_iff, String, Bool, true, false, Option, none, some, List, [], ◌∷◌,
  ◌++◌, Result, ok, err, All, All-append, Bool-cases, inl, inr, str_eq, ◌⊎◌,
}
use gogocoin.Float.{Float}
use gogocoin.Strategy.{Signal, MarketData, signal_buy, signal_sell, signal_hold}
use gogocoin.Risk.{Failure}
use gogocoin.Ticking.Bars.{Tick}
use gogocoin.Ticking.Exits.{
  StrategyWorker, Surroundings, Delivery, room, stopped, late_room, late_stopped, timed_out,
  forced_exit_signal,
}
use gogocoin.Ticking.Sending.{
  WorkerState, Sent, is_cooling, send_signal, send_forced_exit, offer, note_attempt, forget_action,
  report_position_read_failure,
}
use gogocoin.Ticking.Handling.{
  dispatched, send_own, overridden, analyzed, execute_strategy, run_on_bar, is_repeated,
}

append_assoc : {A : Type 0} (xs ys zs : List A) → (xs ++ ys) ++ zs ≡ xs ++ (ys ++ zs)
append_assoc [] ys zs = refl
append_assoc (x ∷ xs) ys zs = ap (λ r. x ∷ r) (append_assoc xs ys zs)

sell_not_buy : (action : String) → str_eq action "SELL" ≡ true → str_eq action "BUY" ≡ false
sell_not_buy action sell = rw ((eq_iff action "SELL").0 sell) refl

abbrev pub entry : {F : Type 0} → Surroundings F → Signal F → Bool → Sent F
entry env signal forced = record {
  signal = signal;
  is_forced = forced;
  decided_at = env.now;
  sent_at = env.sent_at;
}

module _ {F : Type 0} (P : Sent F → Type 0) where
  -- the newer signals are the older ones with further ones in front, which meet `P`
  abbrev pub Adds : List (Sent F) → List (Sent F) → Type 0
  Adds old new = (more : List (Sent F)) × (new ≡ more ++ old) × All P more

  pub Adds-none : (old : List (Sent F)) → Adds old old
  Adds-none old = ([], refl, _)

  pub Adds-both : (old mid new : List (Sent F)) → Adds old mid → Adds mid new → Adds old new
  Adds-both old mid new (xs, e, ps) (ys, d, qs) =
      (ys ++ xs, d ∙ ap (λ r. ys ++ r) e ∙ sym (append_assoc ys xs old), All-append P ys xs qs ps)

module _ {F S E : Type 0} ⦃fl : Float F⦄ (w : StrategyWorker F S E) (P : Sent F → Type 0)
    (env : Surroundings F) where
  offer_own-Adds :
      (d : Delivery) (signal : Signal F) (st : WorkerState F S)
      → P (entry env signal false)
      → Adds P st.sent (offer d env signal false st).1.sent
  offer_own-Adds room signal st p = (entry env signal false ∷ [], refl, (p, _))
  offer_own-Adds stopped signal st p = Adds-none P st.sent
  offer_own-Adds late_room signal st p = Adds-none P st.sent
  offer_own-Adds late_stopped signal st p = Adds-none P st.sent
  offer_own-Adds timed_out signal st p = Adds-none P st.sent

  pub send_own-Adds :
      (signal : Signal F) (st : WorkerState F S)
      → P (entry env signal false)
      → Adds P st.sent (send_own w env signal st).sent
  unfolding send_own send_signal
  send_own-Adds signal st p = elim (Bool-cases (str_eq signal.action signal_hold)) [
    | inl hold ↦ rw hold (Adds-none P st.sent)
    | inr other ↦
        rw other
          (elim (Bool-cases (is_repeated w signal.action (st.last_sent_signals signal.symbol))) [
            | inl again ↦ rw again (Adds-none P st.sent)
            | inr new ↦ rw new (offer_own-Adds env.delivery signal st p)
          ])
  ]

  offer_forced-Adds :
      (d : Delivery) (signal : Signal F) (st : WorkerState F S)
      → P (entry env signal true)
      → Adds P st.sent
          (note_attempt env signal.symbol
            (offer d env signal true (forget_action signal.symbol st))).sent
  offer_forced-Adds room signal st p = (entry env signal true ∷ [], refl, (p, _))
  offer_forced-Adds stopped signal st p = Adds-none P st.sent
  offer_forced-Adds late_room signal st p = (entry env signal true ∷ [], refl, (p, _))
  offer_forced-Adds late_stopped signal st p = Adds-none P st.sent
  offer_forced-Adds timed_out signal st p = Adds-none P st.sent

  send_forced_exit-Adds :
      (signal : Signal F) (st : WorkerState F S)
      → P (entry env signal true)
      → Adds P st.sent (send_forced_exit env signal st).sent
  unfolding send_forced_exit send_signal
  send_forced_exit-Adds signal st p = elim (Bool-cases (is_cooling env.now signal.symbol st)) [
    | inl cooling ↦ rw cooling (Adds-none P st.sent)
    | inr warm ↦ rw warm (offer_forced-Adds env.delivery signal st p)
  ]

  -- the positions cannot be read, or `P` holds of whatever is sent
  abbrev pub IsCovered : Result Failure (Option (Signal F)) → Type 0
  IsCovered found =
      (found ≡ err Failure.failure)
      ⊎ ((signal : Signal F) (forced : Bool) → P (entry env signal forced))

  pub dispatched-Adds :
      (st : WorkerState F S) (found : Result Failure (Option (Signal F)))
      → IsCovered found
      → Adds P st.sent (dispatched w env st found).sent
  dispatched-Adds st (err e) covered = Adds-none P st.sent
  dispatched-Adds st (ok none) covered = Adds-none P st.sent
  dispatched-Adds st (ok (some signal)) (inl unreadable) = cc
  dispatched-Adds st (ok (some signal)) (inr all) =
      send_forced_exit-Adds signal st (all signal true)

  abbrev pub IsNotBuy : Type 0
  IsNotBuy =
      (signal : Signal F) → str_eq signal.action signal_buy ≡ false → P (entry env signal false)

  overridden-Adds :
      (signal : Signal F) (st : WorkerState F S) (found : Result Failure (Option (Signal F)))
      → IsNotBuy
      → IsCovered found
      → Adds P st.sent (overridden w env signal st found).sent
  overridden-Adds signal st (err e) others covered =
      elim (Bool-cases (str_eq signal.action signal_buy)) [
        | inl buy ↦ rw buy (Adds-none P st.sent)
        | inr other ↦
            rw other (send_own-Adds signal (report_position_read_failure st) (others signal other))
      ]
  overridden-Adds signal st (ok found) others (inl unreadable) = cc
  overridden-Adds signal st (ok none) others (inr all) = send_own-Adds signal st (all signal false)
  overridden-Adds signal st (ok (some forced)) others (inr all) =
      send_forced_exit-Adds forced st (all forced true)

  analyzed-Adds :
      (t : Tick F) (st : WorkerState F S) (answer : Result E (Option (Signal F)) × S)
      → IsNotBuy
      → ((s : S) → IsCovered (forced_exit_signal w s env t.symbol t.price))
      → Adds P st.sent (analyzed w env t st answer).sent
  analyzed-Adds t st (err e, s) others covered = Adds-none P st.sent
  analyzed-Adds t st (ok none, s) others covered = Adds-none P st.sent
  analyzed-Adds t st (ok (some signal), s) others covered =
      let st' = record st { memory = s } in
      elim (Bool-cases (str_eq signal.action signal_sell)) [
        | inl sell ↦
            rw sell (send_own-Adds signal st' (others signal (sell_not_buy signal.action sell)))
        | inr other ↦ rw other (
            overridden-Adds signal st' (forced_exit_signal w s env t.symbol t.price) others
              (covered s))
      ]

  pub execute_strategy-Adds :
      (t : Tick F) (history : List (MarketData F)) (st : WorkerState F S)
      → IsNotBuy
      → ((s : S) → IsCovered (forced_exit_signal w s env t.symbol t.price))
      → Adds P st.sent (execute_strategy w env t history st).sent
  unfolding execute_strategy
  execute_strategy-Adds t history st others covered =
      analyzed-Adds t st (w.strategy.analyze env.now history st.memory) others covered

  pub run_on_bar-Adds :
      (history : List (MarketData F)) (bar : Option (Tick F)) (st : WorkerState F S)
      → IsNotBuy
      → ((s : S) (symbol : String) (price : F)
          → IsCovered (forced_exit_signal w s env symbol price))
      → Adds P st.sent (run_on_bar w env history bar st).sent
  run_on_bar-Adds history none st others covered = Adds-none P st.sent
  run_on_bar-Adds history (some bar) st others covered =
      execute_strategy-Adds bar history st others (λ s. covered s bar.symbol bar.price)
