-- ===== src/Ticking/Passing.antt =====
-- What the risk manager (usecase/risk/manager.go) makes of the forced exits of the strategy worker.
use gogocoin.Prelude.{
  ◌≡◌, refl, String, Bool-cases, inl, inr, Option, none, some, List, [], ◌∷◌, Result, ok, err,
  ◌>>=◌, subst,
}
use gogocoin.Float.{Float, ◌≼◌, nought}
use gogocoin.Domain.{Time, Balance, Position}
use gogocoin.Strategy.{Signal}
use gogocoin.Risk.{ManagerConfig, Answers, Failure, check_risk_management, is_forced_exit_sell}
use gogocoin.Ticking.Exits.{
  StrategyWorker, Surroundings, exit_signal, first_stop, first_take, check_stop_loss,
  check_take_profit, or_take_profit, forced_exit_signal,
}

module _ {F S E : Type 0} ⦃fl : Float F⦄ (w : StrategyWorker F S E) (cfg : ManagerConfig F)
    (ask : Answers F) {bs : List (Balance F)} (read : ask.balance ≡ ok bs) where
  -- there is no signal, or it passes the risk manager
  abbrev IsPassed : Option (Signal F) → Type 0
  IsPassed none = Unit
  IsPassed (some signal) = check_risk_management cfg ask signal ≡ ok tt

  stop_passes :
      (now : Time) (symbol key : String) (price entry limit : F)
      → IsPassed (some (exit_signal w now symbol price "stop_loss" key entry limit))
  unfolding check_risk_management is_forced_exit_sell
  stop_passes now symbol key price entry limit = rw read refl

  take_passes :
      (now : Time) (symbol key : String) (price entry limit : F)
      → IsPassed (some (exit_signal w now symbol price "take_profit" key entry limit))
  unfolding check_risk_management is_forced_exit_sell
  take_passes now symbol key price entry limit = rw read refl

  first_stop-IsPassed :
      (s : S) (now : Time) (symbol : String) (price : F) (ps : List (Position F))
      → IsPassed (first_stop w s now symbol price ps)
  unfolding first_stop
  first_stop-IsPassed s now symbol price [] = tt
  first_stop-IsPassed s now symbol price (p ∷ ps) =
      let rest = first_stop-IsPassed s now symbol price ps in
      let stop = w.strategy.get_stop_loss_price s p.entry_price in
      elim (Bool-cases (p.entry_price ≼ nought)) [
        | inl free ↦ rw free rest
        | inr priced ↦ rw priced (elim (Bool-cases (stop ≼ nought)) [
          | inl off ↦ rw off rest
          | inr on ↦ rw on (elim (Bool-cases (price ≼ stop)) [
            | inl reached ↦
                rw reached (stop_passes now symbol "stop_price" price p.entry_price stop)
            | inr above ↦ rw above rest
          ])
        ])
      ]

  first_take-IsPassed :
      (s : S) (now : Time) (symbol : String) (price : F) (ps : List (Position F))
      → IsPassed (first_take w s now symbol price ps)
  unfolding first_take
  first_take-IsPassed s now symbol price [] = tt
  first_take-IsPassed s now symbol price (p ∷ ps) =
      let rest = first_take-IsPassed s now symbol price ps in
      let target = w.strategy.get_take_profit_price s p.entry_price in
      elim (Bool-cases (p.entry_price ≼ nought)) [
        | inl free ↦ rw free rest
        | inr priced ↦ rw priced (elim (Bool-cases (target ≼ nought)) [
          | inl off ↦ rw off rest
          | inr on ↦ rw on (elim (Bool-cases (target ≼ price)) [
            | inl reached ↦
                rw reached (take_passes now symbol "take_price" price p.entry_price target)
            | inr below ↦ rw below rest
          ])
        ])
      ]

  -- an error, or a signal that is none or passes
  abbrev IsPassedIfOk : Result Failure (Option (Signal F)) → Type 0
  IsPassedIfOk (ok found) = IsPassed found
  IsPassedIfOk (err e) = Unit

  passed_reads :
      (r : Result Failure (List (Position F))) (first : List (Position F) → Option (Signal F))
      → ((ps : List (Position F)) → IsPassed (first ps))
      → IsPassedIfOk (r >>= (λ ps. ok (first ps)))
  passed_reads (ok ps) first each = each ps
  passed_reads (err e) first each = tt

  check_stop_loss-IsPassed :
      (s : S) (env : Surroundings F) (symbol : String) (price : F)
      → IsPassedIfOk (check_stop_loss w s env symbol price)
  unfolding check_stop_loss first_stop
  check_stop_loss-IsPassed s env symbol price = elim (Bool-cases w.has_position_reader) [
    | inl there ↦ rw there (
        passed_reads (env.stop_loss_read symbol "BUY") (first_stop w s env.now symbol price)
          (first_stop-IsPassed s env.now symbol price))
    | inr missing ↦ rw missing tt
  ]

  check_take_profit-IsPassed :
      (s : S) (env : Surroundings F) (symbol : String) (price : F)
      → IsPassedIfOk (check_take_profit w s env symbol price)
  unfolding check_take_profit first_take
  check_take_profit-IsPassed s env symbol price = elim (Bool-cases w.has_position_reader) [
    | inl there ↦ rw there (
        passed_reads (env.take_profit_read symbol "BUY") (first_take w s env.now symbol price)
          (first_take-IsPassed s env.now symbol price))
    | inr missing ↦ rw missing tt
  ]

  then_take_profit :
      (s : S) (env : Surroundings F) (symbol : String) (price : F)
      (r : Result Failure (Option (Signal F)))
      → IsPassedIfOk r
      → IsPassedIfOk (r >>= or_take_profit w s env symbol price)
  then_take_profit s env symbol price (ok none) h = check_take_profit-IsPassed s env symbol price
  then_take_profit s env symbol price (ok (some signal)) h = h
  then_take_profit s env symbol price (err e) h = tt

  -- Every stop-loss or take-profit signal that the strategy worker raises, at any price and for any open
  -- positions, passes the risk manager whenever that can read the balance: no limit on the trades,
  -- their interval or the losses holds it back.
  pub forced_exit_signal-passes :
      (s : S) (env : Surroundings F) (symbol : String) (price : F) {signal : Signal F}
      → forced_exit_signal w s env symbol price ≡ ok (some signal)
      → check_risk_management cfg ask signal ≡ ok tt
  unfolding forced_exit_signal
  forced_exit_signal-passes s env symbol price {signal} found = subst IsPassedIfOk found (
      then_take_profit s env symbol price (check_stop_loss w s env symbol price)
        (check_stop_loss-IsPassed s env symbol price))
