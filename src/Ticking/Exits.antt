-- ===== src/Ticking/Exits.antt =====
-- The worker's settings, and its look at stop-loss and take-profit prices.
use gogocoin.Prelude.{
  ℕ, String, Bool, Option, none, some, List, [], ◌∷◌, Result, ok, ◌>>=◌, if◌then◌else◌,
}
use gogocoin.Prelude.Int.{ℤ, pos, negsuc}
use gogocoin.Float.{Float, ◌≼◌, nought, number}
use gogocoin.Domain.{Time, Position}
use gogocoin.Strategy.{Strategy, Signal, text, float, signal_sell}
use gogocoin.Risk.{Failure}

-- The strategy is given; the position reader is optional.
pub record StrategyWorker (F S E : Type 0) : Type 0 where
  pub strategy : Strategy F S E
  pub history_limit : ℕ
  pub symbol_expiry_period : ℕ
  pub bar_period : ℕ
  pub has_position_reader : Bool
  pub trade_symbols : Option (List String)

-- How the waits of `sendSignal` end: there is room, the context is done, or the channel is full, and
-- then a wait ends with room, with the context done, or after `ForcedExitSendTimeout`.
pub data Delivery : Type 0 where
  room stopped : Delivery
  late_room late_stopped timed_out : Delivery

-- What one look at the exits, and one call of `sendSignal`, get from others: the clock, the open
-- positions as the two checks read them, the channel, and the clock after the call.
pub record Surroundings (F : Type 0) : Type 0 where
  pub now : Time
  pub stop_loss_read : String → String → Result Failure (List (Position F))
  pub take_profit_read : String → String → Result Failure (List (Position F))
  pub delivery : Delivery
  pub sent_at : Time

-- `SetBarPeriod`
abbrev pub set_bar_period : {F S E : Type 0} → ℤ → StrategyWorker F S E → StrategyWorker F S E
set_bar_period (pos n) w = record w { bar_period = n }
set_bar_period (negsuc n) w = record w { bar_period = 0 }

-- `SetTradeSymbols`
abbrev pub set_trade_symbols :
    {F S E : Type 0} → List String → StrategyWorker F S E → StrategyWorker F S E
set_trade_symbols [] w = record w { trade_symbols = none }
set_trade_symbols (s ∷ symbols) w = record w { trade_symbols = some (s ∷ symbols) }

module _ {F S E : Type 0} ⦃fl : Float F⦄ (w : StrategyWorker F S E) where
  abbrev pub exit_signal : Time → String → F → String → String → F → F → Signal F
  exit_signal now symbol price reason key entry limit = record {
    symbol = symbol;
    action = signal_sell;
    strength = number 1;
    price = price;
    quantity = nought;
    timestamp = now;
    metadata = ("reason", text reason) ∷ (("entry_price", float entry) ∷ ((key, float limit) ∷ []));
  }

  -- the loop of `checkStopLoss`: the first position that has reached its stop price
  unfoldable pub first_stop : S → Time → String → F → List (Position F) → Option (Signal F)
  first_stop s now symbol price [] = none
  first_stop s now symbol price (p ∷ ps) =
      let rest = first_stop s now symbol price ps in
      let stop = w.strategy.get_stop_loss_price s p.entry_price in
      if p.entry_price ≼ nought
      then rest
      else if stop ≼ nought
      then rest
      else if price ≼ stop
      then some (exit_signal now symbol price "stop_loss" "stop_price" p.entry_price stop)
      else rest

  -- the loop of `checkTakeProfit`
  unfoldable pub first_take : S → Time → String → F → List (Position F) → Option (Signal F)
  first_take s now symbol price [] = none
  first_take s now symbol price (p ∷ ps) =
      let rest = first_take s now symbol price ps in
      let target = w.strategy.get_take_profit_price s p.entry_price in
      if p.entry_price ≼ nought
      then rest
      else if target ≼ nought
      then rest
      else if target ≼ price
      then some (exit_signal now symbol price "take_profit" "take_price" p.entry_price target)
      else rest

  -- `checkStopLoss`
  unfoldable pub check_stop_loss :
      S → Surroundings F → String → F → Result Failure (Option (Signal F))
  check_stop_loss s env symbol price =
      if w.has_position_reader
      then env.stop_loss_read symbol "BUY" >>= (λ ps. ok (first_stop s env.now symbol price ps))
      else ok none

  -- `checkTakeProfit`
  unfoldable pub check_take_profit :
      S → Surroundings F → String → F → Result Failure (Option (Signal F))
  check_take_profit s env symbol price =
      if w.has_position_reader
      then env.take_profit_read symbol "BUY" >>= (λ ps. ok (first_take s env.now symbol price ps))
      else ok none

  abbrev pub or_take_profit :
      S → Surroundings F → String → F → Option (Signal F) → Result Failure (Option (Signal F))
  or_take_profit s env symbol price (some signal) = ok (some signal)
  or_take_profit s env symbol price none = check_take_profit s env symbol price

  -- `forcedExitSignal`
  unfoldable pub forced_exit_signal :
      S → Surroundings F → String → F → Result Failure (Option (Signal F))
  forced_exit_signal s env symbol price =
      check_stop_loss s env symbol price >>= or_take_profit s env symbol price
