-- ===== src/Ticking/Silence.antt =====
-- The worker without bars, under a strategy that keeps answering SELL.
use gogocoin.Prelude.{
  ◌≡◌, String, Bool, true, false, Option, none, some, List, Result, ok, err, str_eq, ◌&&◌,
}
use gogocoin.Float.{Float}
use gogocoin.Domain.{Time}
use gogocoin.Strategy.{Signal, MarketData, signal_sell}
use gogocoin.Ticking.Exits.{StrategyWorker}
use gogocoin.Ticking.Sending.{WorkerState}

module _ {F S E : Type 0} ⦃fl : Float F⦄ (w : StrategyWorker F S E) (symbol : String) where
  abbrev is_sell : Result E (Option (Signal F)) × S → Bool
  is_sell (ok (some signal), s) = str_eq signal.action signal_sell && str_eq signal.symbol symbol
  is_sell (ok none, s) = false
  is_sell (err e, s) = false

  -- the strategy answers SELL for the symbol, whatever it is given
  abbrev pub KeepsSelling : Type 0
  KeepsSelling =
      (now : Time) (history : List (MarketData F)) (s : S)
      → is_sell (w.strategy.analyze now history s) ≡ true

  -- The sent signals, the forced exits that were tried, the dropped signals and the failed reads of
  -- the positions are as they were.
  abbrev pub IsQuiet : WorkerState F S → WorkerState F S → Type 0
  IsQuiet before after =
      (after.sent ≡ before.sent)
      × (after.last_forced_exit_attempt ≡ before.last_forced_exit_attempt)
      × (after.dropped_signals ≡ before.dropped_signals)
      × (after.position_read_failures ≡ before.position_read_failures)
      × (after.last_sent_signals ≡ before.last_sent_signals)
