-- ===== src/Worker/Ghosts.antt =====
-- Which skipped SELLs make the worker close the open positions in the database.
use gogocoin.Prelude.{
  ◌≡◌, refl, true, false, none, some, List, [], ◌∷◌, ok, err, Bool, if◌then◌else◌,
}
use gogocoin.Float.{Float, IsIeee, ◌≐◌, nought}
use gogocoin.Domain.{Balance}
use gogocoin.Strategy.{Signal, signal_sell}
use gogocoin.Risk.{Failure}
use gogocoin.Worker.Signals.{
  SignalWorker, close_positions, base_currency, available_of, get_available_sell_size,
  sell_size_from, open_position_size, create_order_from_signal, check_and_order, scaled_signal,
  process_signal,
}

if_same : {A : Type 0} (b : Bool) (x : A) → (if b then x else x) ≡ x
if_same true x = refl
if_same false x = refl

module _ {F : Type 0} ⦃fl : Float F⦄ (laws : IsIeee F) (w : SignalWorker F)
    (signal : Signal F) where
  open laws use {eq_refl, nought_finite}

  zero_size_skipped :
      signal.action ≡ signal_sell
      → get_available_sell_size w signal.symbol signal.quantity ≡ nought
      → create_order_from_signal w signal ≡ none
  unfolding create_order_from_signal
  zero_size_skipped sell size = rw (sell, size, eq_refl nought nought_finite)

  zero_size_dispatched :
      signal.action ≡ signal_sell
      → w.risk_checker signal ≡ ok tt
      → w.has_position_closer ≡ true
      → get_available_sell_size w signal.symbol signal.quantity ≡ nought
      → check_and_order w signal ≡ close_positions signal.symbol "BUY" ∷ []
  unfolding check_and_order
  zero_size_dispatched sell approved closer size =
      rw (approved, zero_size_skipped sell size, check_and_order) (simp (sell, closer))

  zero_size_closes :
      w.trading_enabled ≡ true
      → signal.action ≡ signal_sell
      → w.risk_checker signal ≡ ok tt
      → w.has_position_closer ≡ true
      → get_available_sell_size w signal.symbol signal.quantity ≡ nought
      → process_signal w signal ≡ close_positions signal.symbol "BUY" ∷ []
  unfolding process_signal scaled_signal
  zero_size_closes on sell approved closer size =
      simp (on, sell) (zero_size_dispatched sell approved closer size)

  -- A SELL that passes the risk check while the balance cannot be read closes every open position
  -- of the symbol in the database, and places no order: the failed read is taken for dust.
  pub unreadable_balance_closes :
      {f : Failure}
      → w.trading_enabled ≡ true
      → signal.action ≡ signal_sell
      → w.risk_checker signal ≡ ok tt
      → w.has_position_closer ≡ true
      → w.balance ≡ err f
      → process_signal w signal ≡ close_positions signal.symbol "BUY" ∷ []
  unfolding get_available_sell_size
  unreadable_balance_closes on sell approved closer unread =
      zero_size_closes on sell approved closer (rw unread)

  -- On a shared wallet, a SELL for which the open positions cannot be read closes them all in the
  -- database, so that no later signal finds them, and places no order.
  pub unreadable_positions_close :
      {bs : List (Balance F)} {available : F}
      → w.trading_enabled ≡ true
      → signal.action ≡ signal_sell
      → w.risk_checker signal ≡ ok tt
      → w.has_position_closer ≡ true
      → w.shared_wallet ≡ true
      → w.balance ≡ ok bs
      → available_of (base_currency signal.symbol) bs ≡ some available
      → open_position_size w signal.symbol ≡ none
      → process_signal w signal ≡ close_positions signal.symbol "BUY" ∷ []
  unfolding get_available_sell_size sell_size_from open_position_size
  unreadable_positions_close {available} on sell approved closer shared read held unread =
      zero_size_closes on sell approved closer
        (rw (read, held, unread, shared) (if_same (available ≐ nought) nought))
