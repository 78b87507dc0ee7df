-- ===== src/Worker/Resizing.antt =====
-- Auto scaling and lot rounding change nothing of a signal but its quantity and metadata.
use gogocoin.Prelude.{◌≡◌, some, arith}
use gogocoin.Float.{Float}
use gogocoin.Strategy.{Signal}
use gogocoin.Worker.Signals.{
  SignalWorker, round_buy_quantity, scale_buy, apply_auto_scale, scaled_signal,
}

module _ {F : Type 0} ⦃fl : Float F⦄ where
  -- a signal that differs from another in its quantity and metadata at most
  abbrev pub IsResized : Signal F → Signal F → Type 0
  IsResized s t = (t.symbol ≡ s.symbol) × (t.action ≡ s.action) × (t.price ≡ s.price)

  pub round_buy_quantity-IsResized :
      (w : SignalWorker F) (s : Signal F) {t : Signal F}
      → round_buy_quantity w s ≡ some t
      → IsResized s t
  unfolding round_buy_quantity
  round_buy_quantity-IsResized w s h = ground arith

  pub apply_auto_scale-IsResized :
      (w : SignalWorker F) (s : Signal F) {t : Signal F}
      → apply_auto_scale w s ≡ some t
      → IsResized s t
  unfolding apply_auto_scale scale_buy
  apply_auto_scale-IsResized w s h = grind (arith, round_buy_quantity-IsResized)

  pub scaled_signal-IsResized :
      (w : SignalWorker F) (s : Signal F) {t : Signal F}
      → scaled_signal w s ≡ some t
      → IsResized s t
  unfolding scaled_signal
  scaled_signal-IsResized w s {t} h = ground (arith, apply_auto_scale-IsResized w s {t = t})
