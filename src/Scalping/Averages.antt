-- ===== src/Scalping/Averages.antt =====
-- `calcEMA`, which both strategies have, and `calcRSI`. A negative period makes `calcEMA` read in
-- front of the history, which panics: `none`.
use gogocoin.Prelude.{
  ℕ, suc, ◌-◌, Option, none, some, List, [], ◌∷◌, length, take, drop, ltb, if◌then◌else◌,
}
use gogocoin.Prelude.Int.{ℤ, pos, negsuc}
use gogocoin.Float.{Float, ◌⊕◌, ◌⊖◌, ◌⊗◌, ◌⊘◌, ◌≺◌, ◌≐◌, nought, number}
use gogocoin.Strategy.{MarketData}

module _ {F : Type 0} ⦃fl : Float F⦄ where
  abbrev pub sum_prices : F → List (MarketData F) → F
  sum_prices sum [] = sum
  sum_prices sum (d ∷ ds) = sum_prices (sum ⊕ d.price) ds

  abbrev pub smooth : F → F → List (MarketData F) → F
  smooth k ema [] = ema
  smooth k ema (d ∷ ds) = smooth k ((d.price ⊖ ema) ⊗ k ⊕ ema) ds

  -- `calcEMA`
  unfoldable pub calc_ema : List (MarketData F) → ℤ → Option F
  calc_ema history (negsuc n) = none
  calc_ema history (pos n) =
      let seed = sum_prices nought (take n history) ⊘ fl.of_int (pos n) in
      let k = number 2 ⊘ fl.of_int (pos (suc n)) in
      if ltb (length history) n then some nought else some (smooth k seed (drop n history))

  -- the gains and the losses from one price to the next
  abbrev pub gains_losses : F → F → F → List (MarketData F) → F × F
  gains_losses last gains losses [] = (gains, losses)
  gains_losses last gains losses (d ∷ ds) =
      let delta = d.price ⊖ last in
      if nought ≺ delta
      then gains_losses d.price (gains ⊕ delta) losses ds
      else gains_losses d.price gains (losses ⊖ delta) ds

  abbrev pub changes : List (MarketData F) → F × F
  changes [] = (nought, nought)
  changes (d ∷ ds) = gains_losses d.price nought nought ds

  -- `calcRSI`, for a period that is not negative
  unfoldable pub calc_rsi : List (MarketData F) → ℕ → F
  calc_rsi history period =
      let (gains, losses) = changes (drop (length history - suc period) history) in
      let avg_gain = gains ⊘ fl.of_int (pos period) in
      let avg_loss = losses ⊘ fl.of_int (pos period) in
      if ltb (length history) (suc period)
      then number 50
      else if avg_loss ≐ nought
      then number 100
      else number 100 ⊖ number 100 ⊘ (number 1 ⊕ avg_gain ⊘ avg_loss)
