-- ===== src/Report/Ratios.antt =====
-- The statistics of the equity curve.
use gogocoin.Prelude.{ℕ, Bool, ◌||◌, List, [], ◌∷◌, length, ltb, ◌==◌, count_if, if◌then◌else◌}
use gogocoin.Prelude.Int.{pos}
use gogocoin.Float.{Float, ◌⊕◌, ◌⊖◌, ◌⊗◌, ◌⊘◌, ◌≺◌, ◌≼◌, ◌≐◌, nought, number}
use gogocoin.Backtest.{EquityPoint}

module _ {F : Type 0} ⦃fl : Float F⦄ where
  abbrev pub count_of : {A : Type 0} → List A → F
  count_of xs = fl.of_int (pos (length xs))

  abbrev returns_after : F → List (EquityPoint F) → List F
  returns_after prev [] = []
  returns_after prev (p ∷ ps) =
      let rest = returns_after p.equity ps in
      if prev ≼ nought then rest else (p.equity ⊖ prev) ⊘ prev ∷ rest

  -- `equityReturns`
  unfoldable pub equity_returns : List (EquityPoint F) → List F
  equity_returns [] = []
  equity_returns (p ∷ ps) = returns_after p.equity ps

  abbrev sum_up : F → List F → F
  sum_up sum [] = sum
  sum_up sum (x ∷ xs) = sum_up (sum ⊕ x) xs

  abbrev deviations : F → F → List F → F
  deviations mean ss [] = ss
  deviations mean ss (x ∷ xs) = deviations mean (ss ⊕ (x ⊖ mean) ⊗ (x ⊖ mean)) xs

  -- `meanStd`
  unfoldable pub mean_std : List F → F × F
  mean_std [] = (nought, nought)
  mean_std (x ∷ xs) =
      let n = count_of (x ∷ xs) in
      let mean = sum_up nought (x ∷ xs) ⊘ n in (mean, fl.sqrt (deviations mean nought (x ∷ xs) ⊘ n))

  -- the samples of a year
  abbrev per_year : ℕ → F → F
  per_year samples days = fl.of_int (pos samples) ⊘ days ⊗ number 365

  abbrev is_too_short : List F → F → Bool
  is_too_short rets days = ltb (length rets) 2 || (days ≼ nought)

  -- `annualisedSharpe`
  unfoldable pub annualised_sharpe : List F → ℕ → F → F
  annualised_sharpe rets samples days =
      let (mean, std) = mean_std rets in
      if is_too_short rets days
      then nought
      else if std ≐ nought
      then nought
      else mean ⊘ std ⊗ fl.sqrt (per_year samples days)

  abbrev down_squares : F → List F → F
  down_squares sum [] = sum
  down_squares sum (r ∷ rets) = down_squares (if r ≺ nought then sum ⊕ r ⊗ r else sum) rets

  -- `annualisedSortino`
  unfoldable pub annualised_sortino : List F → ℕ → F → F
  annualised_sortino rets samples days =
      let n = count_if (λ r. r ≺ nought) rets in
      let down_std = fl.sqrt (down_squares nought rets ⊘ fl.of_int (pos n)) in
      if is_too_short rets days
      then nought
      else if n == 0
      then nought
      else if down_std ≐ nought
      then nought
      else (mean_std rets).0 ⊘ down_std ⊗ fl.sqrt (per_year samples days)
