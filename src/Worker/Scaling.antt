-- ===== src/Worker/Scaling.antt =====
-- The notional of an auto-scaled BUY.
use gogocoin.Prelude.{
  ◌≡◌, refl, true, false, ◌⊎◌, inl, inr, arith, Bool, ◌||◌, Bool-cases, if◌then◌else◌,
}
use gogocoin.Float.{Float, IsIeee, IsFinite, ◌≺◌, ◌≼◌, nought}
use gogocoin.Strategy.{AutoScaleConfig}
use gogocoin.Worker.Signals.{
  min_of, scale_target, cap_notional, affordable, compute_scaled_notional,
}

module _ {F : Type 0} ⦃fl : Float F⦄ (laws : IsIeee F) where
  open laws use {le_refl, le_trans, le_of_lt, le_of_not-lt, not-lt_of_le, nought_finite}

  -- `min_of` is the smaller of two finite numbers
  min_of_bounds :
      (cap x : F)
      → IsFinite cap
      → IsFinite x
      → IsFinite (min_of cap x) × ((min_of cap x ≼ cap) ≡ true) × ((min_of cap x ≼ x) ≡ true)
  min_of_bounds cap x c f =
      ground (arith, le_refl cap c, le_refl x f, le_of_lt cap x, le_of_not-lt cap x c f)

  cap_notional_bounds :
      (cfg : AutoScaleConfig F) (x : F)
      → IsFinite x
      → IsFinite cfg.max_notional
      → IsFinite (cap_notional cfg x)
        × ((((nought ≺ cfg.max_notional) ≡ false)
            ⊎ ((cap_notional cfg x ≼ cfg.max_notional) ≡ true)))
  cap_notional_bounds cfg x f m = ground (arith, min_of_bounds cfg.max_notional x m f)

  guarded :
      (c : Bool) (e x limit cap : F)
      → (e ≼ limit) ≡ true
      → (e ≼ x) ≡ true
      → ((nought ≺ cap) ≡ false) ⊎ ((x ≼ cap) ≡ true)
      → let n = if c then nought else if e ≺ nought then nought else e in
        (n ≡ nought)
        ⊎ (((n ≺ nought) ≡ false)
            × ((n ≼ limit) ≡ true)
            × (((nought ≺ cap) ≡ false) ⊎ ((n ≼ cap) ≡ true)))
  guarded true e x limit cap low less under = inl refl
  guarded false e x limit cap low less under = elim (Bool-cases (e ≺ nought)) [
    | inl negative ↦ rw negative (inl refl)
    | inr fine ↦
        rw (fine, fine)
          (inr (refl, low, elim under [ inl u ↦ inl u | inr u ↦ inr (le_trans e x cap less u) ]))
  ]

  -- The scaled notional is 0, or it is not negative, is within what the JPY balance affords with
  -- the fee, and is within the configured cap where there is one, if the balance's share, the cap
  -- and the affordable amount are finite.
  pub compute_scaled_notional_bounds :
      (base available : F) (cfg : AutoScaleConfig F)
      → IsFinite (scale_target base available cfg)
      → IsFinite cfg.max_notional
      → IsFinite (affordable available cfg)
      → let n = compute_scaled_notional base available cfg in
        (n ≡ nought)
        ⊎ (((n ≺ nought) ≡ false)
            × ((n ≼ affordable available cfg) ≡ true)
            × (((nought ≺ cfg.max_notional) ≡ false) ⊎ ((n ≼ cfg.max_notional) ≡ true)))
  unfolding compute_scaled_notional
  compute_scaled_notional_bounds base available cfg t m a =
      let scaled = cap_notional cfg (scale_target base available cfg) in
      let (f, under) = cap_notional_bounds cfg (scale_target base available cfg) t m in
      let (_, low, less) = min_of_bounds (affordable available cfg) scaled a f in
      guarded (base ≼ nought || available ≼ nought) (min_of (affordable available cfg) scaled)
        scaled (affordable available cfg) cfg.max_notional low less under
