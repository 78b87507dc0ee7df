-- ===== src/Backtest/Exits.antt =====
-- simulator.go: at which price and for which reason `HandleExit` leaves a position.
use gogocoin.Prelude.{
  ◌≡◌, refl, ◌⊎◌, inl, inr, Bool, true, false, not, ◌&&◌, ◌||◌, Option, none, some, str_eq,
  if◌then◌else◌, arith,
}
use gogocoin.Float.{Float, ◌≺◌, ◌≼◌, nought}
use gogocoin.Backtest.Types.{
  Bar, ExitReason, SimulatorConfig, Position, same_bar_tp_priority, same_bar_skip,
}
use gogocoin.Backtest.Fills.{tp_hit, sl_hit, exit_of}

module _ {F : Type 0} ⦃fl : Float F⦄ (cfg : SimulatorConfig F) (pos : Position F) where
  -- what an exit has to satisfy when the bar reached the prices `t` and `s` says
  abbrev IsDueWhen : Bool → Bool → Bool → Bool → Option (F × ExitReason) → Type 0
  IsDueWhen t s first skip none = ((t || s) ≡ false) ⊎ ((t && s && skip) ≡ true)
  IsDueWhen t s first skip (some (price, ExitReason.tp)) =
      (price ≡ pos.tp_price) × ((t && (not s || first)) ≡ true)
  IsDueWhen t s first skip (some (price, ExitReason.sl)) =
      (price ≡ pos.sl_price) × ((s && (not t || not (first || skip))) ≡ true)
  IsDueWhen t s first skip (some (price, ExitReason.signal)) = ⊥
  IsDueWhen t s first skip (some (price, ExitReason.eod)) = ⊥

  -- the bar traded at a take-profit price that is set, or above it
  abbrev pub reaches_target : Bar F → Bool
  reaches_target bar = if nought ≺ pos.tp_price then pos.tp_price ≼ bar.high else false

  -- the bar traded at a stop-loss price that is set, or below it
  abbrev pub reaches_stop : Bar F → Bool
  reaches_stop bar = if nought ≺ pos.sl_price then bar.low ≼ pos.sl_price else false

  tp_hit-reaches_target : (bar : Bar F) → tp_hit bar pos ≡ reaches_target bar
  tp_hit-reaches_target bar = ground arith

  sl_hit-reaches_stop : (bar : Bar F) → sl_hit bar pos ≡ reaches_stop bar
  sl_hit-reaches_stop bar = ground arith

  abbrev pub IsDue : Bar F → Option (F × ExitReason) → Type 0
  IsDue bar =
      IsDueWhen (reaches_target bar) (reaches_stop bar)
        (str_eq cfg.same_bar_rule same_bar_tp_priority) (str_eq cfg.same_bar_rule same_bar_skip)

  due :
      (t s first skip : Bool)
      → IsDueWhen t s first skip (
          if t && s
          then (if first
              then some (pos.tp_price, ExitReason.tp)
              else if skip
              then none
              else some (pos.sl_price, ExitReason.sl))
          else if t
          then some (pos.tp_price, ExitReason.tp)
          else if s
          then some (pos.sl_price, ExitReason.sl)
          else none)
  due true true true skip = (refl, refl)
  due true true false true = inr refl
  due true true false false = (refl, refl)
  due true false first skip = (refl, refl)
  due false true first skip = (refl, refl)
  due false false first skip = inl refl

  -- A bar exits the position at the take-profit price only if that price is set and the bar's high is
  -- at or above it, at the stop-loss price only if that is set and the bar's low is at or below it,
  -- and for no other reason. When both were reached, it is the take-profit under the rule for it
  -- only, and the stop-loss only if the rule is not to skip such a bar either. The position stays
  -- open only if neither was reached or if both were and the rule is to skip.
  pub exit_of-IsDue : (bar : Bar F) → IsDue bar (exit_of cfg bar pos)
  unfolding exit_of
  exit_of-IsDue bar =
      rw (tp_hit-reaches_target bar, sl_hit-reaches_stop bar)
        (due (reaches_target bar) (reaches_stop bar) (str_eq cfg.same_bar_rule same_bar_tp_priority)
          (str_eq cfg.same_bar_rule same_bar_skip))
