-- ===== src/Backtest/Fills.antt =====
-- simulator.go. A step returns the trade that it closed, if any, and the portfolio; the outer `none`
-- is a panic of `CloseLong`. The wall clock is the constant argument `now`.
use gogocoin.Prelude.{
  ◌+◌, Bool, true, false, not, ◌&&◌, ◌||◌, Option, none, some, if◌then◌else◌, str_eq,
}
use gogocoin.Float.{Float, ◌⊕◌, ◌⊖◌, ◌⊗◌, ◌⊘◌, ◌≺◌, ◌≼◌, nought, number}
use gogocoin.Domain.{Time}
use gogocoin.Strategy.{Signal, Strategy, signal_buy, signal_sell}
use gogocoin.Backtest.Types.{
  Bar, Trade, ExitReason, SimulatorConfig, Position, Portfolio, same_bar_sl_priority,
  same_bar_tp_priority, same_bar_skip,
}
use gogocoin.Backtest.Book.{open_long, close_long}

module _ {F : Type 0} ⦃fl : Float F⦄ where
  -- `NewSimulator`: the rule defaults to the stop-loss
  unfoldable pub new_simulator : SimulatorConfig F → SimulatorConfig F
  new_simulator cfg =
      if str_eq cfg.same_bar_rule ""
      then record cfg { same_bar_rule = same_bar_sl_priority }
      else cfg

  abbrev pub tp_hit : Bar F → Position F → Bool
  tp_hit bar pos = nought ≺ pos.tp_price && pos.tp_price ≼ bar.high

  abbrev pub sl_hit : Bar F → Position F → Bool
  sl_hit bar pos = nought ≺ pos.sl_price && bar.low ≼ pos.sl_price

  abbrev pub both_hit : SimulatorConfig F → Position F → Option (F × ExitReason)
  both_hit cfg pos =
      if str_eq cfg.same_bar_rule same_bar_tp_priority
      then some (pos.tp_price, ExitReason.tp)
      else if str_eq cfg.same_bar_rule same_bar_skip
      then none
      else some (pos.sl_price, ExitReason.sl)

  -- the `switch` of `HandleExit`
  unfoldable pub exit_of : SimulatorConfig F → Bar F → Position F → Option (F × ExitReason)
  exit_of cfg bar pos =
      if tp_hit bar pos && sl_hit bar pos
      then both_hit cfg pos
      else if tp_hit bar pos
      then some (pos.tp_price, ExitReason.tp)
      else if sl_hit bar pos
      then some (pos.sl_price, ExitReason.sl)
      else none

  abbrev pub unchanged : Portfolio F → Option (Option (Trade F) × Portfolio F)
  unchanged p = some (none, p)

  abbrev pub closed : Option (Trade F × Portfolio F) → Option (Option (Trade F) × Portfolio F)
  closed none = none
  closed (some (t, p)) = some (some t, p)

  abbrev pub leave :
      SimulatorConfig F
      → Bar F
      → Portfolio F
      → Position F
      → Option (F × ExitReason)
      → Option (Option (Trade F) × Portfolio F)
  leave cfg bar p pos none = unchanged p
  leave cfg bar p pos (some (price, reason)) =
      let proceeds = price ⊗ pos.quantity in
      let slip = proceeds ⊗ cfg.slippage_bps ⊘ number 10_000 in
      let fee = proceeds ⊗ cfg.fee_rate in closed (close_long bar.timestamp price fee slip reason p)

  abbrev pub exit_position :
      SimulatorConfig F
      → Bar F
      → Portfolio F
      → Option (Position F)
      → Option (Option (Trade F) × Portfolio F)
  exit_position cfg bar p none = unchanged p
  exit_position cfg bar p (some pos) =
      let held = record pos { bars_held = pos.bars_held + 1 } in
      leave cfg bar (record p { position = some held }) held (exit_of cfg bar held)

  -- `HandleExit`
  unfoldable pub handle_exit :
      SimulatorConfig F → Bar F → Portfolio F → Option (Option (Trade F) × Portfolio F)
  handle_exit cfg bar p = exit_position cfg bar p p.position

  abbrev pub slip_pct : SimulatorConfig F → F
  slip_pct cfg = cfg.slippage_bps ⊘ number 10_000

  -- the position that a BUY of `notional` opens on the next bar, at take-profit and stop-loss
  -- prices computed from the entry price
  unfoldable pub entry_of : SimulatorConfig F → Bar F → Bar F → F → (F → F) → (F → F) → Position F
  entry_of cfg bar next notional tp sl =
      let price = next.open_price ⊗ (number 1 ⊕ slip_pct cfg) in
      let qty = notional ⊘ price in
      let actual = price ⊗ qty in
      record {
        symbol = bar.symbol;
        entry_time = next.timestamp;
        entry_price = price;
        quantity = qty;
        notional = actual;
        entry_fee = actual ⊗ cfg.fee_rate;
        entry_slip = actual ⊗ slip_pct cfg;
        tp_price = tp price;
        sl_price = sl price;
        bars_held = 0;
      }

  -- the volume sanity check fails
  abbrev pub too_thin : SimulatorConfig F → Bar F → F → Bool
  too_thin cfg next notional =
      let price = next.open_price ⊗ (number 1 ⊕ slip_pct cfg) in
      nought ≺ cfg.min_volume_ratio
      && nought ≺ next.volume
      && next.volume ≺ cfg.min_volume_ratio ⊗ notional ⊘ price

  abbrev pub too_poor : SimulatorConfig F → Portfolio F → F → Bool
  too_poor cfg p notional = p.cash ≺ notional ⊗ (number 1 ⊕ cfg.fee_rate ⊕ slip_pct cfg)

  module _ {S E : Type 0} (strat : Strategy F S E) where
    open strat use {get_take_profit_price, get_stop_loss_price, get_base_notional, record_trade}

    -- the SELL case with a position
    abbrev pub sell_position :
        Time
        → SimulatorConfig F
        → Bar F
        → Portfolio F
        → S
        → Option (Position F)
        → Option (Option (Trade F) × Portfolio F × S)
    sell_position now cfg next p s none = some (none, p, s)
    sell_position now cfg next p s (some pos) =
        let price = next.open_price ⊗ (number 1 ⊖ slip_pct cfg) in
        let proceeds = price ⊗ pos.quantity in
        elim (close_long next.timestamp price (proceeds ⊗ cfg.fee_rate) (proceeds ⊗ slip_pct cfg)
          ExitReason.signal p) [
            | none ↦ none
            | some (t, p') ↦ some (some t, p', record_trade now s)
          ]

    -- the BUY case without a position
    unfoldable pub enter :
        Time
        → SimulatorConfig F
        → Bar F
        → Bar F
        → Portfolio F
        → S
        → Option (Option (Trade F) × Portfolio F × S)
    enter now cfg bar next p s =
        let notional = get_base_notional s bar.symbol in
        if notional ≼ nought || too_thin cfg next notional || too_poor cfg p notional
        then some (none, p, s)
        else some (
          none,
          open_long
              (entry_of cfg bar next notional (get_take_profit_price s) (get_stop_loss_price s)) p,
          record_trade now s,
        )

    abbrev pub has_position : Option (Position F) → Bool
    has_position none = false
    has_position (some _) = true

    -- `HandleSignal` for a signal that is not nil
    unfoldable pub handle_signal :
        Time
        → SimulatorConfig F
        → Bar F
        → Bar F
        → Signal F
        → Bool
        → Portfolio F
        → S
        → Option (Option (Trade F) × Portfolio F × S)
    handle_signal now cfg bar next signal has_next p s =
        if str_eq signal.action signal_buy
        then (if has_position p.position || not has_next
            then some (none, p, s)
            else enter now cfg bar next p s)
        else if str_eq signal.action signal_sell
        then (if not has_next then some (none, p, s) else sell_position now cfg next p s p.position)
        else some (none, p, s)

  abbrev pub force_position :
      SimulatorConfig F
      → Time
      → F
      → Portfolio F
      → Option (Position F)
      → Option (Option (Trade F) × Portfolio F)
  force_position cfg t price p none = unchanged p
  force_position cfg t price p (some pos) =
      closed (close_long t price (price ⊗ pos.quantity ⊗ cfg.fee_rate) nought ExitReason.eod p)

  -- `ForceClose`
  unfoldable pub force_close :
      SimulatorConfig F → Time → F → Portfolio F → Option (Option (Trade F) × Portfolio F)
  force_close cfg t price p = force_position cfg t price p p.position
