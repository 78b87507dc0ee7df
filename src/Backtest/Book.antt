-- ===== src/Backtest/Book.antt =====
-- portfolio.go.
use gogocoin.Prelude.{Option, none, some, [], ◌∷◌, ◌++◌, if◌then◌else◌}
use gogocoin.Float.{Float, ◌⊕◌, ◌⊖◌, ◌⊗◌, ◌⊘◌, ◌≺◌, nought}
use gogocoin.Domain.{Time}
use gogocoin.Backtest.Types.{Trade, EquityPoint, ExitReason, Position, Portfolio}

module _ {F : Type 0} ⦃fl : Float F⦄ where
  abbrev pub new_portfolio : F → Portfolio F
  new_portfolio cash = record {
    cash = cash;
    peak = cash;
    position = none;
    trades = [];
    equity = [];
  }

  -- `MarkValue`
  abbrev pub mark_value : Position F → F → F
  mark_value pos p = pos.quantity ⊗ p

  abbrev pub marked : F → F → Option (Position F) → F
  marked cash price none = cash
  marked cash price (some pos) = cash ⊕ mark_value pos price

  -- `MarkToMarket`
  unfoldable pub mark_to_market : Time → F → Portfolio F → Portfolio F
  mark_to_market t price p =
      let eq = marked p.cash price p.position in
      let peak = if p.peak ≺ eq then eq else p.peak in
      let dd = if nought ≺ peak then (eq ⊖ peak) ⊘ peak else nought in
      let point : EquityPoint F = record {
        timestamp = t;
        cash = p.cash;
        equity = eq;
        drawdown = dd;
      } in
      record p { peak = peak; equity = p.equity ++ (point ∷ []) }

  -- `OpenLong`
  unfoldable pub open_long : Position F → Portfolio F → Portfolio F
  open_long pos p = record p {
    position = some pos;
    cash = p.cash ⊖ (pos.notional ⊕ pos.entry_fee ⊕ pos.entry_slip);
  }

  -- the trade that `CloseLong` records
  unfoldable pub trade_of : Position F → Time → F → F → F → ExitReason → Trade F
  trade_of pos time price fee slip reason =
      let gross = (price ⊖ pos.entry_price) ⊗ pos.quantity in
      let total_fee = pos.entry_fee ⊕ fee in
      let total_slip = pos.entry_slip ⊕ slip in
      record {
        symbol = pos.symbol;
        entry_time = pos.entry_time;
        entry_price = pos.entry_price;
        exit_time = time;
        exit_price = price;
        quantity = pos.quantity;
        notional = pos.notional;
        gross_pnl = gross;
        fee = total_fee;
        slippage = total_slip;
        net_pnl = gross ⊖ total_fee ⊖ total_slip;
        reason = reason;
        hold_bars = pos.bars_held;
      }

  abbrev pub close_position :
      Time
      → F
      → F
      → F
      → ExitReason
      → Portfolio F
      → Option (Position F)
      → Option (Trade F × Portfolio F)
  close_position time price fee slip reason p none = none
  close_position time price fee slip reason p (some pos) =
      let t = trade_of pos time price fee slip reason in
      some (
        t,
        record p {
          cash = p.cash ⊕ (price ⊗ pos.quantity ⊖ fee ⊖ slip);
          trades = p.trades ++ (t ∷ []);
          position = none;
        },
      )

  -- `CloseLong`; `none` is the panic without an open position
  unfoldable pub close_long :
      Time → F → F → F → ExitReason → Portfolio F → Option (Trade F × Portfolio F)
  close_long time price fee slip reason p = close_position time price fee slip reason p p.position
