-- ===== src/Backtest/Types.antt =====
-- types.go, and the types of portfolio.go.
use gogocoin.Prelude.{ℕ, String, Option, List}
use gogocoin.Float.{Float, nought}
use gogocoin.Domain.{Time}

pub record Bar (F : Type 0) : Type 0 where
  pub symbol : String
  pub timestamp : Time
  pub open_price : F
  pub high : F
  pub low : F
  pub close : F
  pub volume : F

-- `Bar{}`
abbrev pub zero_bar : {F : Type 0} ⦃fl : Float F⦄ → Bar F
zero_bar = record {
  symbol = "";
  timestamp = 0;
  open_price = nought;
  high = nought;
  low = nought;
  close = nought;
  volume = nought;
}

pub data ExitReason : Type 0 where
  signal tp sl eod : ExitReason

-- A completed round trip. The only side is `SideLong`.
pub record Trade (F : Type 0) : Type 0 where
  pub symbol : String
  pub entry_time : Time
  pub entry_price : F
  pub exit_time : Time
  pub exit_price : F
  pub quantity : F
  pub notional : F
  pub gross_pnl : F
  pub fee : F
  pub slippage : F
  pub net_pnl : F
  pub reason : ExitReason
  pub hold_bars : ℕ

pub record EquityPoint (F : Type 0) : Type 0 where
  pub timestamp : Time
  pub cash : F
  pub equity : F
  pub drawdown : F

-- `SameBarRule` is a text; these are its constants.
abbrev pub same_bar_sl_priority : String
same_bar_sl_priority = "sl_priority"

abbrev pub same_bar_tp_priority : String
same_bar_tp_priority = "tp_priority"

abbrev pub same_bar_skip : String
same_bar_skip = "skip"

pub record SimulatorConfig (F : Type 0) : Type 0 where
  pub initial_balance : F
  pub fee_rate : F
  pub slippage_bps : F
  pub same_bar_rule : String
  pub min_volume_ratio : F

-- an open long position
pub record Position (F : Type 0) : Type 0 where
  pub symbol : String
  pub entry_time : Time
  pub entry_price : F
  pub quantity : F
  pub notional : F
  pub entry_fee : F
  pub entry_slip : F
  pub tp_price : F
  pub sl_price : F
  pub bars_held : ℕ

pub record Portfolio (F : Type 0) : Type 0 where
  pub cash : F
  pub peak : F
  pub position : Option (Position F)
  pub trades : List (Trade F)
  pub equity : List (EquityPoint F)
