-- ===== src/Strategy/Types.antt =====
-- signal.go, market_data.go, strategy.go.
use gogocoin.Prelude.{
  String, Bool, Option, none, some, List, [], ◌∷◌, Result, if◌then◌else◌, str_eq,
}
use gogocoin.Prelude.Int.{ℤ}
use gogocoin.Domain.{Time}

-- a value of type `interface{}`; `other` is one of a type that the program never asserts
pub data Any (F : Type 0) : Type 0 where
  text : String → Any F
  float : F → Any F
  int : ℤ → Any F
  other : Any F

-- `map[string]interface{}`, the latest entry of a key first
abbrev pub Metadata : Type 0 → Type 0
Metadata F = List (String × Any F)

abbrev pub lookup : {V : Type 0} → String → List (String × V) → Option V
lookup k [] = none
lookup k ((j, v) ∷ m) = if str_eq j k then some v else lookup k m

-- `s, _ := v.(string)`: the empty text where the key is missing or the type is another
abbrev pub as_text : {F : Type 0} → Option (Any F) → String
as_text (some (text s)) = s
as_text _ = ""

-- `SignalAction` is a text; these are its constants.
abbrev pub signal_buy : String
signal_buy = "BUY"

abbrev pub signal_sell : String
signal_sell = "SELL"

abbrev pub signal_hold : String
signal_hold = "HOLD"

pub record Signal (F : Type 0) : Type 0 where
  pub symbol : String
  pub action : String
  pub strength : F
  pub price : F
  pub quantity : F
  pub timestamp : Time
  pub metadata : Metadata F

pub record MarketData (F : Type 0) : Type 0 where
  pub symbol : String
  pub product_code : String
  pub timestamp : Time
  pub price : F
  pub volume : F
  pub best_bid : F
  pub best_ask : F
  pub spread : F
  pub open_price : F
  pub high : F
  pub low : F
  pub close : F

pub record AutoScaleConfig (F : Type 0) : Type 0 where
  pub enabled : Bool
  pub balance_pct : F
  pub max_notional : F
  pub fee_rate : F

-- The methods of `Strategy` that the engines and the strategy worker call, on a state `S` and with an error type `E`. The
-- signal may be nil. `now` is the wall clock.
pub record Strategy (F S E : Type 0) : Type 0 where
  pub generate_signal :
      Time → MarketData F → List (MarketData F) → S → Result E (Option (Signal F)) × S
  pub analyze : Time → List (MarketData F) → S → Result E (Option (Signal F)) × S
  pub start : Time → S → Result E S
  pub stop : Time → S → S
  pub name : S → String
  pub record_trade : Time → S → S
  pub get_stop_loss_price : S → F → F
  pub get_take_profit_price : S → F → F
  pub get_base_notional : S → String → F
  pub get_auto_scale_config : S → AutoScaleConfig F
