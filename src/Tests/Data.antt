-- ===== src/Tests/Data.antt =====
-- Sample data.
use gogocoin.Prelude.{String, none, some, [], ◌∷◌, Bool, true, false, ok, List}
use gogocoin.Prelude.Int.{ℤ, pos}
use gogocoin.Domain.{Balance, Position, OrderResult}
use gogocoin.Persistence.{Store}
use gogocoin.Strategy.{Signal, AutoScaleConfig, Metadata, text}
use gogocoin.Risk.{ManagerConfig, Answers}
use gogocoin.Risk.{check_risk_management}
use gogocoin.Worker.{SignalWorker}
use gogocoin.Float.Exact.{exact_float}

abbrev pub lot : String → ℤ → ℤ → Position ℤ
lot id size price = record {
  symbol = "BTC_JPY";
  product_code = "BTC_JPY";
  side = "BUY";
  size = size;
  used_size = pos 0;
  remaining_size = size;
  entry_price = price;
  current_price = price;
  unrealized_pl = pos 0;
  pnl = pos 0;
  status = "OPEN";
  order_id = id;
  created_at = 1;
  updated_at = 1;
}

abbrev pub fill : String → ℤ → ℤ → OrderResult ℤ
fill side size price = record {
  order_id = "order";
  symbol = "BTC_JPY";
  side = side;
  type = "MARKET";
  size = size;
  price = price;
  status = "COMPLETED";
  filled_size = size;
  remaining_size = pos 0;
  average_price = price;
  total_commission = pos 0;
  fee = pos 2;
  created_at = 10;
  updated_at = 11;
}

abbrev pub two_lots : List (Position ℤ)
two_lots = lot "a" (pos 3) (pos 100) ∷ (lot "b" (pos 5) (pos 110) ∷ [])

abbrev pub store_with : List Bool → Store ℤ
store_with faults = record { positions = two_lots; trades = []; faults = faults }

abbrev pub signal_for : String → Metadata ℤ → Signal ℤ
signal_for action metadata = record {
  symbol = "BTC_JPY";
  action = action;
  strength = pos 1;
  price = pos 100;
  quantity = pos 2;
  timestamp = 5;
  metadata = metadata;
}

abbrev pub buy : Signal ℤ
buy = signal_for "BUY" []

abbrev pub sell : Signal ℤ
sell = signal_for "SELL" []

abbrev pub stop_loss : Signal ℤ
stop_loss = signal_for "SELL" (("reason", text "stop_loss") ∷ [])

abbrev pub config : ℤ → ManagerConfig ℤ
config daily = record {
  max_total_loss_percent = pos 50;
  max_trade_loss_percent = pos 10;
  max_daily_loss_percent = pos 10;
  max_trade_amount_percent = pos 50;
  max_daily_trades = daily;
  min_trade_interval = 60;
  max_open_positions_per_symbol = pos 3;
  pnl_epoch = 0;
  fee_rate = pos 0;
  initial_balance = pos 10_000;
}

abbrev pub funds : String → ℤ → Balance ℤ
funds currency x = record { currency = currency; amount = x; available = x; timestamp = 5 }

abbrev pub wallet : List (Balance ℤ)
wallet = funds "JPY" (pos 10_000) ∷ (funds "BTC" (pos 4) ∷ [])

abbrev pub answers : Answers ℤ
answers = record {
  now = 1000;
  balance = ok wallet;
  balance_again = ok wallet;
  recent_trades = λ n. ok [];
  trades_since = λ t. ok [];
  total_pnls = λ n. ok (pos 20 ∷ []);
  open_positions = none;
}

abbrev pub scaling : AutoScaleConfig ℤ
scaling = record { enabled = true; balance_pct = pos 10; max_notional = pos 800; fee_rate = pos 0 }

abbrev pub worker : SignalWorker ℤ
worker = record {
  trading_enabled = true;
  risk_checker = check_risk_management (config (pos 10)) answers;
  balance = ok wallet;
  place_order = λ o. ok "id";
  auto_scale = scaling;
  lot_size_svc = some (λ s. ok (pos 1));
  position_reader = some (λ s side. ok two_lots);
  has_position_closer = true;
  sell_size_percentage = pos 1;
  shared_wallet = false;
}
