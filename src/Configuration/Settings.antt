-- ===== src/Configuration/Settings.antt =====
-- config.go, worker.go and runtime.go: the fields that `Validate` reads or sets. Durations and `int`
-- are integers.
use gogocoin.Prelude.{ℕ, ◌*◌, String, Bool, ◌&&◌, List, if◌then◌else◌}
use gogocoin.Prelude.Int.{ℤ, pos, eqb_ℤ}
use gogocoin.Risk.{second}

pub record ApiConfig : Type 0 where
  pub endpoint : String
  pub api_key : String
  pub api_secret : String
  pub timeout : ℤ

pub record RiskManagementConfig (F : Type 0) : Type 0 where
  pub max_total_loss_percent : F
  pub max_trade_amount_percent : F
  pub pnl_epoch : String

pub record TradingConfig (F : Type 0) : Type 0 where
  pub initial_balance : F
  pub symbols : List String
  pub risk_management : RiskManagementConfig F

pub record MarketDataWorkerConfig : Type 0 where
  pub reconnect_interval : ℤ
  pub max_reconnect_interval : ℤ
  pub connection_check_interval : ℤ

pub record SignalWorkerConfig : Type 0 where
  pub performance_update_interval : ℤ
  pub evaluation_interval : ℤ

pub record StrategyWorkerConfig : Type 0 where
  pub cleanup_interval : ℤ
  pub history_retention_hours : ℤ
  pub bar_period : ℤ

pub record MaintenanceWorkerConfig : Type 0 where
  pub cleanup_interval : ℤ
  pub maintenance_interval : ℤ

pub record WorkerConfig : Type 0 where
  pub market_data_channel_buffer : ℤ
  pub signal_channel_buffer : ℤ
  pub reconnect_interval_seconds : ℤ
  pub max_reconnect_interval_seconds : ℤ
  pub connection_check_interval_seconds : ℤ
  pub stale_data_timeout_seconds : ℤ
  pub max_concurrent_saves : ℤ
  pub market_data : MarketDataWorkerConfig
  pub signal : SignalWorkerConfig
  pub strategy : StrategyWorkerConfig
  pub maintenance : MaintenanceWorkerConfig

pub record RuntimeConfig (F : Type 0) : Type 0 where
  pub sell_size_percentage : F
  pub history_limit : ℤ
  pub signal_strength_threshold : F

pub record Config (F : Type 0) : Type 0 where
  pub app_name : String
  pub api : ApiConfig
  pub trading : TradingConfig F
  pub ui_port : ℤ
  pub retention_days : ℤ
  pub worker : WorkerConfig
  pub runtime : RuntimeConfig F

abbrev pub is_nought : ℤ → Bool
is_nought n = eqb_ℤ n (pos 0)

-- `if c.Field == 0 { c.Field = defaults.Field }`
abbrev pub or_standard : ℤ → ℤ → ℤ
or_standard standard n = if is_nought n then standard else n

abbrev pub seconds : ℕ → ℤ
seconds n = pos (n * second)

-- `DefaultWorkerConfig`
abbrev pub default_worker_config : WorkerConfig
default_worker_config = record {
  market_data_channel_buffer = pos 1000;
  signal_channel_buffer = pos 100;
  reconnect_interval_seconds = pos 10;
  max_reconnect_interval_seconds = pos 300;
  connection_check_interval_seconds = pos 30;
  stale_data_timeout_seconds = pos 180;
  max_concurrent_saves = pos 10;
  market_data = record {
    reconnect_interval = seconds 10;
    max_reconnect_interval = seconds 300;
    connection_check_interval = seconds 30;
  };
  signal = record { performance_update_interval = seconds 300; evaluation_interval = seconds 1 };
  strategy = record {
    cleanup_interval = seconds 3600;
    history_retention_hours = pos 24;
    bar_period = pos 0;
  };
  maintenance = record {
    cleanup_interval = seconds 86_400;
    maintenance_interval = seconds 604_800;
  };
}

-- the comparisons with the zero values of the workers' structs
abbrev pub or_default_market_data : MarketDataWorkerConfig → MarketDataWorkerConfig
or_default_market_data c =
    if is_nought c.reconnect_interval
      && (is_nought c.max_reconnect_interval && is_nought c.connection_check_interval)
    then default_worker_config.market_data
    else c

abbrev pub or_default_signal : SignalWorkerConfig → SignalWorkerConfig
or_default_signal c =
    if is_nought c.performance_update_interval && is_nought c.evaluation_interval
    then default_worker_config.signal
    else c

abbrev pub or_default_strategy : StrategyWorkerConfig → StrategyWorkerConfig
or_default_strategy c =
    if is_nought c.cleanup_interval
      && (is_nought c.history_retention_hours && is_nought c.bar_period)
    then default_worker_config.strategy
    else c

abbrev pub or_default_maintenance : MaintenanceWorkerConfig → MaintenanceWorkerConfig
or_default_maintenance c =
    if is_nought c.cleanup_interval && is_nought c.maintenance_interval
    then default_worker_config.maintenance
    else c

-- the block of `Validate` for the workers
unfoldable pub worker_with_defaults : WorkerConfig → WorkerConfig
worker_with_defaults c =
    let d = default_worker_config in
    record {
      market_data_channel_buffer =
          or_standard d.market_data_channel_buffer c.market_data_channel_buffer;
      signal_channel_buffer = or_standard d.signal_channel_buffer c.signal_channel_buffer;
      reconnect_interval_seconds =
          or_standard d.reconnect_interval_seconds c.reconnect_interval_seconds;
      max_reconnect_interval_seconds =
          or_standard d.max_reconnect_interval_seconds c.max_reconnect_interval_seconds;
      connection_check_interval_seconds =
          or_standard d.connection_check_interval_seconds c.connection_check_interval_seconds;
      stale_data_timeout_seconds =
          or_standard d.stale_data_timeout_seconds c.stale_data_timeout_seconds;
      max_concurrent_saves = or_standard d.max_concurrent_saves c.max_concurrent_saves;
      market_data = or_default_market_data c.market_data;
      signal = or_default_signal c.signal;
      strategy = or_default_strategy c.strategy;
      maintenance = or_default_maintenance c.maintenance;
    }
