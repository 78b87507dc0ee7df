-- ===== src/Configuration/Validation.antt =====
-- `Config.Validate`: the configuration with its defaults, or the first error. `Load` drops the
-- configuration on an error. `parse_time` is `time.Parse` of package time for RFC 3339.
use gogocoin.Prelude.{
  String, Bool, true, false, ◌||◌, Option, none, some, List, [], ◌∷◌, Result, ok, err, reject_if,
  ◌>>◌, if◌then◌else◌, str_eq,
}
use gogocoin.Prelude.Int.{pos, ltb_ℤ, leb_ℤ}
use gogocoin.Float.{Float, ◌≺◌, ◌≼◌, ◌≐◌, nought, number}
use gogocoin.Domain.{Time, zero_time}
use gogocoin.Configuration.Settings.{
  ApiConfig, TradingConfig, WorkerConfig, RuntimeConfig, Config, or_standard, seconds,
  worker_with_defaults,
}

pub data ConfigProblem : Type 0 where
  no_app_name no_balance no_symbols bad_total_loss bad_trade_amount bad_epoch : ConfigProblem
  no_endpoint no_credentials bad_port negative_retention : ConfigProblem
  bad_market_data_buffer bad_signal_buffer bad_reconnect_interval bad_saves : ConfigProblem
  bad_sell_size : ConfigProblem

abbrev pub is_empty : {A : Type 0} → List A → Bool
is_empty [] = true
is_empty (x ∷ xs) = false

abbrev pub parsed : Option Time → Result ConfigProblem Time
parsed (some t) = ok t
parsed none = err bad_epoch

-- `ParsePnLEpoch`
unfoldable pub parse_pnl_epoch : (String → Option Time) → String → Result ConfigProblem Time
parse_pnl_epoch parse_time epoch =
    if str_eq epoch "" then ok zero_time else parsed (parse_time epoch)

abbrev pub checked : Result ConfigProblem Time → Result ConfigProblem (Unit {0})
checked (ok t) = ok tt
checked (err e) = err e

unfoldable pub check_api : ApiConfig → Result ConfigProblem (Unit {0})
check_api a =
    reject_if (str_eq a.endpoint "") no_endpoint
    >> reject_if (str_eq a.api_key "" || str_eq a.api_secret "") no_credentials

unfoldable pub check_worker : WorkerConfig → Result ConfigProblem (Unit {0})
check_worker w =
    reject_if (leb_ℤ w.market_data_channel_buffer (pos 0)) bad_market_data_buffer
    >> (reject_if (leb_ℤ w.signal_channel_buffer (pos 0)) bad_signal_buffer
        >> (reject_if (leb_ℤ w.reconnect_interval_seconds (pos 0)) bad_reconnect_interval
            >> reject_if (leb_ℤ w.max_concurrent_saves (pos 0)) bad_saves))

module _ {F : Type 0} ⦃fl : Float F⦄ where
  -- a percentage of the risk management
  abbrev pub is_no_percentage : F → Bool
  is_no_percentage x = (x ≼ nought) || (number 100 ≺ x)

  unfoldable pub check_trading :
      (String → Option Time) → TradingConfig F → Result ConfigProblem (Unit {0})
  check_trading parse_time t =
      let rm = t.risk_management in
      reject_if (t.initial_balance ≼ nought) no_balance
      >> (reject_if (is_empty t.symbols) no_symbols
          >> (reject_if (is_no_percentage rm.max_total_loss_percent) bad_total_loss
              >> (reject_if (is_no_percentage rm.max_trade_amount_percent) bad_trade_amount
                  >> checked (parse_pnl_epoch parse_time rm.pnl_epoch))))

  -- the defaults of `DefaultStrategyRuntimeConfig`
  unfoldable pub runtime_with_defaults : RuntimeConfig F → RuntimeConfig F
  runtime_with_defaults r = record {
    sell_size_percentage =
        if r.sell_size_percentage ≐ nought then fl.lit 95 100 else r.sell_size_percentage;
    history_limit = or_standard (pos 1000) r.history_limit;
    signal_strength_threshold =
        if r.signal_strength_threshold ≐ nought then fl.lit 1 2 else r.signal_strength_threshold;
  }

  unfoldable pub with_defaults : Config F → Config F
  with_defaults c = record c {
    api = record (c.api) { timeout = or_standard (seconds 30) c.api.timeout };
    retention_days = or_standard (pos 1) c.retention_days;
    worker = worker_with_defaults c.worker;
    runtime = runtime_with_defaults c.runtime;
  }

  abbrev pub is_no_share : F → Bool
  is_no_share x = (x ≼ nought) || (number 1 ≺ x)

  -- `Validate`
  unfoldable pub validate_config :
      (String → Option Time) → Config F → Result ConfigProblem (Config F)
  validate_config parse_time c =
      let c' = with_defaults c in
      reject_if (str_eq c.app_name "") no_app_name
      >> (check_trading parse_time c.trading
          >> (check_api c.api
              >> (reject_if (leb_ℤ c.ui_port (pos 0) || ltb_ℤ (pos 65_535) c.ui_port) bad_port
                  >> (reject_if (ltb_ℤ c.retention_days (pos 0)) negative_retention
                      >> (check_worker c'.worker
                          >> (reject_if (is_no_share c'.runtime.sell_size_percentage) bad_sell_size
                              >> ok c'))))))
