-- ===== src/Configuration/Usable.antt =====
-- What a validated configuration has.
use gogocoin.Prelude.{
  ◌≡◌, refl, subst, ap, String, Bool, true, false, ◌||◌, Option, Result, ok, err, ◌>>◌, >>-eq-ok,
  reject_if, reject_if-eq-ok, str_eq, arith,
}
use gogocoin.Prelude.Int.{ℤ, pos, ltb_ℤ, leb_ℤ}
use gogocoin.Float.{Float, IsIeee, IsFinite, ◌≺◌, ◌≼◌, nought, number}
use gogocoin.Domain.{Time}
use gogocoin.Configuration.Settings.{
  Config, WorkerConfig, ApiConfig, TradingConfig, is_nought, or_standard,
}
use gogocoin.Configuration.Validation.{
  ConfigProblem, is_empty, check_trading, check_api, check_worker, with_defaults, validate_config,
  is_no_percentage, is_no_share, parse_pnl_epoch, no_app_name, no_balance, no_symbols,
  bad_total_loss, bad_trade_amount, checked, bad_sell_size, negative_retention, bad_port,
  bad_market_data_buffer, bad_signal_buffer, bad_reconnect_interval,
}

or_false : (a b : Bool) → (a || b) ≡ false → (a ≡ false) × (b ≡ false)
or_false a b h = (ground arith, ground arith)

-- the days that are kept, once the default is set
retained : (days : ℤ) → ltb_ℤ days (pos 0) ≡ false → ltb_ℤ (pos 0) (or_standard (pos 1) days) ≡ true
retained days h = ground arith

timed : (timeout : ℤ) → is_nought (or_standard (pos 30_000_000_000) timeout) ≡ false
timed timeout = ground arith

value_or : {E A : Type 0} → A → Result E A → A
value_or d (ok a) = a
value_or d (err e) = d

ok-injective : {E A : Type 0} (a b : A) → ◌≡◌ {A = Result E A} (ok a) (ok b) → a ≡ b
unfolding value_or
ok-injective a b e = ap (λ r. value_or a r) e

check_worker_lem :
    (w : WorkerConfig)
    → check_worker w ≡ ok tt
    → (leb_ℤ w.market_data_channel_buffer (pos 0) ≡ false)
      × (leb_ℤ w.signal_channel_buffer (pos 0) ≡ false)
      × (leb_ℤ w.reconnect_interval_seconds (pos 0) ≡ false)
      × (leb_ℤ w.max_concurrent_saves (pos 0) ≡ false)
unfolding check_worker
check_worker_lem w valid =
    let (a, rest) =
      >>-eq-ok (reject_if (leb_ℤ w.market_data_channel_buffer (pos 0)) bad_market_data_buffer) _
        valid in
    let (b, rest1) =
      >>-eq-ok (reject_if (leb_ℤ w.signal_channel_buffer (pos 0)) bad_signal_buffer) _ rest in
    let (c, d) =
      >>-eq-ok (reject_if (leb_ℤ w.reconnect_interval_seconds (pos 0)) bad_reconnect_interval) _
        rest1 in
    (reject_if-eq-ok _ _ a, reject_if-eq-ok _ _ b, reject_if-eq-ok _ _ c, reject_if-eq-ok _ _ d)

check_api_lem :
    (a : ApiConfig)
    → check_api a ≡ ok tt
    → (str_eq a.endpoint "" ≡ false)
      × (str_eq a.api_key "" ≡ false)
      × (str_eq a.api_secret "" ≡ false)
unfolding check_api
check_api_lem a valid = ground arith

module _ {F : Type 0} ⦃fl : Float F⦄ where
  -- above 0 and at most 1
  abbrev IsShare : F → Type 0
  IsShare x = ((nought ≺ x) ≡ true) × ((x ≼ number 1) ≡ true)

  -- above 0 and at most 100
  abbrev IsPercentage : F → Type 0
  IsPercentage x = ((nought ≺ x) ≡ true) × ((x ≼ number 100) ≡ true)

  -- money, symbols and the limits of the risk management
  abbrev TradesSafely : TradingConfig F → Type 0
  TradesSafely t =
      ((nought ≺ t.initial_balance) ≡ true)
      × (is_empty t.symbols ≡ false)
      × IsPercentage t.risk_management.max_total_loss_percent
      × IsPercentage t.risk_management.max_trade_amount_percent

  -- an address and credentials
  abbrev Connects : Config F → Type 0
  Connects c =
      (str_eq c.api.endpoint "" ≡ false)
      × (str_eq c.api.api_key "" ≡ false)
      × (str_eq c.api.api_secret "" ≡ false)
      × (is_nought c.api.timeout ≡ false)
      × (leb_ℤ c.ui_port (pos 0) ≡ false)
      × (ltb_ℤ (pos 65_535) c.ui_port ≡ false)

  -- buffers and numbers of the workers that are positive
  abbrev Works : Config F → Type 0
  Works c =
      (leb_ℤ c.worker.market_data_channel_buffer (pos 0) ≡ false)
      × (leb_ℤ c.worker.signal_channel_buffer (pos 0) ≡ false)
      × (leb_ℤ c.worker.reconnect_interval_seconds (pos 0) ≡ false)
      × (leb_ℤ c.worker.max_concurrent_saves (pos 0) ≡ false)
      × (ltb_ℤ (pos 0) c.retention_days ≡ true)
      × IsShare c.runtime.sell_size_percentage

  pub record IsUsable (c : Config F) : Type 0 where
    pub trades_safely : TradesSafely c.trading
    pub connects : Connects c
    pub works : Works c

  -- numbers, neither NaN nor infinite
  pub record AreNumbers (t : TradingConfig F) : Type 0 where
    pub balance_finite : IsFinite t.initial_balance
    pub loss_finite : IsFinite t.risk_management.max_total_loss_percent
    pub amount_finite : IsFinite t.risk_management.max_trade_amount_percent

module _ {F : Type 0} ⦃fl : Float F⦄ (ieee : IsIeee F) where
  positive : (x : F) → IsFinite x → (x ≼ nought) ≡ false → (nought ≺ x) ≡ true
  positive x finite h = ieee.lt_of_not-le x nought finite ieee.nought_finite h

  between :
      (top x : F)
      → IsFinite top
      → IsFinite x
      → (x ≼ nought || top ≺ x) ≡ false
      → ((nought ≺ x) ≡ true) × ((x ≼ top) ≡ true)
  between top x top_finite finite h =
      let (low, high) = or_false (x ≼ nought) (top ≺ x) h in
      (positive x finite low, ieee.le_of_not-lt top x top_finite finite high)

  check_trading_lem :
      (parse_time : String → Option Time) (t : TradingConfig F)
      → AreNumbers t
      → check_trading parse_time t ≡ ok tt
      → TradesSafely t
  unfolding check_trading
  check_trading_lem parse_time t numbers valid =
      let rm = t.risk_management in
      let tail3 = checked (parse_pnl_epoch parse_time rm.pnl_epoch) in
      let amount = reject_if (is_no_percentage rm.max_trade_amount_percent) bad_trade_amount in
      let tail2 : Result ConfigProblem (Unit {0}) = amount >> tail3 in
      let loss = reject_if (is_no_percentage rm.max_total_loss_percent) bad_total_loss in
      let tail1 = loss >> tail2 in
      let listed = reject_if (is_empty t.symbols) no_symbols in
      let (a, rest) =
        >>-eq-ok (reject_if (t.initial_balance ≼ nought) no_balance) (listed >> tail1) valid in
      let (b, rest1) = >>-eq-ok listed tail1 rest in
      let (c, rest2) = >>-eq-ok loss tail2 rest1 in
      let (d, _) = >>-eq-ok amount tail3 rest2 in
      (
        positive t.initial_balance numbers.balance_finite (reject_if-eq-ok _ _ a),
        reject_if-eq-ok _ _ b,
        between (number 100) rm.max_total_loss_percent ieee.hundred_finite numbers.loss_finite
            (reject_if-eq-ok _ _ c),
        between (number 100) rm.max_trade_amount_percent ieee.hundred_finite numbers.amount_finite
            (reject_if-eq-ok _ _ d),
      )

  -- Where the amounts and percentages are neither NaN nor infinite, `Validate` returns no error only for
  -- a configuration with a positive balance, symbols, percentages above 0 and at most 100, an address,
  -- credentials, a timeout that is not 0 and a port between 1 and 65535. With the defaults that it sets, the channels' buffers, the reconnect interval, the concurrent saves
  -- and the days of retention are positive, and the share of a SELL is above 0 and at most 1. The trading
  -- settings are as they were.
  pub validate_config-IsUsable :
      (parse_time : String → Option Time) (c c' : Config F)
      → AreNumbers c.trading
      → IsFinite (with_defaults c).runtime.sell_size_percentage
      → validate_config parse_time c ≡ ok c'
      → IsUsable c' × (c'.trading ≡ c.trading)
  unfolding validate_config with_defaults check_trading check_api check_worker
  validate_config-IsUsable parse_time c c' numbers share_finite valid =
      let d = with_defaults c in
      let share = reject_if (is_no_share d.runtime.sell_size_percentage) bad_sell_size in
      let days = reject_if (ltb_ℤ c.retention_days (pos 0)) negative_retention in
      let port = reject_if (leb_ℤ c.ui_port (pos 0) || ltb_ℤ (pos 65_535) c.ui_port) bad_port in
      let trading = check_trading parse_time c.trading in
      let tail5 : Result ConfigProblem (Config F) = share >> ok d in
      let tail4 = check_worker d.worker >> tail5 in
      let tail3 = days >> tail4 in
      let tail2 = port >> tail3 in
      let tail1 = check_api c.api >> tail2 in
      let (_, rest) =
        >>-eq-ok (reject_if (str_eq c.app_name "") no_app_name) (trading >> tail1) valid in
      let (trading_ok, rest1) = >>-eq-ok trading tail1 rest in
      let (api_ok, rest2) = >>-eq-ok (check_api c.api) tail2 rest1 in
      let (port_ok, rest3) = >>-eq-ok port tail3 rest2 in
      let (days_ok, rest4) = >>-eq-ok days tail4 rest3 in
      let (worker_ok, rest5) = >>-eq-ok (check_worker d.worker) tail5 rest4 in
      let (share_ok, same) = >>-eq-ok share (ok d) rest5 in
      let trades = check_trading_lem parse_time c.trading numbers trading_ok in
      let (endpoint, key, secret) = check_api_lem c.api api_ok in
      let (port_low, port_high) =
        or_false (leb_ℤ c.ui_port (pos 0)) (ltb_ℤ (pos 65_535) c.ui_port)
          (reject_if-eq-ok _ bad_port port_ok) in
      let (buffer, signals, interval, saves) = check_worker_lem d.worker worker_ok in
      let is_share =
        between (number 1) d.runtime.sell_size_percentage ieee.one_finite share_finite
          (reject_if-eq-ok _ bad_sell_size share_ok) in
      let kept = retained c.retention_days (reject_if-eq-ok _ negative_retention days_ok) in
      subst (λ x. IsUsable x × (x.trading ≡ c.trading)) (ok-injective d c' same)
        (
          record {
            trades_safely = trades;
            connects = (endpoint, key, secret, timed c.api.timeout, port_low, port_high);
            works = (buffer, signals, interval, saves, kept, is_share);
          },
          refl,
        )
