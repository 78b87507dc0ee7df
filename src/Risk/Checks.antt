-- ===== src/Risk/Checks.antt =====
-- What an approval by the risk manager means.
use gogocoin.Prelude.{
  ◌+◌, ◌≤◌, ◌≡◌, ◌≢◌, String, true, false, Option, none, some, List, [], ◌∷◌, Result, ok, err,
  arith, length, Bool-cases, count_if-le-length, inl, inr, str_eq, ◌==◌, ◌⊎◌, eq_iff, Result-cases,
  >>=-eq-ok, map_err-eq-ok, reject_if-eq-ok, >>-eq-ok, map_err,
}
use gogocoin.Prelude.Int.{pos, ◌≤ℤ◌, leb_ℤ}
use gogocoin.Float.{Float, ◌⊕◌, ◌⊗◌, ◌⊘◌, ◌≺◌, ◌≼◌, nought, number}
use gogocoin.Domain.{Balance, Position, Trade}
use gogocoin.Strategy.{Signal, signal_buy}
use gogocoin.Risk.Manager.{
  ManagerConfig, Answers, Failure, daily_limit_reached, jpy_available, min_interval, count_today,
  jst_day, last_interval, check_open, balance_unavailable, trades_unavailable, is_forced_exit_sell,
  check_trade_amount, check_daily_trade_limit, check_trade_interval, check_max_open_positions,
  check_buy, check_portfolio, check_risk_management, cumulative_pnl, loss_base, check_percent,
  check_measured, check_loss, check_total_loss_limit,
}

module _ {F : Type 0} ⦃fl : Float F⦄ (cfg : ManagerConfig F) (ask : Answers F)
    (signal : Signal F) where
  -- the number of open positions leaves room for one more, or it is not limited or cannot be read
  abbrev pub HasRoom : Option (String → String → Result Failure (List (Position F))) → Type 0
  HasRoom none = Unit
  HasRoom (some get) = elim (get signal.symbol "BUY") [
    | ok ps ↦
        (cfg.max_open_positions_per_symbol ≤ℤ pos 0)
        ⊎ (pos (length ps + 1) ≤ℤ cfg.max_open_positions_per_symbol)
    | err _ ↦ Unit
  ]

  -- the newest trade is at least the minimum interval old
  abbrev pub IsSpaced : List (Trade F) → Type 0
  IsSpaced [] = Unit
  IsSpaced (t ∷ ts) = t.executed_at + min_interval cfg ≤ ask.now

  -- a loss that can be borne: there is none, or no assets to measure it against, or it is at most the
  -- configured percentage of the assets, which are the JPY balance, or the initial balance instead
  abbrev pub IsBearable : Option F → Type 0
  IsBearable none = Unit
  IsBearable (some pnl) =
      ((fl.neg pnl ≼ nought) ≡ true)
      ⊎ ((bs : List (Balance F)) × (ask.balance_again ≡ ok bs)
          × (((loss_base cfg bs ≼ nought) ≡ true)
              ⊎ ((cfg.max_total_loss_percent ≺ fl.neg pnl ⊘ loss_base cfg bs ⊗ number 100)
                  ≡ false)))

  -- the cumulative PnL could be read, and its loss can be borne
  abbrev pub IsWithinLoss : Type 0
  IsWithinLoss = (pnl : Option F) × (cumulative_pnl cfg ask ≡ ok pnl) × IsBearable pnl

  check_percent_lem :
      (loss assets : F)
      → check_percent cfg loss assets ≡ ok tt
      → ((assets ≼ nought) ≡ true)
        ⊎ ((cfg.max_total_loss_percent ≺ loss ⊘ assets ⊗ number 100) ≡ false)
  check_percent_lem loss assets h = elim (Bool-cases (assets ≼ nought)) [
    | inl broke ↦ inl broke
    | inr rich ↦ inr (reject_if-eq-ok _ _ (rw rich at h))
  ]

  check_measured-IsBearable : (pnl : Option F) → check_measured cfg ask pnl ≡ ok tt → IsBearable pnl
  unfolding check_loss
  check_measured-IsBearable none h = tt
  check_measured-IsBearable (some pnl) h = elim (Bool-cases (fl.neg pnl ≼ nought)) [
    | inl gain ↦ inl gain
    | inr loss ↦
        let (bs, read, rest) =
          >>=-eq-ok (map_err balance_unavailable ask.balance_again) _ (rw loss at h) in
        inr (bs, map_err-eq-ok _ _ read, check_percent_lem (fl.neg pnl) (loss_base cfg bs) rest)
  ]

  check_total_loss_limit-IsWithinLoss : check_total_loss_limit cfg ask ≡ ok tt → IsWithinLoss
  unfolding check_total_loss_limit
  check_total_loss_limit-IsWithinLoss h =
      let (pnl, read, rest) = >>=-eq-ok (cumulative_pnl cfg ask) _ h in
      (pnl, read, check_measured-IsBearable pnl rest)

  -- what the checks of a BUY have established
  pub record IsApproved (bs : List (Balance F)) (day last : List (Trade F)) : Type 0 where
    pub funded : (jpy_available nought bs ≼ nought) ≡ false
    pub capped :
        (jpy_available nought bs ⊗ cfg.max_trade_amount_percent ⊘ number 100
          ≺ signal.price ⊗ signal.quantity ⊗ (number 1 ⊕ cfg.fee_rate))
        ≡ false
    pub room : HasRoom ask.open_positions
    pub below_limit : pos (count_today ask.now day + 1) ≤ℤ cfg.max_daily_trades
    pub spaced : IsSpaced last
    pub within_loss : IsWithinLoss

  daily_below :
      (day : List (Trade F))
      → leb_ℤ cfg.max_daily_trades (pos (count_today ask.now day)) ≡ false
      → pos (count_today ask.now day + 1) ≤ℤ cfg.max_daily_trades
  daily_below day h = ground arith

  last_interval-IsSpaced :
      (last : List (Trade F)) → last_interval cfg ask.now last ≡ ok tt → IsSpaced last
  last_interval-IsSpaced [] h = tt
  last_interval-IsSpaced (t ∷ ts) h = ground arith

  open_room :
      (get : Option (String → String → Result Failure (List (Position F))))
      → check_open cfg signal.symbol get ≡ ok tt
      → HasRoom get
  open_room none h = tt
  open_room (some get) h = ground arith

  is_forced_exit_sell_buy :
      str_eq signal.action signal_buy ≡ true → is_forced_exit_sell signal ≡ false
  unfolding is_forced_exit_sell
  is_forced_exit_sell_buy h = rw ((eq_iff signal.action signal_buy).0 h)

  amount_capped :
      (jpy : F)
      → str_eq signal.action signal_buy ≡ true
      → check_trade_amount cfg signal jpy ≡ ok tt
      → (jpy ⊗ cfg.max_trade_amount_percent ⊘ number 100
          ≺ signal.price ⊗ signal.quantity ⊗ (number 1 ⊕ cfg.fee_rate))
        ≡ false
  unfolding check_trade_amount
  amount_capped jpy buy h = reject_if-eq-ok _ _ (rw buy at h)

  -- A BUY that is approved is funded by a positive JPY balance, stays within the share of the
  -- balance that one trade may use, fees included, and comes while today's trades, counted among the
  -- last hundred, are below the daily limit, the newest trade is old enough, and the cumulative loss
  -- is at most the configured percentage of the assets, where there are any to measure it against.
  -- Where the open positions are limited and can be read, there is room for one more; where they
  -- cannot be read, the BUY is approved whatever their number is.
  pub check_risk_management-IsApproved :
      str_eq signal.action signal_buy ≡ true
      → check_risk_management cfg ask signal ≡ ok tt
      → (bs : List (Balance F)) × (day : List (Trade F)) × (last : List (Trade F)) × (ask.balance
          ≡ ok bs)
        × (ask.recent_trades 100 ≡ ok day)
        × (ask.recent_trades 1 ≡ ok last)
        × IsApproved bs day last
  unfolding check_risk_management check_buy check_portfolio check_max_open_positions
      check_daily_trade_limit check_trade_interval
  check_risk_management-IsApproved buy h =
      let (bs, read, rest) = >>=-eq-ok (map_err balance_unavailable ask.balance) _ h in
      let (bought, portfolio) = >>-eq-ok _ _ (rw (buy, is_forced_exit_sell_buy buy) at rest) in
      let (funded, limits) = >>-eq-ok _ _ bought in
      let (amount, vacancy) = >>-eq-ok _ _ limits in
      let (daily, later) = >>-eq-ok _ _ portfolio in
      let (interval, loss) = >>-eq-ok _ _ later in
      let (day, read_day, below) =
        >>=-eq-ok (map_err trades_unavailable (ask.recent_trades 100)) _ daily in
      let (last, read_last, spaced) =
        >>=-eq-ok (map_err trades_unavailable (ask.recent_trades 1)) _ interval in
      (
        bs,
        day,
        last,
        map_err-eq-ok _ _ read,
        map_err-eq-ok _ _ read_day,
        map_err-eq-ok _ _ read_last,
        record {
          funded = reject_if-eq-ok _ _ funded;
          capped = amount_capped (jpy_available nought bs) buy amount;
          room = open_room ask.open_positions vacancy;
          below_limit = daily_below day (reject_if-eq-ok _ _ below);
          spaced = last_interval-IsSpaced last spaced;
          within_loss = check_total_loss_limit-IsWithinLoss loss;
        },
      )

module _ {F : Type 0} ⦃fl : Float F⦄ where
  count_below :
      (cfg : ManagerConfig F) (ask : Answers F) (ts : List (Trade F))
      → length ts ≤ 100
      → pos 101 ≤ℤ cfg.max_daily_trades
      → leb_ℤ cfg.max_daily_trades (pos (count_today ask.now ts)) ≡ false
  count_below cfg ask ts few big =
      ground
        (arith, count_if-le-length (λ (t : Trade F). jst_day t.created_at == jst_day ask.now) ts)

  -- The daily limit counts at most a hundred trades: if the repository returns no more trades than it
  -- was asked for and the configured limit is above a hundred, the check never reports that the limit
  -- is reached.
  pub daily_limit_unreachable :
      (cfg : ManagerConfig F) (ask : Answers F)
      → ((ts : List (Trade F)) → ask.recent_trades 100 ≡ ok ts → length ts ≤ 100)
      → pos 101 ≤ℤ cfg.max_daily_trades
      → check_daily_trade_limit cfg ask ≢ err daily_limit_reached
  unfolding check_daily_trade_limit
  daily_limit_unreachable cfg ask few big h = elim (Result-cases (ask.recent_trades 100)) [
    | inl (ts, e) ↦ cc (rw (e, count_below cfg ask ts (few ts e) big) at h)
    | inr (f, e) ↦ cc (rw e at h)
  ]
