-- ===== src/Scalping/Limits.antt =====
-- The strategy over a sequence of market data, with a trade recorded for each BUY and SELL.
use gogocoin.Prelude.{
  ℕ, ◌≤◌, ◌≡◌, refl, ap, sym, subst, Bool, true, false, not, Option, none, some, List, [], ◌∷◌,
  Bool-cases, Option-cases, inl, inr, if◌then◌else◌, str_eq, arith,
}
use gogocoin.Prelude.Int.{ℤ, pos}
use gogocoin.Float.{Float}
use gogocoin.Domain.{Time, is_zero, or_now}
use gogocoin.Strategy.{MarketData, signal_hold}
use gogocoin.Risk.{jst_day}
use gogocoin.Scalping.Averages.{calc_ema}
use gogocoin.Scalping.Settings.{Params, ScalpingStrategy, new_strategy}
use gogocoin.Scalping.Deciding.{
  Answer, answered, panicked, is_short, is_in_cooldown, is_daily_limit_reached, decide,
  generate_signal, record_trade,
}
use gogocoin.Scalping.Days.{
  jst_day_mono, trades_on, IsDated, counted, counted-IsDated, within_limit, is_limited,
}

or_now_stamped : (clock t : Time) → is_zero t ≡ false → or_now clock t ≡ t
or_now_stamped clock t stamped = rw stamped refl

stamped_of : (t : Time) → 1 ≤ t → is_zero t ≡ false
stamped_of t h = ground arith

-- market data as it comes in, with the wall clock
pub record Observation (F : Type 0) : Type 0 where
  pub clock : Time
  pub market_data : MarketData F
  pub history : List (MarketData F)

module _ {F : Type 0} ⦃fl : Float F⦄ where
  -- a BUY, a SELL or any other action but HOLD
  abbrev pub acts : Answer F → Bool
  acts panicked = false
  acts (answered signal) = not (str_eq signal.action signal_hold)

  -- the market data has a time, which does not run backwards
  abbrev pub IsForward : Time → List (Observation F) → Type 0
  IsForward t [] = Unit
  IsForward t (o ∷ later) = let u = o.market_data.timestamp in (1 ≤ u) × (t ≤ u) × IsForward u later

  module _ (duration_seconds : ℤ → F) where
    abbrev recorded :
        Time → List Time → Answer F × ScalpingStrategy F → ScalpingStrategy F × List Time
    recorded clock log (answer, s) =
        if acts answer
        then (let s' = record_trade clock s in (s', s'.last_trade_time ∷ log))
        else (s, log)

    -- the strategy after the market data, and the times of the trades, the latest first
    abbrev pub played :
        List (Observation F) → ScalpingStrategy F → List Time → ScalpingStrategy F × List Time
    played [] s log = (s, log)
    played (o ∷ later) s log =
        let (s', log') =
          recorded o.clock log
            (generate_signal duration_seconds o.clock o.market_data o.history s) in
        played later s' log'

    decide_free :
        (now : Time) (s : ScalpingStrategy F) (d : MarketData F) (history : List (MarketData F))
        → acts (decide duration_seconds now s d history) ≡ true
        → is_daily_limit_reached now s ≡ false
    unfolding decide
    decide_free now s d history act =
        let p = s.params in
        elim (Bool-cases (is_short history p.ema_slow_period)) [
          | inl short ↦ let h = rw short at act in cc
          | inr enough ↦ elim (Option-cases (calc_ema history p.ema_fast_period)) [
            | inl no_fast ↦ let h = rw (enough, no_fast) at act in cc
            | inr (fast, f) ↦ elim (Option-cases (calc_ema history p.ema_slow_period)) [
              | inl no_slow ↦ let h = rw (enough, f, no_slow) at act in cc
              | inr (slow, e) ↦ elim (Bool-cases (is_in_cooldown duration_seconds now s)) [
                | inl cooling ↦ let h = rw (enough, f, e, cooling) at act in cc
                | inr warm ↦ elim (Bool-cases (is_daily_limit_reached now s)) [
                  | inl reached ↦ let h = rw (enough, f, e, warm, reached) at act in cc
                  | inr open_day ↦ open_day
                ]
              ]
            ]
          ]
        ]

    abbrev IsKept : ℕ → ScalpingStrategy F → List Time → Type 0
    IsKept most s log =
        (s.params.max_daily_trades ≡ pos most)
        × IsDated s.last_trade_date s.daily_trade_count s.last_seen_timestamp log
        × ((day : ℕ) → trades_on day log ≤ most)

    later-IsDated :
        (date : Option ℕ) (count : ℤ) (seen t : Time) (log : List Time)
        → IsDated date count seen log
        → seen ≤ t
        → IsDated date count t log
    later-IsDated none count seen t log empty le = empty
    later-IsDated (some day) count seen t log (e, before, known) le =
        (e, before, omega (arith, jst_day_mono seen t le))

    -- `record_trade` at a known time
    abbrev traded : ScalpingStrategy F → Time → ScalpingStrategy F
    traded s now = record s {
      last_trade_time = now;
      daily_trade_count = counted s.last_trade_date s.daily_trade_count (jst_day now);
      last_trade_date = some (jst_day now);
    }

    recorded-IsKept :
        (most : ℕ) (clock old : Time) (answer : Answer F) (s : ScalpingStrategy F) (log : List Time)
        → 1 ≤ most
        → is_zero s.last_seen_timestamp ≡ false
        → old ≤ s.last_seen_timestamp
        → (acts answer ≡ true → is_daily_limit_reached clock s ≡ false)
        → s.params.max_daily_trades ≡ pos most
        → IsDated s.last_trade_date s.daily_trade_count old log
        → ((day : ℕ) → trades_on day log ≤ most)
        → let (s', log') = recorded clock log (answer, s) in
          IsKept most s' log' × (s'.last_seen_timestamp ≡ s.last_seen_timestamp)
    unfolding record_trade is_daily_limit_reached is_limited
    recorded-IsKept most clock old answer s log some_trades stamped le free limit dated kept =
        let date = s.last_trade_date in
        let count = s.daily_trade_count in
        let seen = s.last_seen_timestamp in
        elim (Bool-cases (acts answer)) [
          | inl act ↦
              let open_day : is_limited date count (jst_day seen) most ≡ false =
                rw (stamped, limit) at (free act) in
              let e : recorded clock log (answer, s) ≡ (traded s seen, seen ∷ log) =
                rw act
                  (ap (λ now. (traded s now, now ∷ log)) (or_now_stamped clock seen stamped)) in
              subst (λ r. IsKept most r.0 r.1 × (r.0.last_seen_timestamp ≡ seen)) (sym e)
                (
                  (
                    limit,
                    counted-IsDated date count old seen log dated le,
                    within_limit date count old seen log most some_trades dated le open_day kept,
                  ),
                  refl,
                )
          | inr rest ↦ rw rest ((limit, later-IsDated date count old seen log dated le, kept), refl)
        ]

    -- the state once the time of the market data is noted
    abbrev noted : Observation F → ScalpingStrategy F → ScalpingStrategy F
    noted o s = record s { last_seen_timestamp = o.market_data.timestamp }

    generate_signal_noted :
        (o : Observation F) (s : ScalpingStrategy F)
        → is_zero o.market_data.timestamp ≡ false
        → generate_signal duration_seconds o.clock o.market_data o.history s
          ≡ (decide duration_seconds o.clock (noted o s) o.market_data o.history, noted o s)
    unfolding generate_signal
    generate_signal_noted o s stamped = rw stamped refl

    played-IsKept :
        (most : ℕ) (os : List (Observation F)) (s : ScalpingStrategy F) (log : List Time)
        → 1 ≤ most
        → IsForward s.last_seen_timestamp os
        → IsKept most s log
        → IsKept most (played os s log).0 (played os s log).1
    played-IsKept most [] s log some_trades _ kept = kept
    played-IsKept most (o ∷ later) s log some_trades (stamped, le, forward) (limit, dated, kept) =
        let seen = noted o s in
        let set = stamped_of o.market_data.timestamp stamped in
        let answer = decide duration_seconds o.clock seen o.market_data o.history in
        let (s', log') = recorded o.clock log (answer, seen) in
        let (kept', time) =
          recorded-IsKept most o.clock s.last_seen_timestamp answer seen log some_trades set le
            (decide_free o.clock seen o.market_data o.history) limit dated kept in
        subst
          (λ r.
            let (s', log') = recorded o.clock log r in
            IsKept most (played later s' log').0 (played later s' log').1)
          (sym (generate_signal_noted o s set))
          (played-IsKept most later s' log' some_trades
            (subst (λ t. IsForward t later) (sym time) forward) kept')

    -- A new strategy is given market data whose times do not run backwards, and a trade is recorded for
    -- each answer other than HOLD. Then no day in Japan has more trades than the configured limit, if
    -- that is positive.
    pub daily_limit_kept :
        (p : Params F) (most : ℕ) (os : List (Observation F))
        → p.max_daily_trades ≡ pos most
        → 1 ≤ most
        → IsForward 0 os
        → (day : ℕ) → trades_on day (played os (new_strategy p) []).1 ≤ most
    unfolding new_strategy
    daily_limit_kept p most os limit some_trades forward =
        (played-IsKept most os (new_strategy p) [] some_trades forward
          (limit, refl, λ day. omega arith)).2
