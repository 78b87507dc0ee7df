-- ===== src/Ticking/Aggregation.antt =====
-- The bars of the live worker beside those of the backtest's resampling datasource.
use gogocoin.Prelude.{
  ℕ, suc, ◌+◌, ◌≤◌, ◌≡◌, refl, ◌∙◌, ap, sym, true, false, Option, none, some, List, [], ◌∷◌, ◌++◌,
  map, ltb, ◌==◌, Bool-cases, inl, inr, if◌then◌else◌, length, arith, subst,
}
use gogocoin.Float.{Float}
use gogocoin.Domain.{Time}
use gogocoin.Backtest.{Bar}
use gogocoin.Backtest.Resampling.{bucket_start, new_resampling, opened, fold_in, read_bars}
use gogocoin.Backtest.Resampling.Periods.{
  eq_of, period_of, runs_of, continued, continued-opened, continued_folded, continued_next,
  resampled, read_bars-resampled,
}
use gogocoin.Ticking.Bars.{
  Tick, SymbolHistory, bar_bucket_start, new_history, start_bar, extend_bar, finished_bar,
  append_point, aggregate,
}

is_after : (a b : ℕ) → a ≤ b → (b == a) ≡ false → ltb a b ≡ true
is_after a b le other = ground arith

module _ {F : Type 0} ⦃fl : Float F⦄ (period limit : ℕ) where
  abbrev prepend_bar : Option (Tick F) → List (Tick F) → List (Tick F)
  prepend_bar none bars = bars
  prepend_bar (some bar) bars = bar ∷ bars

  -- the bars that the ticks complete, and the history after them
  abbrev pub completed : List (Tick F) → SymbolHistory F → List (Tick F) × SymbolHistory F
  completed [] h = ([], h)
  completed (t ∷ ts) h =
      let (bar, h') = aggregate period limit t h in
      let (bars, last) = completed ts h' in (prepend_bar bar bars, last)

  -- the bucket that is still open
  abbrev open_bars : SymbolHistory F → List (Tick F)
  open_bars h = if h.bar_open then finished_bar "" h ∷ [] else []

  abbrev with_open : List (Tick F) × SymbolHistory F → List (Tick F)
  with_open (bars, h) = bars ++ open_bars h

  -- the completed bars of a new history, and the one that is still open
  abbrev pub live_bars : Time → List (Tick F) → List (Tick F)
  live_bars now ts = with_open (completed ts (new_history now))

  -- a tick as a bar of the backtest
  abbrev pub as_bar : Tick F → Bar F
  as_bar t = record {
    symbol = t.symbol;
    timestamp = t.timestamp;
    open_price = t.price;
    high = t.price;
    low = t.price;
    close = t.price;
    volume = t.volume;
  }

  -- what the strategy sees of a bar that both sides have
  abbrev pub seen_live : Tick F → Time × F × F
  seen_live t = (t.timestamp, t.price, t.volume)

  abbrev pub seen_replayed : Bar F → Time × F × F
  seen_replayed b = (b.timestamp, b.close, b.volume)

  -- no tick belongs to an earlier bucket than the one before it
  abbrev pub IsForward : Time → List (Tick F) → Type 0
  IsForward k [] = Unit
  IsForward k (t ∷ ts) =
      let bucket = bar_bucket_start t.timestamp period in (k ≤ bucket) × IsForward bucket ts

  same_bucket : (t : Tick F) → period_of period (as_bar t) ≡ bar_bucket_start t.timestamp period
  unfolding bucket_start bar_bucket_start
  same_bucket t = refl

  aggregate_same :
      (t : Tick F) (h : SymbolHistory F)
      → h.bar_open ≡ true
      → (bar_bucket_start t.timestamp period == h.bar_start) ≡ true
      → aggregate period limit t h ≡ (none, extend_bar t h)
  unfolding aggregate
  aggregate_same t h is_open same = rw (is_open, same) refl

  aggregate_next :
      (t : Tick F) (h : SymbolHistory F)
      → h.bar_open ≡ true
      → (bar_bucket_start t.timestamp period == h.bar_start) ≡ false
      → ltb h.bar_start (bar_bucket_start t.timestamp period) ≡ true
      → let bar = finished_bar t.symbol h in
        aggregate period limit t h
        ≡ (some bar, start_bar (bar_bucket_start t.timestamp period) t (append_point limit bar h))
  unfolding aggregate
  aggregate_next t h is_open other after = rw (is_open, other, after) refl

  -- what is seen once a tick is handled and further ticks follow
  abbrev seen_on : List (Tick F) → Option (Tick F) × SymbolHistory F → List (Time × F × F)
  seen_on ts (bar, h) =
      let (bars, last) = completed ts h in map seen_live (with_open (prepend_bar bar bars, last))

  abbrev replayed : Time → Bar F → List (Tick F) → List (Time × F × F)
  replayed k cur ts = map seen_replayed (continued period k cur (runs_of period (map as_bar ts)))

  replayed_extended :
      (k : Time) (cur : Bar F) (t : Tick F) (ts : List (Tick F))
      → bar_bucket_start t.timestamp period ≡ k
      → replayed k (fold_in cur (as_bar t)) ts ≡ replayed k cur (t ∷ ts)
  unfolding bucket_start bar_bucket_start
  replayed_extended k cur t ts e =
      subst (λ j. replayed j (fold_in cur (as_bar t)) ts ≡ replayed j cur (t ∷ ts)) e
        (ap (map seen_replayed)
          (continued_folded period cur (as_bar t) (runs_of period (map as_bar ts))))

  replayed_next :
      (k : Time) (cur : Bar F) (t : Tick F) (ts : List (Tick F))
      → (bar_bucket_start t.timestamp period == k) ≡ false
      → seen_replayed cur
          ∷ replayed (bar_bucket_start t.timestamp period) (opened period (as_bar t)) ts
        ≡ replayed k cur (t ∷ ts)
  unfolding bucket_start bar_bucket_start
  replayed_next k cur t ts other =
      let runs = runs_of period (map as_bar ts) in
      ap (λ bars. seen_replayed cur ∷ map seen_replayed bars)
        (continued-opened period (as_bar t) runs)
      ∙ ap (map seen_replayed) (sym (continued_next period k cur (as_bar t) runs other))

  -- an open bucket that is seen as `cur` is, and the ticks to come
  completed_follows :
      (ts : List (Tick F)) (h : SymbolHistory F) (cur : Bar F)
      → h.bar_open ≡ true
      → IsForward h.bar_start ts
      → seen_live (finished_bar "" h) ≡ seen_replayed cur
      → map seen_live (with_open (completed ts h)) ≡ replayed h.bar_start cur ts
  unfolding fold_in bucket_start bar_bucket_start
  completed_follows [] h cur is_open forward alike = rw (is_open, alike) refl
  completed_follows (t ∷ ts) h cur is_open (le, forward) alike =
      let bucket = bar_bucket_start t.timestamp period in
      elim (Bool-cases (bucket == h.bar_start)) [
        | inl same ↦
            let e : bucket ≡ h.bar_start = eq_of bucket h.bar_start same in
            ap (seen_on ts) (aggregate_same t h is_open same)
            ∙ completed_follows ts (extend_bar t h) (fold_in cur (as_bar t)) is_open
                (subst (λ k. IsForward k ts) e forward)
                (ap (λ seen. (seen.0, t.price, fl.add seen.2 t.volume)) alike)
            ∙ replayed_extended h.bar_start cur t ts e
        | inr other ↦
            let bar = finished_bar t.symbol h in
            ap (seen_on ts)
              (aggregate_next t h is_open other (is_after h.bar_start bucket le other))
            ∙ ap
                (λ seen.
                  seen
                  ∷ map seen_live
                      (with_open (completed ts (start_bar bucket t (append_point limit bar h)))))
                alike
            ∙ ap (λ bars. seen_replayed cur ∷ bars)
                (completed_follows ts (start_bar bucket t (append_point limit bar h))
                  (opened period (as_bar t)) is_open forward refl)
            ∙ replayed_next h.bar_start cur t ts other
      ]

  length-map-as_bar : (ts : List (Tick F)) → length (map as_bar ts) ≡ length ts
  length-map-as_bar [] = refl
  length-map-as_bar (t ∷ ts) = ap suc (length-map-as_bar ts)

  live_bars-resampled :
      (now : Time) (ts : List (Tick F))
      → IsForward 0 ts
      → map seen_live (live_bars now ts) ≡ map seen_replayed (resampled period (map as_bar ts))
  unfolding aggregate bucket_start bar_bucket_start
  live_bars-resampled now [] forward = refl
  live_bars-resampled now (t ∷ ts) (le, forward) =
      completed_follows ts
        (start_bar (bar_bucket_start t.timestamp period) t
          (record (new_history now) { bar_open = true }))
        (opened period (as_bar t)) refl forward refl
      ∙ ap (map seen_replayed) (continued-opened period (as_bar t) (runs_of period (map as_bar ts)))

  -- Of ticks none of which belongs to an earlier bucket than the one before it, the worker makes the
  -- bars that a client of the backtest's resampling datasource reads when each tick is given to it as
  -- a bar: with the same starts, closes and volumes. The last of them is the bar that is still open.
  pub live_bars-read_bars :
      (now : Time) (n : ℕ) (ts : List (Tick F))
      → IsForward 0 ts
      → length ts + 2 ≤ n
      → map seen_live (live_bars now ts)
        ≡ map seen_replayed (read_bars period n (new_resampling (map as_bar ts) false)).0
  live_bars-read_bars now n ts forward enough =
      live_bars-resampled now ts forward
      ∙ sym (
          ap (λ r. map seen_replayed r.0)
            (read_bars-resampled period (map as_bar ts) n (omega (arith, length-map-as_bar ts))))
