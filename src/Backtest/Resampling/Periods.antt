-- ===== src/Backtest/Resampling/Periods.antt =====
-- The bars that a resampling datasource returns, against a description by whole periods.
use gogocoin.Prelude.{
  ℕ, zero, suc, ◌+◌, ◌≤◌, ◌≡◌, refl, ◌∙◌, ap, sym, subst, Bool, true, false, Option, none, some,
  List, [], ◌∷◌, map, ◌==◌, Bool-cases, inl, inr, if◌then◌else◌, length, arith,
}
use gogocoin.Float.{Float, ◌⊕◌, ◌≺◌}
use gogocoin.Domain.{Time}
use gogocoin.Backtest.Types.{Bar}
use gogocoin.Backtest.Resampling.{
  ResamplingDatasource, Answer, emitted, eof, bucket_start, new_resampling, opened, fold_in,
  take_in, pull, next_bar, read_bars, prepend, proceed,
}

pub eq_self : (n : ℕ) → (n == n) ≡ true
eq_self n = ground arith

pub eq_of : (m n : ℕ) → (m == n) ≡ true → m ≡ n
eq_of m n h = ground arith

module _ {F : Type 0} ⦃fl : Float F⦄ (period : ℕ) where
  abbrev pub period_of : Bar F → Time
  period_of b = bucket_start period b.timestamp

  -- a run of bars of one period: its first bar and the others
  abbrev pub joined : Bar F → List (Bar F × List (Bar F)) → List (Bar F × List (Bar F))
  joined b [] = (b, []) ∷ []
  joined b ((c, cs) ∷ runs) =
      if period_of c == period_of b then (b, c ∷ cs) ∷ runs else (b, []) ∷ ((c, cs) ∷ runs)

  -- the longest runs of successive bars of one period
  abbrev pub runs_of : List (Bar F) → List (Bar F × List (Bar F))
  runs_of [] = []
  runs_of (b ∷ bs) = joined b (runs_of bs)

  abbrev highest : F → List (Bar F) → F
  highest h [] = h
  highest h (b ∷ bs) = highest (if h ≺ b.high then b.high else h) bs

  abbrev lowest : F → List (Bar F) → F
  lowest l [] = l
  lowest l (b ∷ bs) = lowest (if b.low ≺ l then b.low else l) bs

  abbrev last_close : F → List (Bar F) → F
  last_close c [] = c
  last_close c (b ∷ bs) = last_close b.close bs

  abbrev total_volume : F → List (Bar F) → F
  total_volume v [] = v
  total_volume v (b ∷ bs) = total_volume (v ⊕ b.volume) bs

  -- the bar of a run: the start of its period, the open of its first bar, the highest high, the
  -- lowest low, the close of its last bar, and the sum of its volumes
  abbrev pub summary_of : Bar F × List (Bar F) → Bar F
  summary_of (b, bs) = record {
    symbol = b.symbol;
    timestamp = period_of b;
    open_price = b.open_price;
    high = highest b.high bs;
    low = lowest b.low bs;
    close = last_close b.close bs;
    volume = total_volume b.volume bs;
  }

  abbrev pub resampled : List (Bar F) → List (Bar F)
  resampled bars = map summary_of (runs_of bars)

  abbrev folded : Bar F → List (Bar F) → Bar F
  folded cur [] = cur
  folded cur (b ∷ bs) = folded (fold_in cur b) bs

  folded_lem :
      (cur : Bar F) (bs : List (Bar F))
      → folded cur bs ≡ record cur {
        high = highest cur.high bs;
        low = lowest cur.low bs;
        close = last_close cur.close bs;
        volume = total_volume cur.volume bs;
      }
  unfolding fold_in
  folded_lem cur [] = refl
  folded_lem cur (b ∷ bs) = folded_lem (fold_in cur b) bs

  -- the bars to come when `cur` stands for the bars of the period `k` that were read
  abbrev pub continued : Time → Bar F → List (Bar F × List (Bar F)) → List (Bar F)
  continued k cur [] = cur ∷ []
  continued k cur ((c, cs) ∷ runs) =
      if period_of c == k
      then folded cur (c ∷ cs) ∷ map summary_of runs
      else cur ∷ map summary_of ((c, cs) ∷ runs)

  pub continued-opened :
      (b : Bar F) (runs : List (Bar F × List (Bar F)))
      → continued (period_of b) (opened period b) runs ≡ map summary_of (joined b runs)
  continued-opened b [] = refl
  continued-opened b ((c, cs) ∷ runs) = elim (Bool-cases (period_of c == period_of b)) [
    | inl same ↦ rw same (ap (λ x. x ∷ map summary_of runs) (folded_lem (opened period b) (c ∷ cs)))
    | inr other ↦ rw other refl
  ]

  pub continued_folded :
      (cur b : Bar F) (runs : List (Bar F × List (Bar F)))
      → continued (period_of b) (fold_in cur b) runs ≡ continued (period_of b) cur (joined b runs)
  continued_folded cur b [] = rw (eq_self (period_of b)) refl
  continued_folded cur b ((c, cs) ∷ runs) = elim (Bool-cases (period_of c == period_of b)) [
    | inl same ↦ rw (same, eq_self (period_of b)) refl
    | inr other ↦ rw (other, eq_self (period_of b)) refl
  ]

  pub continued_next :
      (k : Time) (cur b : Bar F) (runs : List (Bar F × List (Bar F)))
      → (period_of b == k) ≡ false
      → continued k cur (joined b runs) ≡ cur ∷ map summary_of (joined b runs)
  continued_next k cur b [] other = rw other refl
  continued_next k cur b ((c, cs) ∷ runs) other = elim (Bool-cases (period_of c == period_of b)) [
    | inl same ↦ rw (same, other) refl
    | inr differ ↦ rw (differ, other) refl
  ]

  -- the states of a datasource that is neither broken nor closed
  abbrev state : List (Bar F) → Bool → Time → Bar F → Option (Bar F) → Bool → ResamplingDatasource F
  state inner have k cur pending done = record {
    inner = inner;
    broken = false;
    have = have;
    bucket = k;
    cur = cur;
    pending = pending;
    closed = false;
    done = done;
  }

  abbrev filling : List (Bar F) → Time → Bar F → ResamplingDatasource F
  filling inner k cur = state inner true k cur none false

  abbrev holding : List (Bar F) → Time → Bar F → Bar F → ResamplingDatasource F
  holding inner k cur b = state inner false k cur (some b) false

  abbrev finished : Time → Bar F → ResamplingDatasource F
  finished k cur = state [] false k cur none true

  read_finished :
      (n : ℕ) (k : Time) (cur : Bar F) → 1 ≤ n → read_bars period n (finished k cur) ≡ ([], eof)
  unfolding read_bars next_bar
  read_finished zero k cur some_left = ground arith
  read_finished (suc n) k cur some_left = refl

  pull_end :
      (xs : List (Bar F)) (k : Time) (cur : Bar F)
      → pull period [] (filling xs k cur) ≡ (emitted cur, finished k cur)
  unfolding pull
  pull_end xs k cur = refl

  take_in_same :
      (b : Bar F) (xs : List (Bar F)) (k : Time) (cur : Bar F)
      → (period_of b == k) ≡ true
      → take_in period b (filling xs k cur) ≡ (none, filling xs k (fold_in cur b))
  unfolding take_in
  take_in_same b xs k cur same = rw same refl

  take_in_other :
      (b : Bar F) (xs : List (Bar F)) (k : Time) (cur : Bar F)
      → (period_of b == k) ≡ false
      → take_in period b (filling xs k cur) ≡ (some cur, holding xs k cur b)
  unfolding take_in
  take_in_other b xs k cur other = rw other refl

  pull_same :
      (b : Bar F) (bs xs : List (Bar F)) (k : Time) (cur : Bar F)
      → (period_of b == k) ≡ true
      → pull period (b ∷ bs) (filling xs k cur) ≡ pull period bs (filling xs k (fold_in cur b))
  unfolding pull
  pull_same b bs xs k cur same = ap (proceed bs (pull period bs)) (take_in_same b xs k cur same)

  pull_other :
      (b : Bar F) (bs xs : List (Bar F)) (k : Time) (cur : Bar F)
      → (period_of b == k) ≡ false
      → pull period (b ∷ bs) (filling xs k cur) ≡ (emitted cur, holding bs k cur b)
  unfolding pull
  pull_other b bs xs k cur other = ap (proceed bs (pull period bs)) (take_in_other b xs k cur other)

  -- what a client reads from a call of `Next` and those that follow it
  abbrev read_on : ℕ → Answer F × ResamplingDatasource F → List (Bar F) × Answer F
  read_on n (a, r) = prepend a (read_bars period n r)

  -- a call of `Next` that fills a bucket, and those that follow it
  read_filling :
      (n : ℕ) (bs xs : List (Bar F)) (k : Time) (cur : Bar F)
      → 1 ≤ n
      → ((b : Bar F) (bs' : List (Bar F)) (j : Time) (c : Bar F)
          → suc (length bs') ≤ length bs
          → read_bars period n (holding bs' j c b) ≡ (resampled (b ∷ bs'), eof))
      → read_on n (pull period bs (filling xs k cur)) ≡ (continued k cur (runs_of bs), eof)
  read_filling n [] xs k cur some_left later =
      ap (read_on n) (pull_end xs k cur)
      ∙ ap (λ r. prepend (emitted cur) r) (read_finished n k cur some_left)
  read_filling n (b ∷ bs) xs k cur some_left later = elim (Bool-cases (period_of b == k)) [
    | inl same ↦
        ap (read_on n) (pull_same b bs xs k cur same)
        ∙ read_filling n bs xs k (fold_in cur b) some_left
            (λ b' bs' j c h. later b' bs' j c (ground arith))
        ∙ ap (λ x. (x, eof))
            (subst
              (λ j.
                continued j (fold_in cur b) (runs_of bs) ≡ continued j cur (joined b (runs_of bs)))
              (eq_of (period_of b) k same) (continued_folded cur b (runs_of bs)))
    | inr other ↦
        ap (read_on n) (pull_other b bs xs k cur other)
        ∙ ap (λ r. prepend (emitted cur) r) (later b bs k cur (omega arith))
        ∙ ap (λ x. (x, eof)) (sym (continued_next k cur b (runs_of bs) other))
  ]

  read_holding :
      (n : ℕ) (b : Bar F) (bs : List (Bar F)) (k : Time) (cur : Bar F)
      → length bs + 2 ≤ n
      → read_bars period n (holding bs k cur b) ≡ (resampled (b ∷ bs), eof)
  unfolding read_bars next_bar take_in
  read_holding zero b bs k cur enough = ground arith
  read_holding (suc n) b bs k cur enough =
      read_filling n bs bs (period_of b) (opened period b) (omega arith)
        (λ b' bs' j c h. read_holding n b' bs' j c (omega arith))
      ∙ ap (λ x. (x, eof)) (continued-opened b (runs_of bs))

  -- A client that calls `Next` until it returns an error reads one bar for each longest run of
  -- successive bars of one period, and then the end of the data: the start of the period, the first
  -- open, the highest high, the lowest low, the last close and the sum of the volumes. Two more calls
  -- than there are bars are enough.
  pub read_bars-resampled :
      (bars : List (Bar F)) (n : ℕ)
      → length bars + 2 ≤ n
      → read_bars period n (new_resampling bars false) ≡ (resampled bars, eof)
  unfolding read_bars next_bar pull take_in
  read_bars-resampled bars zero enough = ground arith
  read_bars-resampled [] (suc n) enough = refl
  read_bars-resampled (b ∷ bs) (suc n) enough =
      read_filling n bs (b ∷ bs) (period_of b) (opened period b) (omega arith)
        (λ b' bs' j c h. read_holding n b' bs' j c (omega arith))
      ∙ ap (λ x. (x, eof)) (continued-opened b (runs_of bs))
