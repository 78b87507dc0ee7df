-- ===== src/Backtest/Resampling.antt =====
-- datasource_resample.go. The wrapped datasource is the list of bars that its `Next` still returns,
-- which then ends or, if `broken`, fails. Instants are from 1970 on, so the branch of `bucketStart`
-- for earlier ones is left out; the context is not cancelled.
pub mod Periods
use gogocoin.Prelude.{
  ℕ, zero, suc, ◌-◌, ◌%◌, Bool, true, false, Option, none, some, List, [], ◌∷◌, ◌==◌, if◌then◌else◌,
}
use gogocoin.Float.{Float, ◌⊕◌, ◌≺◌}
use gogocoin.Domain.{Time}
use gogocoin.Backtest.Types.{Bar, zero_bar}

pub record ResamplingDatasource (F : Type 0) : Type 0 where
  pub inner : List (Bar F)
  pub broken : Bool
  pub have : Bool
  pub bucket : Time
  pub cur : Bar F
  pub pending : Option (Bar F)
  pub closed : Bool
  pub done : Bool

-- what `Next` returns
pub data Answer (F : Type 0) : Type 0 where
  emitted : Bar F → Answer F
  eof failed : Answer F

-- `bucketStart`
unfoldable pub bucket_start : ℕ → Time → Time
bucket_start period t = t - t % period

module _ {F : Type 0} ⦃fl : Float F⦄ where
  -- `NewResamplingDatasource`
  abbrev pub new_resampling : List (Bar F) → Bool → ResamplingDatasource F
  new_resampling inner broken = record {
    inner = inner;
    broken = broken;
    have = false;
    bucket = 0;
    cur = zero_bar;
    pending = none;
    closed = false;
    done = false;
  }

  -- the first bar of a bucket
  abbrev pub opened : ℕ → Bar F → Bar F
  opened period b = record b { timestamp = bucket_start period b.timestamp }

  -- a further bar of the bucket
  unfoldable pub fold_in : Bar F → Bar F → Bar F
  fold_in cur b = record cur {
    high = if cur.high ≺ b.high then b.high else cur.high;
    low = if b.low ≺ cur.low then b.low else cur.low;
    close = b.close;
    volume = cur.volume ⊕ b.volume;
  }

  -- the loop's body for a bar: the bar that `Next` returns, or `none` to go on
  unfoldable pub take_in :
      ℕ → Bar F → ResamplingDatasource F → Option (Bar F) × ResamplingDatasource F
  take_in period b r =
      let start = bucket_start period b.timestamp in
      if r.have
      then (if start == r.bucket
          then (none, record r { cur = fold_in r.cur b })
          else (some r.cur, record r { have = false; pending = some b }))
      else (none, record r { have = true; bucket = start; cur = opened period b })

  -- the bucket that is left at the end of the data
  abbrev pub flush : ResamplingDatasource F → Answer F × ResamplingDatasource F
  flush r = if r.have then (emitted r.cur, record r { have = false }) else (eof, r)

  -- `Next` returns, or the loop goes on with the bars that are left
  abbrev pub proceed :
      List (Bar F)
      → (ResamplingDatasource F → Answer F × ResamplingDatasource F)
      → Option (Bar F) × ResamplingDatasource F
      → Answer F × ResamplingDatasource F
  proceed bs go (some out, r) = (emitted out, record r { inner = bs })
  proceed bs go (none, r) = go r

  -- the loop once no bar is pending
  unfoldable pub pull :
      ℕ → List (Bar F) → ResamplingDatasource F → Answer F × ResamplingDatasource F
  pull period [] r =
      if r.broken
      then (failed, record r { inner = [] })
      else flush (record r { inner = []; done = true })
  pull period (b ∷ bs) r = proceed bs (pull period bs) (take_in period b r)

  abbrev pub resume :
      ℕ → Option (Bar F) × ResamplingDatasource F → Answer F × ResamplingDatasource F
  resume period (some out, r) = (emitted out, r)
  resume period (none, r) = if r.done then flush r else pull period r.inner r

  abbrev pub from_pending :
      ℕ → Option (Bar F) → ResamplingDatasource F → Answer F × ResamplingDatasource F
  from_pending period (some b) r = resume period (take_in period b (record r { pending = none }))
  from_pending period none r = resume period (none, r)

  -- `Next`
  unfoldable pub next_bar : ℕ → ResamplingDatasource F → Answer F × ResamplingDatasource F
  next_bar period r = if r.closed then (eof, r) else from_pending period r.pending r

  abbrev pub prepend : Answer F → List (Bar F) × Answer F → List (Bar F) × Answer F
  prepend (emitted b) (bs, last) = (b ∷ bs, last)
  prepend eof rest = ([], eof)
  prepend failed rest = ([], failed)

  -- a client that calls `Next` until it returns an error, at most `n` times: the bars and the error
  unfoldable pub read_bars : ℕ → ℕ → ResamplingDatasource F → List (Bar F) × Answer F
  read_bars period zero r = ([], failed)
  read_bars period (suc n) r = let (a, r') = next_bar period r in prepend a (read_bars period n r')
