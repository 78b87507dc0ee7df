-- ===== src/Trading/Caching.antt =====
-- internal/usecase/trading/balance/balance_service.go. The exchange's client, with its rate limit and
-- retries, is the answer `fetched`; the answer's numbers are already `float64`. Another goroutine may
-- change the cache while `GetBalance` waits for the lock, and invalidate it while the exchange is
-- called, so what it finds at each of its three looks is an argument of its own, and so is the time.
-- The times that it stores with one answer are taken as one.
use gogocoin.Prelude.{
  ℕ, ◌-◌, ◌*◌, String, Bool, true, false, not, ◌&&◌, Option, none, some, List, [], ◌∷◌, Result, ok,
  err, ltb, if◌then◌else◌, map,
}
use gogocoin.Float.{Float, nought}
use gogocoin.Domain.{Time, is_zero, Balance}
use gogocoin.Risk.{Failure, second}

pub record Cache (F : Type 0) : Type 0 where
  pub balances : List (Balance F)
  pub timestamp : Time

-- an entry of the answer, with its fields that may be missing
pub record Entry (F : Type 0) : Type 0 where
  pub currency_code : Option String
  pub amount : Option F
  pub available : Option F

-- what a call of `GetBalance` finds: the cache at its first look, once it holds the lock, and after
-- the call of the exchange, with the times of these
pub record Looks (F : Type 0) : Type 0 where
  pub seen : Cache F
  pub locked : Cache F
  pub left : Cache F
  pub seen_at : Time
  pub locked_at : Time
  pub left_at : Time

-- The exchange is not called, for want of a client or by the rate limiter, or its calls fail.
pub data BalanceError : Type 0 where
  not_called failed : Failure → BalanceError

abbrev pub cache_duration : ℕ
cache_duration = 60 * second

abbrev pub stale_cache_ttl : ℕ
stale_cache_ttl = 600 * second

-- `time.Since(t) < d`: the zero time is further back than any duration
abbrev pub is_younger : Time → Time → ℕ → Bool
is_younger now t d = not (is_zero t) && ltb (now - t) d

abbrev pub is_filled : {A : Type 0} → List A → Bool
is_filled [] = false
is_filled (x ∷ xs) = true

abbrev or_blank : Option String → String
or_blank none = ""
or_blank (some s) = s

module _ {F : Type 0} ⦃fl : Float F⦄ where
  abbrev or_zero : Option F → F
  or_zero none = nought
  or_zero (some x) = x

  abbrev pub balance_of : Time → Entry F → Balance F
  balance_of now e = record {
    currency = or_blank e.currency_code;
    amount = or_zero e.amount;
    available = or_zero e.available;
    timestamp = now;
  }

  abbrev pub is_valid : Time → Cache F → Bool
  is_valid now cache = is_younger now cache.timestamp cache_duration && is_filled cache.balances

  abbrev pub is_usable : Time → Cache F → Bool
  is_usable now cache = is_filled cache.balances && is_younger now cache.timestamp stale_cache_ttl

  -- the fetch, and what follows on its failure: only failed calls fall back on the cache
  unfoldable pub fetch :
      Time
      → Result BalanceError (List (Entry F))
      → Cache F
      → Result Failure (List (Balance F)) × Cache F
  fetch now (ok entries) cache =
      let balances = map (balance_of now) entries in
      (ok balances, record { balances = balances; timestamp = now })
  fetch now (err (not_called e)) cache = (err e, cache)
  fetch now (err (failed e)) cache =
      if is_usable now cache then (ok cache.balances, cache) else (err e, cache)

  -- `GetBalance`, with the cache that it leaves
  unfoldable pub get_balance :
      Result BalanceError (List (Entry F)) → Looks F → Result Failure (List (Balance F)) × Cache F
  get_balance fetched looks =
      if is_valid looks.seen_at looks.seen
      then (ok looks.seen.balances, looks.seen)
      else if is_valid looks.locked_at looks.locked
      then (ok looks.locked.balances, looks.locked)
      else fetch looks.left_at fetched looks.left

  -- `InvalidateCache`
  unfoldable pub invalidate_cache : Cache F → Cache F
  invalidate_cache cache = record cache { timestamp = 0 }

  abbrev saved : Result Failure (List (Balance F)) → List (Balance F)
  saved (ok balances) = balances
  saved (err e) = []

  -- `UpdateBalanceToDB`: the balances that it asks the repository to save
  unfoldable pub update_balance_to_db :
      Bool → Result BalanceError (List (Entry F)) → Looks F → List (Balance F) × Cache F
  update_balance_to_db has_db fetched looks =
      let (balances, cache) = get_balance fetched looks in
      if has_db then (saved balances, cache) else ([], looks.seen)
