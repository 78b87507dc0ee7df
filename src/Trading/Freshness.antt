-- ===== src/Trading/Freshness.antt =====
-- How old the balances are that `GetBalance` returns.
use gogocoin.Prelude.{
  ℕ, ◌+◌, ◌<◌, ◌≤◌, ◌≡◌, ◌≢◌, refl, ◌⊎◌, inl, inr, Bool, true, false, ◌&&◌, List, Result, ok, err,
  arith, Bool-cases, map,
}
use gogocoin.Float.{Float}
use gogocoin.Domain.{Time, Balance}
use gogocoin.Risk.{Failure}
use gogocoin.Trading.Caching.{
  Cache, Entry, cache_duration, stale_cache_ttl, is_younger, is_filled, balance_of, is_valid,
  is_usable, fetch, get_balance, Looks, BalanceError, not_called, failed,
}

both : (a b : Bool) → (a && b) ≡ true → (a ≡ true) × (b ≡ true)
both a b h = ground arith

module _ {F : Type 0} ⦃fl : Float F⦄ (fetched : Result BalanceError (List (Entry F)))
    (looks : Looks F) where
  -- the balances are those that the exchange answered with just now
  abbrev IsFetched : List (Balance F) → Type 0
  IsFetched bs =
      (es : List (Entry F)) × (fetched ≡ ok es) × (bs ≡ map (balance_of looks.left_at) es)

  -- the balances were cached less than `d` before `now`, and not invalidated since
  abbrev IsCached : Time → Cache F → ℕ → List (Balance F) → Type 0
  IsCached now cache d bs =
      (bs ≡ cache.balances) × ((cache.timestamp ≢ 0) × (now < cache.timestamp + d))

  abbrev IsRetained : List (Balance F) → Type 0
  IsRetained bs =
      (f : Failure) × (fetched ≡ err (failed f))
      × IsCached looks.left_at looks.left stale_cache_ttl bs

  -- the cache is empty, was invalidated, or is ten minutes old
  abbrev IsSpent : Time → Cache F → Type 0
  IsSpent now cache =
      (is_filled cache.balances ≡ false)
      ⊎ ((cache.timestamp ≡ 0) ⊎ (cache.timestamp + stale_cache_ttl ≤ now))

  spent : (now : Time) (cache : Cache F) → is_usable now cache ≡ false → IsSpent now cache
  spent now cache h = elim (Bool-cases (is_filled cache.balances)) [
    | inl filled ↦ inr (ground arith)
    | inr empty ↦ inl empty
  ]

  -- where the balances of a call come from, or its error
  abbrev pub IsFresh : Result Failure (List (Balance F)) × Cache F → Type 0
  IsFresh (ok bs, cache) =
      IsFetched bs
      ⊎ (IsCached looks.seen_at looks.seen cache_duration bs
          ⊎ (IsCached looks.locked_at looks.locked cache_duration bs ⊎ IsRetained bs))
  IsFresh (err e, cache) =
      ((fetched ≡ err (not_called e))
        ⊎ ((fetched ≡ err (failed e)) × IsSpent looks.left_at looks.left))
      × (cache ≡ looks.left)

  younger : (now t : Time) (d : ℕ) → 1 ≤ d → is_younger now t d ≡ true → (t ≢ 0) × (now < t + d)
  younger now t d some_time h = (ground arith, ground arith)

  cached :
      (now : Time) (cache : Cache F)
      → is_valid now cache ≡ true
      → IsCached now cache cache_duration cache.balances
  cached now cache h =
      (refl, younger now cache.timestamp cache_duration (omega arith) (both _ _ h).0)

  fetch-IsFresh :
      (answer : Result BalanceError (List (Entry F)))
      → fetched ≡ answer
      → IsFresh (fetch looks.left_at answer looks.left)
  unfolding fetch
  fetch-IsFresh (ok es) e = inl (es, e, refl)
  fetch-IsFresh (err (not_called f)) e = (inl e, refl)
  fetch-IsFresh (err (failed f)) e = elim (Bool-cases (is_usable looks.left_at looks.left)) [
    | inl usable ↦
        let recent =
          younger looks.left_at looks.left.timestamp stale_cache_ttl (omega arith)
            (both _ _ usable).1 in
        simp usable (inr (inr (inr (f, e, (refl, recent)))))
    | inr stale ↦ simp stale (inr (e, spent looks.left_at looks.left stale), refl)
  ]

  -- The balances that `GetBalance` returns were fetched by the call, or they are those of a cache
  -- that, when it was looked at, was not invalidated and less than a minute old, or the calls of the
  -- exchange failed and they are those of a cache that was then not invalidated and less than ten
  -- minutes old. There is an error only if the exchange was not called, or if its calls failed and
  -- the cache was empty, invalidated or too old, and the error leaves the cache alone.
  pub get_balance-IsFresh : IsFresh (get_balance fetched looks)
  unfolding get_balance
  get_balance-IsFresh = elim (Bool-cases (is_valid looks.seen_at looks.seen)) [
    | inl valid ↦ simp valid (inr (inl (cached looks.seen_at looks.seen valid)))
    | inr expired ↦ elim (Bool-cases (is_valid looks.locked_at looks.locked)) [
      | inl valid ↦
          simp (expired, valid) (inr (inr (inl (cached looks.locked_at looks.locked valid))))
      | inr expired' ↦ simp (expired, expired') (fetch-IsFresh fetched refl)
    ]
  ]
