-- ===== src/Exchange/Minimums.antt =====
-- The minimum order sizes that the service returns.
use gogocoin.Prelude.{
  ◌≡◌, refl, sym, subst, eq_iff, String, Bool, true, false, Option, none, some, List, [], ◌∷◌,
  Result, ok, Bool-cases, inl, inr, str_eq,
}
use gogocoin.Float.{Float}
use gogocoin.Domain.{Time}
use gogocoin.Risk.{Failure}
use gogocoin.Exchange.Specs.{
  MarketSpec, SpecCache, SpecError, get_hardcoded_spec, put_spec, populate, codes_of, refresh_cache,
  is_fresh, found_or, or_not_found, look_again, look, get_specification,
  get_fallback_minimum_order_size, minimum_or_fallback, get_minimum_order_size,
}

module _ {F : Type 0} ⦃fl : Float F⦄ where
  -- a specification of the cache has the minimum size of the table
  abbrev IsTabled : String → Option (MarketSpec F) → Type 0
  IsTabled symbol none = Unit
  IsTabled symbol (some spec) = get_fallback_minimum_order_size symbol ≡ ok spec.size_min

  abbrev pub IsFaithful : (String → Option (MarketSpec F)) → Type 0
  IsFaithful m = (symbol : String) → IsTabled symbol (m symbol)

  hardcoded-IsTabled :
      (symbol : String) (now : Time) (spec : MarketSpec F)
      → get_hardcoded_spec symbol ≡ some spec
      → IsTabled symbol (some (record spec { fetched_at = now }))
  unfolding get_fallback_minimum_order_size
  hardcoded-IsTabled symbol now spec e = rw e refl

  put_spec-IsFaithful :
      (now : Time) (code : String) (given : Option (MarketSpec F))
      (m : String → Option (MarketSpec F))
      → get_hardcoded_spec code ≡ given
      → IsFaithful m
      → IsFaithful (put_spec now code given m)
  put_spec-IsFaithful now code none m e faithful symbol = faithful symbol
  put_spec-IsFaithful now code (some spec) m e faithful symbol =
      elim (Bool-cases (str_eq code symbol)) [
        | inl same ↦ rw same (
            hardcoded-IsTabled symbol now spec
              (subst (λ s. get_hardcoded_spec s ≡ some spec) ((eq_iff code symbol).0 same) e))
        | inr other ↦ rw other (faithful symbol)
      ]

  populate-IsFaithful :
      (now : Time) (codes : List String) (m : String → Option (MarketSpec F))
      → IsFaithful m
      → IsFaithful (populate now codes m)
  unfolding populate
  populate-IsFaithful now [] m faithful = faithful
  populate-IsFaithful now (code ∷ codes) m faithful =
      populate-IsFaithful now codes (put_spec now code (get_hardcoded_spec code) m)
        (put_spec-IsFaithful now code (get_hardcoded_spec code) m refl faithful)

  refresh_cache-IsFaithful :
      (now : Time) (markets : Option (Result Failure (List String))) (c : SpecCache F)
      → IsFaithful c.cache
      → IsFaithful (refresh_cache now markets c).cache
  unfolding refresh_cache
  refresh_cache-IsFaithful now markets c faithful =
      populate-IsFaithful now (codes_of markets) c.cache faithful

  -- the minimum that a specification or its absence leads to
  tabled_minimum :
      (symbol : String) (found : Option (MarketSpec F))
      → IsTabled symbol found
      → minimum_or_fallback symbol (or_not_found found) ≡ get_fallback_minimum_order_size symbol
  tabled_minimum symbol none _ = refl
  tabled_minimum symbol (some spec) e = sym e

  found_or-IsTabled :
      (symbol : String) (fresh : Bool) (found : Option (MarketSpec F))
      → IsTabled symbol found
      → IsTabled symbol (found_or fresh found)
  found_or-IsTabled symbol fresh none tabled = tabled
  found_or-IsTabled symbol true (some spec) tabled = tabled
  found_or-IsTabled symbol false (some spec) tabled = _

  -- what is returned is the table's minimum, and the cache is faithful to the table
  abbrev IsRight : String → Result SpecError (MarketSpec F) × SpecCache F → Type 0
  IsRight symbol (found, c) =
      (minimum_or_fallback symbol found ≡ get_fallback_minimum_order_size symbol)
      × IsFaithful c.cache

  look_again-IsRight :
      (now : Time) (markets : Option (Result Failure (List String))) (symbol : String)
      (c : SpecCache F) (found : Option (MarketSpec F))
      → IsTabled symbol found
      → IsFaithful c.cache
      → IsRight symbol (look_again now markets symbol c found)
  look_again-IsRight now markets symbol c (some spec) tabled faithful = (sym tabled, faithful)
  look_again-IsRight now markets symbol c none tabled faithful =
      let kept = refresh_cache-IsFaithful now markets c faithful in
      (tabled_minimum symbol ((refresh_cache now markets c).cache symbol) (kept symbol), kept)

  look-IsRight :
      (now : Time) (markets : Option (Result Failure (List String))) (symbol : String)
      (c : SpecCache F) (found : Option (MarketSpec F))
      → IsTabled symbol found
      → IsFaithful c.cache
      → IsRight symbol (look now markets symbol c found)
  look-IsRight now markets symbol c (some spec) tabled faithful = (sym tabled, faithful)
  look-IsRight now markets symbol c none tabled faithful =
      look_again-IsRight now markets symbol c (found_or (is_fresh now c) (c.cache symbol))
        (found_or-IsTabled symbol (is_fresh now c) (c.cache symbol) (faithful symbol)) faithful

  -- Whatever the exchange answers, whether the cache is fresh or not, and even if it changes while the
  -- call waits for the lock: where every cached specification has the minimum size of the table in the
  -- code, `GetMinimumOrderSize` returns what the table alone gives, an error for a symbol that
  -- it does not know included, and leaves such a cache.
  pub get_minimum_order_size-IsFaithful :
      (now : Time) (markets : Option (Result Failure (List String))) (symbol : String)
      (read locked : SpecCache F)
      → IsFaithful read.cache
      → IsFaithful locked.cache
      → let (minimum, c) = get_minimum_order_size now markets symbol read locked in
        (minimum ≡ get_fallback_minimum_order_size symbol) × IsFaithful c.cache
  unfolding get_minimum_order_size get_specification
  get_minimum_order_size-IsFaithful now markets symbol read locked faithful faithful' =
      look-IsRight now markets symbol locked (found_or (is_fresh now read) (read.cache symbol))
        (found_or-IsTabled symbol (is_fresh now read) (read.cache symbol) (faithful symbol))
        faithful'
