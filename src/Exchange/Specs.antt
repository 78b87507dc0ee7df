-- ===== src/Exchange/Specs.antt =====
-- `MarketSpecificationService`. The cache may change while `GetSpecification` waits for the lock, so
-- the cache that it finds then is an argument of its own. The wall clock is the constant `now`.
use gogocoin.Prelude.{
  ℕ, ◌-◌, ◌*◌, String, Bool, true, false, Option, none, some, List, [], ◌∷◌, Result, ok, err, ltb,
  if◌then◌else◌, str_eq,
}
use gogocoin.Float.{Float, nought, number}
use gogocoin.Domain.{Time, zero_time}
use gogocoin.Risk.{Failure, second}
use gogocoin.Strategy.{lookup}

pub record MarketSpec (F : Type 0) : Type 0 where
  pub product_code : String
  pub size_min : F
  pub size_max : F
  pub price_min : F
  pub price_max : F
  pub fetched_at : Time

-- The map is a function.
pub record SpecCache (F : Type 0) : Type 0 where
  pub cache : String → Option (MarketSpec F)
  pub last_fetch : Time

pub data SpecError : Type 0 where
  spec_not_found invalid_symbol : SpecError

abbrev pub cache_ttl : ℕ
cache_ttl = 3600 * second

abbrev pub fallback_symbols : List String
fallback_symbols =
    "BTC_JPY"
    ∷ ("ETH_JPY" ∷ ("XRP_JPY" ∷ ("XLM_JPY" ∷ ("MONA_JPY" ∷ ("BTC_USD" ∷ ("BTC_EUR" ∷ []))))))

-- the product codes that `refreshCacheUnsafe` stores, of what `GetMarkets` answers
abbrev pub codes_of : Option (Result Failure (List String)) → List String
codes_of (some (ok codes)) = codes
codes_of (some (err e)) = fallback_symbols
codes_of none = fallback_symbols

abbrev is_any : String → List String → Bool
is_any s [] = false
is_any s (t ∷ ts) = if str_eq s t then true else is_any s ts

module _ {F : Type 0} ⦃fl : Float F⦄ where
  abbrev row : String → F → ℕ → ℕ → String × MarketSpec F
  row code size_min size_max price_max = (
    code,
    record {
      product_code = code;
      size_min = size_min;
      size_max = number size_max;
      price_min = nought;
      price_max = number price_max;
      fetched_at = zero_time;
    },
  )

  abbrev specs : List (String × MarketSpec F)
  specs =
      row "BTC_JPY" (fl.lit 1 1000) 1000 30_000_000
      ∷ (row "ETH_JPY" (fl.lit 1 100) 10_000 3_000_000
          ∷ (row "XRP_JPY" (number 1) 1_000_000 1000
              ∷ (row "XLM_JPY" (number 10) 10_000_000 100
                  ∷ (row "MONA_JPY" (number 1) 1_000_000 10_000
                      ∷ (row "BTC_USD" (fl.lit 1 1000) 1000 500_000
                          ∷ (row "BTC_EUR" (fl.lit 1 1000) 1000 500_000 ∷ []))))))

  -- `getHardcodedSpec`
  unfoldable pub get_hardcoded_spec : String → Option (MarketSpec F)
  get_hardcoded_spec code = lookup code specs

  abbrev pub put_spec :
      Time
      → String
      → Option (MarketSpec F)
      → (String → Option (MarketSpec F))
      → String
      → Option (MarketSpec F)
  put_spec now code none m symbol = m symbol
  put_spec now code (some spec) m symbol =
      if str_eq code symbol then some (record spec { fetched_at = now }) else m symbol

  -- the loop over product codes
  unfoldable pub populate :
      Time → List String → (String → Option (MarketSpec F)) → String → Option (MarketSpec F)
  populate now [] m = m
  populate now (code ∷ codes) m = populate now codes (put_spec now code (get_hardcoded_spec code) m)

  -- `refreshCacheUnsafe`, which returns no error; `markets` is `none` where there is no client
  unfoldable pub refresh_cache :
      Time → Option (Result Failure (List String)) → SpecCache F → SpecCache F
  refresh_cache now markets c = record {
    cache = populate now (codes_of markets) c.cache;
    last_fetch = now;
  }

  abbrev pub is_fresh : Time → SpecCache F → Bool
  is_fresh now c = ltb (now - c.last_fetch) cache_ttl

  abbrev pub found_or : Bool → Option (MarketSpec F) → Option (MarketSpec F)
  found_or fresh (some spec) = if fresh then some spec else none
  found_or fresh none = none

  abbrev pub or_not_found : Option (MarketSpec F) → Result SpecError (MarketSpec F)
  or_not_found (some spec) = ok spec
  or_not_found none = err spec_not_found

  -- under the write lock
  abbrev pub look_again :
      Time
      → Option (Result Failure (List String))
      → String
      → SpecCache F
      → Option (MarketSpec F)
      → Result SpecError (MarketSpec F) × SpecCache F
  look_again now markets symbol c (some spec) = (ok spec, c)
  look_again now markets symbol c none =
      let c' = refresh_cache now markets c in (or_not_found (c'.cache symbol), c')

  abbrev pub look :
      Time
      → Option (Result Failure (List String))
      → String
      → SpecCache F
      → Option (MarketSpec F)
      → Result SpecError (MarketSpec F) × SpecCache F
  look now markets symbol c (some spec) = (ok spec, c)
  look now markets symbol c none =
      look_again now markets symbol c (found_or (is_fresh now c) (c.cache symbol))

  -- `GetSpecification`, with the cache first read and the cache under the write lock
  unfoldable pub get_specification :
      Time
      → Option (Result Failure (List String))
      → String
      → SpecCache F
      → SpecCache F
      → Result SpecError (MarketSpec F) × SpecCache F
  get_specification now markets symbol read locked =
      look now markets symbol locked (found_or (is_fresh now read) (read.cache symbol))

  abbrev default_minimum : String → Result SpecError F
  default_minimum symbol =
      if is_any symbol ("BTC_JPY" ∷ ("BTC_USD" ∷ ("BTC_EUR" ∷ [])))
      then ok (fl.lit 1 1000)
      else if is_any symbol ("ETH_JPY" ∷ ("ETH_BTC" ∷ []))
      then ok (fl.lit 1 100)
      else if is_any symbol ("BCH_JPY" ∷ ("BCH_BTC" ∷ []))
      then ok (fl.lit 1 100)
      else if is_any symbol ("XRP_JPY" ∷ ("MONA_JPY" ∷ []))
      then ok (number 1)
      else err invalid_symbol

  abbrev minimum_of : String → Option (MarketSpec F) → Result SpecError F
  minimum_of symbol (some spec) = ok spec.size_min
  minimum_of symbol none = default_minimum symbol

  -- `getFallbackMinimumOrderSize`
  unfoldable pub get_fallback_minimum_order_size : String → Result SpecError F
  get_fallback_minimum_order_size symbol = minimum_of symbol (get_hardcoded_spec symbol)

  abbrev pub minimum_or_fallback : String → Result SpecError (MarketSpec F) → Result SpecError F
  minimum_or_fallback symbol (ok spec) = ok spec.size_min
  minimum_or_fallback symbol (err e) = get_fallback_minimum_order_size symbol

  -- `GetMinimumOrderSize`
  unfoldable pub get_minimum_order_size :
      Time
      → Option (Result Failure (List String))
      → String
      → SpecCache F
      → SpecCache F
      → Result SpecError F × SpecCache F
  get_minimum_order_size now markets symbol read locked =
      let (found, c) = get_specification now markets symbol read locked in
      (minimum_or_fallback symbol found, c)
