-- ===== src/Engine/Startup.antt =====
-- `mergeSymbols` and `initDailyTradeCount`. The set of the symbols seen is the list of those written.
use gogocoin.Prelude.{
  ℕ, String, Bool, true, false, Option, none, some, List, [], ◌∷◌, ◌++◌, Result, ok, err, count_if,
  ◌==◌, ◌||◌, if◌then◌else◌, str_eq,
}
use gogocoin.Domain.{Time, Trade}
use gogocoin.Risk.{Failure, jst_day}

abbrev pub is_seen : String → List String → Bool
is_seen s [] = false
is_seen s (t ∷ ts) = if str_eq t s then true else is_seen s ts

-- one of the two loops, on what was written before it
unfoldable pub append_new : List String → List String → List String
append_new [] out = out
append_new (s ∷ symbols) out =
    append_new symbols (if str_eq s "" || is_seen s out then out else out ++ (s ∷ []))

-- `mergeSymbols`
unfoldable pub merge_symbols : List String → List String → List String
merge_symbols primary extra = append_new extra (append_new primary [])

-- `initDailyTradeCount`: the count that the strategy is given, or `none`. `recent` are the 200 trades
-- that the repository returns.
unfoldable pub initial_trade_count :
    {F : Type 0} → Time → Result Failure (List (Trade F)) → Option ℕ
initial_trade_count now (err e) = none
initial_trade_count now (ok recent) =
    some (count_if (λ t. jst_day t.executed_at == jst_day now) recent)
