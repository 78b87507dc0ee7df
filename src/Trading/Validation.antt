-- ===== src/Trading/Validation.antt =====
-- order_validator.go. `none` stands for a market specification service that was not injected.
use Prim.Native.String.{len, slice}
use gogocoin.Prelude.{
  ℕ, zero, suc, ◌+◌, String, not, ◌&&◌, ◌||◌, Option, none, some, List, [], ◌∷◌, Result, ok, err,
  ◌>>◌, reject_if, ltb, if◌then◌else◌, str_eq,
}
use gogocoin.Float.{Float, ◌⊕◌, ◌⊗◌, ◌≺◌, ◌≼◌, nought, number}
use gogocoin.Domain.{Balance, OrderRequest}
use gogocoin.Risk.{Failure}

pub data OrderError : Type 0 where
  symbol_required bad_side bad_size bad_price size_not_positive limit_price_not_positive :
      OrderError
  balance_not_found no_jpy insufficient_balance : OrderError

-- the place of the first '_' among the `n` bytes from `i` on
first_underscore : String → ℕ → ℕ → Option ℕ
first_underscore symbol i zero = none
first_underscore symbol i (suc n) =
    let rest = first_underscore symbol (i + 1) n in
    if str_eq (slice symbol i (i + 1)) "_" then some i else rest

abbrev cut_at : String → Option ℕ → String
cut_at symbol none = symbol
cut_at symbol (some i) = if ltb 0 i then slice symbol 0 i else symbol

-- `getCurrencyFromSymbol`
unfoldable pub get_currency_from_symbol : String → String
unfolding first_underscore
get_currency_from_symbol symbol = cut_at symbol (first_underscore symbol 0 (len symbol))

module _ {F : Type 0} ⦃fl : Float F⦄ where
  -- the `switch` of `GetMinimumOrderSize`
  unfoldable pub default_order_size : String → F
  default_order_size symbol =
      if str_eq symbol "BTC_JPY"
      then fl.lit 1 1000
      else if str_eq symbol "ETH_JPY"
      then fl.lit 1 100
      else if str_eq symbol "XRP_JPY"
      then number 1
      else if str_eq symbol "XLM_JPY"
      then number 10
      else if str_eq symbol "MONA_JPY"
      then fl.lit 1 10
      else if str_eq symbol "BCH_JPY"
      then fl.lit 1 1000
      else fl.lit 1 1000

  -- `GetMinimumOrderSize`
  unfoldable pub get_minimum_order_size : Option (String → Result Failure F) → String → F
  get_minimum_order_size none symbol = default_order_size symbol
  get_minimum_order_size (some get) symbol = elim (get symbol) [
    | ok size ↦ size
    | err _ ↦ default_order_size symbol
  ]

  -- `ValidateOrder`
  unfoldable pub validate_order : OrderRequest F → Result OrderError (Unit {0})
  validate_order order =
      reject_if (str_eq order.symbol "") symbol_required
      >> reject_if (not (str_eq order.side "BUY") && not (str_eq order.side "SELL")) bad_side
      >> reject_if (fl.is_nan order.size || fl.is_inf order.size) bad_size
      >> reject_if (fl.is_nan order.price || fl.is_inf order.price) bad_price
      >> reject_if (order.size ≼ nought) size_not_positive
      >> reject_if (str_eq order.type "LIMIT" && order.price ≼ nought) limit_price_not_positive

  -- the map of the balances: the last entry of a currency counts
  abbrev pub last_balance : String → Option (Balance F) → List (Balance F) → Option (Balance F)
  last_balance c found [] = found
  last_balance c found (b ∷ bs) = last_balance c (if str_eq b.currency c then some b else found) bs

  abbrev pub check_jpy : OrderRequest F → F → Option (Balance F) → Result OrderError (Unit {0})
  check_jpy order fee_rate none = err balance_not_found
  check_jpy order fee_rate (some jpy) =
      if str_eq order.type "MARKET"
      then reject_if (jpy.available ≼ nought) no_jpy
      else reject_if (jpy.available ≺ order.size ⊗ order.price ⊗ (number 1 ⊕ fee_rate))
          insufficient_balance

  abbrev pub check_coins : OrderRequest F → Option (Balance F) → Result OrderError (Unit {0})
  check_coins order none = err balance_not_found
  check_coins order (some coins) = reject_if (coins.available ≺ order.size) insufficient_balance

  -- `CheckBalance`
  unfoldable pub check_balance :
      OrderRequest F → List (Balance F) → F → Result OrderError (Unit {0})
  check_balance order balances fee_rate =
      if str_eq order.side "BUY"
      then check_jpy order fee_rate (last_balance "JPY" none balances)
      else check_coins order (last_balance (get_currency_from_symbol order.symbol) none balances)
