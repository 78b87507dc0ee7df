-- ===== src/Domain.antt =====
-- internal/domain: the data that the components exchange. An instant (`time.Time`) is a number of
-- nanoseconds, with 0 for the zero value. Left out, since no modelled code reads or writes them: the
-- database ids, the `Strategy` field of a trade and its metadata map.
use Prim.Native.String.{len, slice}
use gogocoin.Prelude.{ℕ, ◌-◌, String, Bool, ◌&&◌, ltb, ◌==◌, if◌then◌else◌, str_eq, refl, ◌≡◌}
use gogocoin.Float.{Float, ◌≺◌, ◌≼◌, nought}

abbrev pub Time : Type 0
Time = ℕ

abbrev pub zero_time : Time
zero_time = 0

abbrev pub is_zero : Time → Bool
is_zero t = t == 0

-- `if t.IsZero() { t = now }`
abbrev pub or_now : Time → Time → Time
or_now now t = if is_zero t then now else t

pub record Balance (F : Type 0) : Type 0 where
  pub currency : String
  pub amount : F
  pub available : F
  pub timestamp : Time

pub record Position (F : Type 0) : Type 0 where
  pub symbol : String
  pub product_code : String
  pub side : String
  pub size : F
  pub used_size : F
  pub remaining_size : F
  pub entry_price : F
  pub current_price : F
  pub unrealized_pl : F
  pub pnl : F
  pub status : String
  pub order_id : String
  pub created_at : Time
  pub updated_at : Time

pub record OrderRequest (F : Type 0) : Type 0 where
  pub symbol : String
  pub side : String
  pub type : String
  pub size : F
  pub price : F
  pub time_in_force : String
  pub minute_to_expire : ℕ

pub record OrderResult (F : Type 0) : Type 0 where
  pub order_id : String
  pub symbol : String
  pub side : String
  pub type : String
  pub size : F
  pub price : F
  pub status : String
  pub filled_size : F
  pub remaining_size : F
  pub average_price : F
  pub total_commission : F
  pub fee : F
  pub created_at : Time
  pub updated_at : Time

pub record Trade (F : Type 0) : Type 0 where
  pub symbol : String
  pub product_code : String
  pub side : String
  pub type : String
  pub amount : F
  pub size : F
  pub price : F
  pub fee : F
  pub status : String
  pub order_id : String
  pub executed_at : Time
  pub created_at : Time
  pub updated_at : Time
  pub strategy_name : String
  pub pnl : F

module _ {F : Type 0} ⦃fl : Float F⦄ where
  abbrev pub status_of : F → F → String
  status_of remaining used =
      if remaining ≼ nought then "CLOSED" else if nought ≺ used then "PARTIAL" else "OPEN"

  -- `Position.UpdateStatus`
  unfoldable pub update_status : Position F → Position F
  update_status p = record p { status = status_of p.remaining_size p.used_size }

-- `ExtractCurrency`
unfoldable pub extract_currency : String → String
extract_currency symbol =
    let stem = len symbol - 4 in
    if ltb 4 (len symbol) && str_eq (slice symbol stem (len symbol)) "_JPY"
    then slice symbol 0 stem
    else symbol

extract_currency_btc : extract_currency "BTC_JPY" ≡ "BTC"
unfolding extract_currency
extract_currency_btc = refl
