-- ===== src/Trading/Placed.antt =====
-- What the trader sends to the exchange, and what it makes of the answer.
use gogocoin.Prelude.{
  ◌≡◌, refl, String, Bool, not, ◌&&◌, ◌||◌, if◌then◌else◌, false, ◌⊎◌, inl, inr, Option, none, some,
  List, [], ◌∷◌, Result, ok, err, arith, Bool-cases, >>=-eq-ok, >>-eq-ok, map_err-eq-ok, map_err,
  reject_if-eq-ok, str_eq, eq_iff,
}
use gogocoin.Float.{Float, IsFinite, ◌⊕◌, ◌⊗◌, ◌≺◌, ◌≼◌, nought, number}
use gogocoin.Domain.{Balance, OrderRequest, OrderResult}
use gogocoin.Risk.{Failure}
use gogocoin.Trading.Validation.{
  validate_order, check_balance, check_jpy, check_coins, last_balance, get_currency_from_symbol,
}
use gogocoin.Trading.Placement.{
  OrderBody, Trader, PlaceError, invalid_order, balance_unreadable, not_placed, answer_missing,
  PostError, refused, unparsed, Effect, posted, cache_invalidated, build_order_request,
  build_order_result, check_order, send, accepted, watched, order_side, place_order,
}

neither :
    (a b : String) (side : String)
    → (not (str_eq side a) && not (str_eq side b)) ≡ false
    → (side ≡ a) ⊎ (side ≡ b)
neither a b side h = elim (Bool-cases (str_eq side a)) [
  | inl is_a ↦ inl ((eq_iff side a).0 is_a)
  | inr not_a ↦ elim (Bool-cases (str_eq side b)) [
    | inl is_b ↦ inr ((eq_iff side b).0 is_b)
    | inr not_b ↦ absurd (ground arith)
  ]
]

none_of : (a b : Bool) → (a || b) ≡ false → (a ≡ false) × (b ≡ false)
none_of a b h = ground arith

not_both : (a b : Bool) → (a && b) ≡ false → (a ≡ false) ⊎ (b ≡ false)
not_both a b h = ground arith

module _ {F : Type 0} ⦃fl : Float F⦄ (trader : Trader F) (order : OrderRequest F) where
  -- the order is well formed
  pub record IsValid : Type 0 where
    pub named : str_eq order.symbol "" ≡ false
    pub sided : (order.side ≡ "BUY") ⊎ (order.side ≡ "SELL")
    pub size_finite : IsFinite order.size
    pub price_finite : IsFinite order.price
    pub size_positive : (order.size ≼ nought) ≡ false
    pub limit_priced : (str_eq order.type "LIMIT" ≡ false) ⊎ ((order.price ≼ nought) ≡ false)

  validate_order-IsValid : validate_order order ≡ ok tt → IsValid
  unfolding validate_order
  validate_order-IsValid h =
      let (h5, limit) = >>-eq-ok _ _ h in
      let (h4, positive) = >>-eq-ok _ _ h5 in
      let (h3, price) = >>-eq-ok _ _ h4 in
      let (h2, size) = >>-eq-ok _ _ h3 in
      let (symbol, side) = >>-eq-ok _ _ h2 in
      record {
        named = reject_if-eq-ok _ _ symbol;
        sided = neither "BUY" "SELL" order.side (reject_if-eq-ok _ _ side);
        size_finite = none_of _ _ (reject_if-eq-ok _ _ size);
        price_finite = none_of _ _ (reject_if-eq-ok _ _ price);
        size_positive = reject_if-eq-ok _ _ positive;
        limit_priced = not_both _ _ (reject_if-eq-ok _ _ limit);
      }

  -- the balances cover the order: for a BUY at the market there is some JPY, for another BUY the
  -- notional with the fee, for a SELL the coins
  abbrev pub IsFunded : Option (Balance F) → Type 0
  IsFunded none = ⊥
  IsFunded (some jpy) =
      if str_eq order.type "MARKET"
      then (jpy.available ≼ nought) ≡ false
      else ((jpy.available ≺ order.size ⊗ order.price ⊗ (number 1 ⊕ trader.fee_rate)) ≡ false)

  abbrev pub IsHeld : Option (Balance F) → Type 0
  IsHeld none = ⊥
  IsHeld (some coins) = (coins.available ≺ order.size) ≡ false

  abbrev pub IsCovered : List (Balance F) → Type 0
  IsCovered bs =
      if str_eq order.side "BUY"
      then IsFunded (last_balance "JPY" none bs)
      else IsHeld (last_balance (get_currency_from_symbol order.symbol) none bs)

  -- The body of a request for the order, which is valid and covered by the balances that the trader
  -- read.
  pub record IsChecked (body : OrderBody F) : Type 0 where
    pub same_symbol : body.product_code ≡ order.symbol
    pub same_side : body.side ≡ order.side
    pub same_size : body.size ≡ trader.float32 order.size
    pub valid : IsValid
    pub balances : List (Balance F)
    pub read : trader.balance ≡ ok balances
    pub covered : IsCovered balances

  IsCovered-jpy : (o : Option (Balance F)) → check_jpy order trader.fee_rate o ≡ ok tt → IsFunded o
  IsCovered-jpy none h = cc
  IsCovered-jpy (some jpy) h = elim (Bool-cases (str_eq order.type "MARKET")) [
    | inl market ↦ rw market (reject_if-eq-ok _ _ (rw market at h))
    | inr other ↦ rw other (reject_if-eq-ok _ _ (rw other at h))
  ]

  IsCovered-coins : (o : Option (Balance F)) → check_coins order o ≡ ok tt → IsHeld o
  IsCovered-coins none h = cc
  IsCovered-coins (some coins) h = reject_if-eq-ok _ _ h

  check_balance-IsCovered :
      (bs : List (Balance F)) → check_balance order bs trader.fee_rate ≡ ok tt → IsCovered bs
  unfolding check_balance
  check_balance-IsCovered bs h = elim (Bool-cases (str_eq order.side "BUY")) [
    | inl buy ↦ rw buy (IsCovered-jpy _ (rw buy at h))
    | inr other ↦ rw other (IsCovered-coins _ (rw other at h))
  ]

  side_kept : (order.side ≡ "BUY") ⊎ (order.side ≡ "SELL") → order_side order.side ≡ order.side
  side_kept (inl buy) = rw buy refl
  side_kept (inr sell) = rw sell refl

  check_order-IsChecked :
      check_order trader order ≡ ok tt → IsChecked (build_order_request trader order)
  unfolding check_order build_order_request
  check_order-IsChecked h =
      let (_, valid, rest) = >>=-eq-ok (map_err invalid_order (validate_order order)) _ h in
      let (bs, read, covered) = >>=-eq-ok (map_err balance_unreadable trader.balance) _ rest in
      let good = validate_order-IsValid (map_err-eq-ok _ _ valid) in
      record {
        same_symbol = refl;
        same_side = side_kept good.sided;
        same_size = refl;
        valid = good;
        balances = bs;
        read = map_err-eq-ok _ _ read;
        covered = check_balance-IsCovered bs (map_err-eq-ok _ _ covered);
      }

  -- how a call ended: its result and its effects
  abbrev pub IsPlaced : Result PlaceError (OrderResult F) × List (Effect F) → Type 0
  IsPlaced (ok result, effects) =
      (body : OrderBody F) × (id : Option String) × IsChecked body
      × (trader.post body ≡ ok id)
      × (effects ≡ posted body ∷ (cache_invalidated ∷ watched trader result))
      × (result ≡ build_order_result trader order id)
      × (result.size ≡ order.size)
      × (result.status ≡ "ACTIVE")
  IsPlaced (err e, effects) =
      ((check_order trader order ≡ err e) × (effects ≡ []))
      ⊎ ((body : OrderBody F) × IsChecked body
          × (effects ≡ posted body ∷ [])
          × (((f : Failure) × (trader.post body ≡ err (refused f)) × (e ≡ not_placed f))
              ⊎ ((trader.post body ≡ err unparsed) × (e ≡ answer_missing))))

  answered :
      (answer : Result PostError (Option String))
      → trader.post (build_order_request trader order) ≡ answer
      → IsChecked (build_order_request trader order)
      → IsPlaced (accepted trader order (build_order_request trader order) answer)
  unfolding build_order_result
  answered (err (refused f)) same checked =
      inr (build_order_request trader order, checked, refl, inl (f, same, refl))
  answered (err unparsed) same checked =
      inr (build_order_request trader order, checked, refl, inr (same, refl))
  answered (ok id) same checked =
      (build_order_request trader order, id, checked, same, refl, refl, refl, refl)

  sent :
      (checks : Result PlaceError (Unit {0}))
      → check_order trader order ≡ checks
      → IsPlaced (send trader order checks)
  sent (err e) h = inl (h, refl)
  sent (ok _) h =
      answered (trader.post (build_order_request trader order)) refl (check_order-IsChecked h)

  -- `PlaceOrder` asks the order service at most once, which may send the request to the exchange several
  -- times, and only for an order that is well formed, with the order's symbol, side and size. Before,
  -- it read balances that hold the coins of a SELL, the notional with the fee of a BUY with a limit,
  -- and for a BUY at the market just some JPY. If it returns a result, the service returned an
  -- identifier and the result is an active order of the same size with it, the cache of balances was
  -- dropped and the monitor started if there is one. If it returns an error, either a check failed
  -- and the service was not asked, or the service returned an error. If the service panics, so does
  -- `PlaceOrder`. After an error or a panic of the service the cache is kept and no monitor is
  -- started, whether or not the exchange has the order.
  pub place_order-IsPlaced : IsPlaced (place_order trader order)
  unfolding place_order
  place_order-IsPlaced = sent (check_order trader order) refl
