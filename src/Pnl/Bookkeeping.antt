-- ===== src/Pnl/Bookkeeping.antt =====
-- `Calculator` and its methods. `has_db` is `pc.db != nil`; `now` is the clock during the call.
use gogocoin.Prelude.{
  String, Bool, Option, none, some, List, [], ◌∷◌, Result, ok, err, map_err, if◌then◌else◌, str_eq,
  not,
}
use gogocoin.Float.{Float, ◌⊕◌, ◌⊖◌, ◌⊗◌, ◌≺◌, ◌≼◌, ◌≐◌, nought}
use gogocoin.Domain.{Time, Position, OrderResult, Trade, update_status}
use gogocoin.Persistence.{
  Store, DbError, Action, get_open_positions, save_position, update_position, save_trade,
  with_transaction,
}

pub record Calculator : Type 0 where
  pub has_db : Bool
  pub strategy_name : String

pub data PnlError : Type 0 where
  database : DbError → PnlError
  prepare_sell_failed : DbError → PnlError
  save_position_failed : DbError → PnlError
  update_position_failed : String → DbError → PnlError
  save_trade_failed : DbError → PnlError

-- `SetStrategyName`
unfoldable pub set_strategy_name : String → Calculator → Calculator
set_strategy_name name c = record c { strategy_name = name }

-- What the matching loop leaves: the size not yet matched, the cost of the matched part, and the
-- positions to update.
pub record Matched (F : Type 0) : Type 0 where
  pub unmatched : F
  pub cost : F
  pub touched : List (Position F)

pub record SellData (F : Type 0) : Type 0 where
  pub pnl : F
  pub positions : List (Position F)
  pub error : Option DbError

abbrev pub Saving : Type 0 → Type 0 → Type 0
Saving F A = Store F → Result PnlError A × Store F

module _ {F : Type 0} where
  abbrev pub and_then : Saving F (Unit {0}) → Saving F (Unit {0}) → Saving F (Unit {0})
  and_then m k s = let (r, s') = m s in elim r [ ok _ ↦ k s' | err e ↦ (err e, s') ]

  abbrev pub lift : (DbError → PnlError) → Action F (Unit {0}) → Saving F (Unit {0})
  lift wrap m s = let (r, s') = m s in (map_err wrap r, s')

  abbrev pub done : Saving F (Unit {0})
  done s = (ok tt, s)

abbrev pub name_or_unknown : Calculator → String
name_or_unknown c = if str_eq c.strategy_name "" then "unknown" else c.strategy_name

module _ {F : Type 0} ⦃fl : Float F⦄ where
  abbrev pub match_size : F → Position F → F
  match_size remaining p = if p.remaining_size ≺ remaining then p.remaining_size else remaining

  -- one round of the loop on the in-memory copy of a position
  unfoldable pub consume : F → F → Position F → Position F
  unfolding update_status
  consume price m p = update_status (record p {
    used_size = p.used_size ⊕ m;
    remaining_size = p.remaining_size ⊖ m;
    current_price = price;
  })

  -- the loop of `prepareSellData`
  unfoldable pub match_positions : F → F → F → List (Position F) → Matched F
  unfolding consume
  match_positions price remaining cost [] = record {
    unmatched = remaining;
    cost = cost;
    touched = [];
  }
  match_positions price remaining cost (p ∷ ps) =
      let m = match_size remaining p in
      let rest = match_positions price (remaining ⊖ m) (cost ⊕ p.entry_price ⊗ m) ps in
      if remaining ≼ nought
      then record { unmatched = remaining; cost = cost; touched = [] }
      else record rest { touched = consume price m p ∷ rest.touched }

  abbrev pub effective_size : OrderResult F → F
  effective_size r = if r.filled_size ≐ nought then r.size else r.filled_size

  abbrev pub effective_price : OrderResult F → F
  effective_price r = if r.average_price ≐ nought then r.price else r.average_price

  -- the part of `prepareSellData` behind the query
  unfoldable pub sell_data : OrderResult F → List (Position F) → SellData F
  unfolding match_positions
  sell_data r open_positions =
      let price = effective_price r in
      let m = match_positions price r.filled_size nought open_positions in
      let matched = r.filled_size ⊖ m.unmatched in
      let booked = if nought ≺ matched then price ⊗ matched ⊖ m.cost ⊖ r.fee else fl.neg r.fee in
      record { pnl = booked; positions = m.touched; error = none }

  abbrev sold : OrderResult F → Result DbError (List (Position F)) → SellData F
  sold r (ok ps) = sell_data r ps
  sold r (err e) = record { pnl = fl.neg r.fee; positions = []; error = some e }

  -- `prepareSellData`
  unfoldable pub prepare_sell_data : OrderResult F → Store F → SellData F × Store F
  prepare_sell_data r s =
      let (found, s') = get_open_positions r.symbol "BUY" s in (sold r found, s')

  abbrev pub trade_of : OrderResult F → String → F → Trade F
  trade_of r name profit = record {
    symbol = r.symbol;
    product_code = r.symbol;
    side = r.side;
    type = r.type;
    amount = effective_size r;
    size = effective_size r;
    price = effective_price r;
    fee = r.fee;
    status = r.status;
    order_id = r.order_id;
    executed_at = r.updated_at;
    created_at = r.created_at;
    updated_at = 0;
    strategy_name = name;
    pnl = profit;
  }

  abbrev pub position_of : OrderResult F → Position F
  position_of r = record {
    symbol = r.symbol;
    product_code = "";
    side = "BUY";
    size = effective_size r;
    used_size = nought;
    remaining_size = effective_size r;
    entry_price = effective_price r;
    current_price = effective_price r;
    unrealized_pl = nought;
    pnl = nought;
    status = "OPEN";
    order_id = r.order_id;
    created_at = r.created_at;
    updated_at = r.updated_at;
  }

  unfoldable pub update_all : Time → List (Position F) → Saving F (Unit {0})
  update_all now [] = done
  update_all now (p ∷ ps) =
      and_then (lift (update_position_failed p.order_id) (update_position now p))
        (update_all now ps)

  -- a BUY opens a position
  unfoldable pub save_bought : Time → OrderResult F → Saving F (Unit {0})
  save_bought now r =
      if str_eq r.side "BUY"
      then lift save_position_failed (save_position now (position_of r))
      else done

  -- the body of the transaction
  unfoldable pub save_all : Time → OrderResult F → List (Position F) → Trade F → Saving F (Unit {0})
  save_all now r updates t =
      and_then (save_bought now r)
        (and_then (update_all now updates) (lift save_trade_failed (save_trade now t)))

  -- `UpdatePosition` for each, errors logged only
  unfoldable pub update_each : Time → List (Position F) → Store F → Store F
  update_each now [] s = s
  update_each now (p ∷ ps) s = update_each now ps (update_position now p s).1

  abbrev pub applied : Time → SellData F × Store F → F × Store F
  applied now (d, s) = elim (d.error) [
    | none ↦ (d.pnl, update_each now d.positions s)
    | some _ ↦ (d.pnl, s)
  ]

  -- the `switch` of `calculateAndSaveWithoutTx`
  unfoldable pub write_positions : Time → OrderResult F → Store F → F × Store F
  write_positions now r s =
      if str_eq r.side "BUY"
      then (fl.neg r.fee, (save_position now (position_of r) s).1)
      else if str_eq r.side "SELL"
      then applied now (prepare_sell_data r s)
      else (nought, s)

  -- `calculateAndSaveWithoutTx`: the PnL is returned with the error too
  unfoldable pub calculate_and_save_without_tx :
      Time → OrderResult F → String → Store F → (F × Option PnlError) × Store F
  calculate_and_save_without_tx now r name s =
      let (profit, s') = write_positions now r s in
      let (saved, s'') = save_trade now (trade_of r name profit) s' in
      ((profit, elim saved [ ok _ ↦ none | err e ↦ some (save_trade_failed e) ]), s'')

  -- `WithTransaction` and the fallback behind it
  unfoldable pub save_or_fall_back :
      Time
      → OrderResult F
      → String
      → F
      → List (Position F)
      → Store F
      → (F × Option PnlError) × Store F
  save_or_fall_back now r name profit updates s =
      let (result, s') =
        with_transaction database (save_all now r updates (trade_of r name profit)) s in
      elim result [
        | ok _ ↦ ((profit, none), s')
        | err _ ↦ calculate_and_save_without_tx now r name s'
      ]

  abbrev pub prepared :
      Time → OrderResult F → String → SellData F × Store F → (F × Option PnlError) × Store F
  prepared now r name (d, s) = elim (d.error) [
    | none ↦ save_or_fall_back now r name d.pnl d.positions s
    | some e ↦ ((nought, some (prepare_sell_failed e)), s)
  ]

  -- `CalculateAndSave`
  unfoldable pub calculate_and_save :
      Time → Calculator → OrderResult F → Store F → (F × Option PnlError) × Store F
  calculate_and_save now c r s =
      let name = name_or_unknown c in
      if not c.has_db
      then ((nought, none), s)
      else if str_eq r.side "BUY"
      then save_or_fall_back now r name (fl.neg r.fee) [] s
      else if str_eq r.side "SELL"
      then prepared now r name (prepare_sell_data r s)
      else save_or_fall_back now r name nought [] s
