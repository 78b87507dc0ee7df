-- ===== src/Persistence/Statements.antt =====
-- position_repo.go, trade_repo.go, transaction.go: statements and transactions.
use gogocoin.Prelude.{
  ℕ, String, Bool, false, ◌&&◌, ◌||◌, List, [], ◌∷◌, ◌++◌, Result, ok, err, leb, if◌then◌else◌,
  str_eq, select, take, map,
}
use gogocoin.Float.{Float, ◌≺◌, nought}
use gogocoin.Domain.{Time, or_now, Position, Trade}

pub record Store (F : Type 0) : Type 0 where
  pub positions : List (Position F)
  pub trades : List (Trade F)
  pub faults : List Bool

-- the error of the driver
pub data DbError : Type 0 where
  driver : DbError

abbrev pub Action : Type 0 → Type 0 → Type 0
Action F A = Store F → Result DbError A × Store F

abbrev pub draw : List Bool → Bool × List Bool
draw [] = (false, [])
draw (b ∷ bs) = (b, bs)

module _ {F : Type 0} where
  abbrev pub drawn : Store F → Store F
  drawn s = record s { faults = (draw s.faults).1 }

  -- a statement that writes
  unfoldable pub exec : (Store F → Store F) → Action F (Unit {0})
  exec f s = if (draw s.faults).0 then (err driver, drawn s) else (ok tt, f (drawn s))

  -- a statement that reads
  unfoldable pub query : {A : Type 0} → (Store F → A) → Action F A
  query f s = if (draw s.faults).0 then (err driver, drawn s) else (ok (f s), drawn s)

-- a stable sort: `before a b` says that `a` may stand in front of `b`
insert_by : {A : Type 0} → (A → A → Bool) → A → List A → List A
insert_by before a [] = a ∷ []
insert_by before a (b ∷ bs) = if before a b then a ∷ (b ∷ bs) else b ∷ insert_by before a bs

unfoldable pub sort_by : {A : Type 0} → (A → A → Bool) → List A → List A
unfolding insert_by
sort_by before [] = []
sort_by before (a ∷ bs) = insert_by before a (sort_by before bs)

module _ {F : Type 0} ⦃fl : Float F⦄ where
  -- `status IN ('OPEN', 'PARTIAL')`
  abbrev pub is_active : Position F → Bool
  is_active p = str_eq p.status "OPEN" || str_eq p.status "PARTIAL"

  abbrev pub is_open : String → String → Position F → Bool
  is_open symbol side p =
      str_eq p.symbol symbol && str_eq p.side side && is_active p && nought ≺ p.remaining_size

  -- the columns that `GetOpenPositions` reads: not the product code and not the realized PnL
  abbrev pub scan_open : Position F → Position F
  scan_open p = record p { product_code = ""; pnl = nought }

  -- `GetOpenPositions`
  unfoldable pub get_open_positions : String → String → Action F (List (Position F))
  unfolding query
  get_open_positions symbol side = query λ s.
      map scan_open
        (sort_by (λ p q. leb p.created_at q.created_at) (select (is_open symbol side) s.positions))

  -- `SavePosition`, alike inside and outside a transaction
  unfoldable pub save_position : Time → Position F → Action F (Unit {0})
  unfolding exec
  save_position now p = exec λ s.
      let row = record p {
        product_code = "";
        created_at = or_now now p.created_at;
        updated_at = now;
      } in
      record s { positions = s.positions ++ (row ∷ []) }

  -- the columns that `UpdatePosition` writes, in every row with the order's id
  abbrev pub overwrite : Time → Position F → Position F → Position F
  overwrite now p row =
      if str_eq row.order_id p.order_id
      then record row {
        used_size = p.used_size;
        remaining_size = p.remaining_size;
        current_price = p.current_price;
        unrealized_pl = p.unrealized_pl;
        status = p.status;
        updated_at = now;
      }
      else row

  -- `UpdatePosition`, alike inside and outside a transaction
  unfoldable pub update_position : Time → Position F → Action F (Unit {0})
  unfolding exec
  update_position now p = exec λ s. record s { positions = map (overwrite now p) s.positions }

  -- `CloseOpenPositions`
  unfoldable pub close_open_positions : Time → String → String → Action F (Unit {0})
  unfolding exec
  close_open_positions now symbol side = exec λ s.
      let close = λ (p : Position F).
        if str_eq p.symbol symbol && str_eq p.side side && is_active p
        then record p { status = "CLOSED"; updated_at = now }
        else p in
      record s { positions = map close s.positions }

  -- the row of `ON CONFLICT(order_id) DO UPDATE`
  abbrev pub merge_trade : Time → Trade F → Trade F → Trade F
  merge_trade now t row = record row {
    status = t.status;
    size = t.size;
    price = t.price;
    fee = t.fee;
    pnl = t.pnl;
    strategy_name = t.strategy_name;
    executed_at = or_now now t.executed_at;
    updated_at = now;
  }

  -- `order_id` is unique in the table
  abbrev pub upsert : Time → Trade F → List (Trade F) → List (Trade F)
  upsert now t [] =
      record t {
        amount = nought;
        product_code = "";
        executed_at = or_now now t.executed_at;
        created_at = or_now now t.created_at;
        updated_at = now;
      }
      ∷ []
  upsert now t (row ∷ rows) =
      if str_eq row.order_id t.order_id
      then merge_trade now t row ∷ rows
      else row ∷ upsert now t rows

  -- `SaveTrade`, alike inside and outside a transaction
  unfoldable pub save_trade : Time → Trade F → Action F (Unit {0})
  unfolding exec
  save_trade now t = exec λ s. record s { trades = upsert now t s.trades }

  -- `GetRecentTrades`
  unfoldable pub get_recent_trades : ℕ → Action F (List (Trade F))
  unfolding query
  get_recent_trades limit =
      query λ s. take limit (sort_by (λ t u. leb u.executed_at t.executed_at) s.trades)

  -- `GetTradesSince` with no limit
  unfoldable pub get_trades_since : Time → Action F (List (Trade F))
  unfolding query
  get_trades_since since = query λ s.
      sort_by (λ t u. leb u.executed_at t.executed_at)
        (select (λ (t : Trade F). leb since t.executed_at) s.trades)

-- `Rollback`: the tables are as they stood at `before`. It may fail too, by a fault of its own, but
-- `WithTransaction` only logs that, and the database drops what was not committed all the same.
abbrev pub rollback : {F : Type 0} → Store F → Store F → Store F
rollback before s = record before { faults = (draw s.faults).1 }

abbrev finish :
    {F : Type 0} {E : Type 0}
    → (DbError → E)
    → Store F
    → Result E (Unit {0}) × Store F
    → Result E (Unit {0}) × Store F
finish wrap before (err e, s) = (err e, rollback before s)
finish wrap before (ok u, s) =
    if (draw s.faults).0 then (err (wrap driver), rollback before (drawn s)) else (ok u, drawn s)

-- `WithTransaction`: begin, run the body, commit; on an error of the body or of the commit, roll
-- back. The body returns errors of its own type and does not panic.
unfoldable pub with_transaction :
    {F E : Type 0}
    → (DbError → E)
    → (Store F → Result E (Unit {0}) × Store F)
    → Store F
    → Result E (Unit {0}) × Store F
with_transaction wrap body s =
    if (draw s.faults).0
    then (err (wrap driver), drawn s)
    else finish wrap (drawn s) (body (drawn s))
