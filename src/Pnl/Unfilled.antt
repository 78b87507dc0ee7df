-- ===== src/Pnl/Unfilled.antt =====
-- What `CalculateAndSave` does with a BUY of which nothing was filled.
use gogocoin.Prelude.{◌≡◌, refl, true, [], ◌∷◌, ◌++◌, List}
use gogocoin.Float.{Float}
use gogocoin.Domain.{Time, or_now, Position, OrderResult, Trade}
use gogocoin.Persistence.{exec, save_position, save_trade, with_transaction}
use gogocoin.Pnl.Bookkeeping.{
  Calculator, calculate_and_save, save_or_fall_back, save_all, save_bought, position_of, update_all,
}

module _ {F : Type 0} ⦃fl : Float F⦄ (now : Time) (calculator : Calculator) where
  -- the row that `SavePosition` inserts
  abbrev pub row_of : OrderResult F → Position F
  row_of r = record (position_of r) {
    product_code = "";
    created_at = or_now now r.created_at;
    updated_at = now;
  }

  pub unfilled_buy_saved :
      (r : OrderResult F) (ps : List (Position F)) (ts : List (Trade F))
      → calculator.has_db ≡ true
      → r.side ≡ "BUY"
      → (calculate_and_save now calculator r
          (record { positions = ps; trades = ts; faults = [] })).1.positions
        ≡ ps ++ (row_of r ∷ [])
  unfolding calculate_and_save save_or_fall_back with_transaction save_all save_bought save_position
      save_trade exec update_all
  unfilled_buy_saved r ps ts db buy = rw (db, buy) refl
