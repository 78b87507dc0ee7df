-- ===== src/Pnl/Saving.antt =====
-- What `CalculateAndSave` leaves in the table of trades, whichever statements the database fails.
use text.Mathlib.TextPositions.{eq_refl}
use gogocoin.Prelude.{
  ◌≡◌, refl, ◌∙◌, String, true, Option, none, some, List, [], ◌∷◌, arith, Result, ok, err, map_err,
  Option-cases, Bool-cases, inl, inr, if◌then◌else◌, str_eq, eq_iff,
}
use gogocoin.Float.{Float, nought}
use gogocoin.Domain.{Time, Position, OrderResult, Trade}
use gogocoin.Persistence.{
  Store, upsert, exec, query, save_trade, save_position, update_position, get_open_positions,
  with_transaction, drawn, draw, DbError,
}
use gogocoin.Persistence.Atomic.{with_transaction-SameTables, with_transaction-commits}
use gogocoin.Pnl.Bookkeeping.{
  Calculator, PnlError, SellData, Saving, save_bought, and_then, lift, prepared, database,
  save_trade_failed, position_of, name_or_unknown, trade_of, prepare_sell_data, update_all,
  update_each, save_all, write_positions, calculate_and_save_without_tx, save_or_fall_back,
  calculate_and_save,
}

module _ {F : Type 0} where
  -- the row of an order
  abbrev pub find_trade : String → List (Trade F) → Option (Trade F)
  find_trade id [] = none
  find_trade id (t ∷ ts) = if str_eq t.order_id id then some t else find_trade id ts

  -- There is a row, and it agrees with the trade in all that an upsert writes.
  abbrev pub IsRecorded : Trade F → Option (Trade F) → Type 0
  IsRecorded t none = ⊥
  IsRecorded t (some row) =
      (row.order_id ≡ t.order_id)
      × (row.pnl ≡ t.pnl)
      × (row.status ≡ t.status)
      × (row.size ≡ t.size)
      × (row.price ≡ t.price)
      × (row.fee ≡ t.fee)
      × (row.strategy_name ≡ t.strategy_name)

lifted_ok :
    (wrap : DbError → PnlError) (r : Result DbError (Unit {0})) → map_err wrap r ≡ ok tt → r ≡ ok tt
lifted_ok wrap (ok _) h = refl
lifted_ok wrap (err e) h = cc

module _ {F : Type 0} ⦃fl : Float F⦄ where
  upsert-IsRecorded :
      (now : Time) (t : Trade F) (ts : List (Trade F))
      → IsRecorded t (find_trade t.order_id (upsert now t ts))
  upsert-IsRecorded now t [] = rw (eq_refl t.order_id) (refl, refl, refl, refl, refl, refl, refl)
  upsert-IsRecorded now t (row ∷ ts) = elim (Bool-cases (str_eq row.order_id t.order_id)) [
    | inl same ↦
        rw (same, same)
          ((eq_iff row.order_id t.order_id).0 same, refl, refl, refl, refl, refl, refl)
    | inr other ↦ rw (other, other) (upsert-IsRecorded now t ts)
  ]

  save_trade-IsRecorded :
      (now : Time) (t : Trade F) (s : Store F)
      → (save_trade now t s).0 ≡ ok tt
      → IsRecorded t (find_trade t.order_id (save_trade now t s).1.trades)
  unfolding save_trade exec
  save_trade-IsRecorded now t s h = elim (Bool-cases ((draw s.faults).0)) [
    | inl failed ↦ absurd (ground arith)
    | inr passed ↦ rw passed (upsert-IsRecorded now t s.trades)
  ]

  save_trade_fails :
      (now : Time) (t : Trade F) (s : Store F) {e : DbError}
      → (save_trade now t s).0 ≡ err e
      → (save_trade now t s).1.trades ≡ s.trades
  unfolding save_trade exec
  save_trade_fails now t s h = ground arith

  trades-save_position :
      (now : Time) (p : Position F) (s : Store F) → (save_position now p s).1.trades ≡ s.trades
  unfolding save_position exec
  trades-save_position now p s = ground arith

  trades-update_position :
      (now : Time) (p : Position F) (s : Store F) → (update_position now p s).1.trades ≡ s.trades
  unfolding update_position exec
  trades-update_position now p s = ground arith

  trades-prepare_sell_data :
      (r : OrderResult F) (s : Store F) → (prepare_sell_data r s).1.trades ≡ s.trades
  unfolding prepare_sell_data get_open_positions query
  trades-prepare_sell_data r s = ground arith

  trades-update_each :
      (now : Time) (ps : List (Position F)) (s : Store F) → (update_each now ps s).trades ≡ s.trades
  unfolding update_each
  trades-update_each now [] s = refl
  trades-update_each now (p ∷ ps) s =
      trades-update_each now ps (update_position now p s).1 ∙ trades-update_position now p s

  trades-write_positions :
      (now : Time) (r : OrderResult F) (s : Store F) → (write_positions now r s).1.trades ≡ s.trades
  unfolding write_positions
  trades-write_positions now r s = ground (
    arith,
    trades-save_position now (position_of r) s,
    trades-prepare_sell_data r s,
    trades-update_each now (prepare_sell_data r s).0.positions (prepare_sell_data r s).1,
  )

  -- How a call that began with the trades `before` ended: without an error the order's row agrees
  -- with the returned PnL, and with an error no trade was written.
  abbrev pub Outcome :
      OrderResult F → String → List (Trade F) → (F × Option PnlError) × Store F → Type 0
  Outcome r name before ((profit, none), s) =
      IsRecorded (trade_of r name profit) (find_trade r.order_id s.trades)
  Outcome r name before ((profit, some e), s) = s.trades ≡ before

  result_Outcome :
      (r : OrderResult F) (name : String) (profit : F) (before : List (Trade F))
      (result : Result DbError (Unit {0}) × Store F)
      → (result.0 ≡ ok tt
          → IsRecorded (trade_of r name profit) (find_trade r.order_id result.1.trades))
      → ((e : DbError) → result.0 ≡ err e → result.1.trades ≡ before)
      → Outcome r name before
          ((profit, elim result.0 [ ok _ ↦ none | err e ↦ some (save_trade_failed e) ]), result.1)
  result_Outcome r name profit before (ok _, s) saved kept = saved refl
  result_Outcome r name profit before (err e, s) saved kept = kept e refl

  without_tx-Outcome :
      (now : Time) (r : OrderResult F) (name : String) (s : Store F)
      → Outcome r name s.trades (calculate_and_save_without_tx now r name s)
  unfolding calculate_and_save_without_tx
  without_tx-Outcome now r name s =
      let (profit, s') = write_positions now r s in
      let t = trade_of r name profit in
      result_Outcome r name profit s.trades (save_trade now t s') (save_trade-IsRecorded now t s')
        (λ e h. save_trade_fails now t s' h ∙ trades-write_positions now r s)

  -- what `k` grants when it succeeds, it grants behind `m`
  bound_ok :
      (k : Saving F (Unit {0})) (P : Store F → Type 0)
      (first : Result PnlError (Unit {0}) × Store F)
      → ((s : Store F) → (k s).0 ≡ ok tt → P (k s).1)
      → (and_then (λ _. first) k first.1).0 ≡ ok tt
      → P (and_then (λ _. first) k first.1).1
  bound_ok k P (ok _, s) rule h = rule s h
  bound_ok k P (err e, s) rule h = cc

  and_then_ok :
      (m k : Saving F (Unit {0})) (P : Store F → Type 0) (s : Store F)
      → ((s' : Store F) → (k s').0 ≡ ok tt → P (k s').1)
      → (and_then m k s).0 ≡ ok tt
      → P (and_then m k s).1
  and_then_ok m k P s rule h = bound_ok k P (m s) rule h

  save_all-IsRecorded :
      (now : Time) (r : OrderResult F) (ps : List (Position F)) (t : Trade F) (s : Store F)
      → (save_all now r ps t s).0 ≡ ok tt
      → IsRecorded t (find_trade t.order_id (save_all now r ps t s).1.trades)
  unfolding save_all
  save_all-IsRecorded now r ps t s h =
      let written : Store F → Type 0 = λ s'. IsRecorded t (find_trade t.order_id s'.trades) in
      let last : Saving F (Unit {0}) = lift save_trade_failed (save_trade now t) in
      and_then_ok (save_bought now r) (and_then (update_all now ps) last) written s
        (λ s'.
          and_then_ok (update_all now ps) last written s'
            (λ s'' e. save_trade-IsRecorded now t s'' (lifted_ok save_trade_failed _ e)))
        h

  ended :
      (now : Time) (r : OrderResult F) (name : String) (profit : F) (s : Store F)
      (result : Result PnlError (Unit {0}) × Store F)
      → ((e : PnlError) → result.0 ≡ err e → result.1.trades ≡ s.trades)
      → (result.0 ≡ ok tt
          → IsRecorded (trade_of r name profit) (find_trade r.order_id result.1.trades))
      → Outcome r name s.trades (elim result.0 [
        | ok _ ↦ ((profit, none), result.1)
        | err _ ↦ calculate_and_save_without_tx now r name result.1
      ])
  ended now r name profit s (ok _, s') kept saved = saved refl
  ended now r name profit s (err e, s') kept saved =
      rw (← kept e refl) (without_tx-Outcome now r name s')

  save_or_fall_back-Outcome :
      (now : Time) (r : OrderResult F) (name : String) (profit : F) (ps : List (Position F))
      (s : Store F)
      → Outcome r name s.trades (save_or_fall_back now r name profit ps s)
  unfolding save_or_fall_back
  save_or_fall_back-Outcome now r name profit ps s =
      let body = save_all now r ps (trade_of r name profit) in
      ended now r name profit s (with_transaction database body s)
        (λ e h. (with_transaction-SameTables database body s h).1)
        (λ h.
          let (good, same) = with_transaction-commits database body s h in
          rw (same.1) (save_all-IsRecorded now r ps (trade_of r name profit) (drawn s) good))

  prepared-Outcome :
      (now : Time) (r : OrderResult F) (name : String) (before : List (Trade F))
      (found : SellData F × Store F)
      → found.1.trades ≡ before
      → Outcome r name before (prepared now r name found)
  prepared-Outcome now r name before (d, s) h = elim (Option-cases (d.error)) [
    | inl fine ↦ rw (fine, ← h) (save_or_fall_back-Outcome now r name d.pnl d.positions s)
    | inr (e, failed) ↦ rw failed h
  ]

  -- With a database, a call that returns no error has recorded the order under the PnL that it
  -- returns, with its status, fee, price and size; a call that returns an error has written no
  -- trade. This holds for every pattern of database failures, in the transaction or in the fallback.
  pub calculate_and_save-Outcome :
      (now : Time) (c : Calculator) (r : OrderResult F) (s : Store F)
      → c.has_db ≡ true
      → Outcome r (name_or_unknown c) s.trades (calculate_and_save now c r s)
  unfolding calculate_and_save
  calculate_and_save-Outcome now c r s h = elim (Bool-cases (str_eq r.side "BUY")) [
    | inl buy ↦
        rw (h, buy) (save_or_fall_back-Outcome now r (name_or_unknown c) (fl.neg r.fee) [] s)
    | inr rest ↦ elim (Bool-cases (str_eq r.side "SELL")) [
      | inl sell ↦
          rw (h, rest, sell)
            (prepared-Outcome now r (name_or_unknown c) s.trades (prepare_sell_data r s)
              (trades-prepare_sell_data r s))
      | inr other ↦
          rw (h, rest, other) (save_or_fall_back-Outcome now r (name_or_unknown c) nought [] s)
    ]
  ]
