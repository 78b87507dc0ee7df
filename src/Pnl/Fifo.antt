-- ===== src/Pnl/Fifo.antt =====
-- The matching loop of `prepareSellData` under IEEE 754 arithmetic: which positions it uses up.
use gogocoin.Prelude.{◌≡◌, refl, ◌⊎◌, inl, inr, true, false, List, [], ◌∷◌, arith, All, Bool-cases}
use gogocoin.Float.{Float, IsIeee, IsFinite, ◌⊖◌, ◌≼◌, nought}
use gogocoin.Domain.{Position, update_status, status_of}
use gogocoin.Pnl.Bookkeeping.{match_size, consume, match_positions}

module _ {F : Type 0} ⦃fl : Float F⦄ where
  -- a row as `GetOpenPositions` returns it: sizes that are finite and not negative
  pub record IsHolding (p : Position F) : Type 0 where
    pub remaining_finite : IsFinite p.remaining_size
    pub remaining_nonneg : (nought ≼ p.remaining_size) ≡ true

  -- `q` is `p` after a sell at `price` took some of it.
  pub record Consumed (price : F) (p q : Position F) : Type 0 where
    pub same_order : q.order_id ≡ p.order_id
    pub same_symbol : q.symbol ≡ p.symbol
    pub same_size : q.size ≡ p.size
    pub same_entry : q.entry_price ≡ p.entry_price
    pub marked : q.current_price ≡ price
    pub left_nonneg : (nought ≼ q.remaining_size) ≡ true
    pub left_le : (q.remaining_size ≼ p.remaining_size) ≡ true
    pub labelled : q.status ≡ status_of q.remaining_size q.used_size

  -- The updates `qs` stand for the first of the positions, in their order. Each but the last is
  -- used up, and the last is too unless the whole size was matched; a position is passed over only
  -- when nothing is left to match.
  abbrev pub InOrder : F → F → List (Position F) → List (Position F) → Type 0
  InOrder price unmatched [] [] = Unit
  InOrder price unmatched [] (q ∷ qs) = ⊥
  InOrder price unmatched (p ∷ ps) [] = (unmatched ≼ nought) ≡ true
  InOrder price unmatched (p ∷ ps) (q ∷ qs) =
      Consumed price p q
      × (((q.remaining_size ≼ nought) ≡ true) × InOrder price unmatched ps qs
          ⊎ ((unmatched ≼ nought) ≡ true) × (qs ≡ []))

  module _ (laws : IsIeee F) where
    open laws use {
      le_refl, le_trans, le_of_lt, le_of_not-lt, lt_of_not-le, nought_finite, sub_finite,
      sub_bounds, sub_self,
    }

    -- the size that one round takes
    match_size_lem :
        (r : F) (p : Position F)
        → IsFinite r
        → IsHolding p
        → (r ≼ nought) ≡ false
        → IsFinite (match_size r p)
          × ((nought ≼ match_size r p) ≡ true)
          × ((match_size r p ≼ r) ≡ true)
          × ((match_size r p ≼ p.remaining_size) ≡ true)
    match_size_lem r p f h pos = ground (
      arith,
      le_of_lt nought r (lt_of_not-le r nought f nought_finite pos),
      le_refl r f,
      le_refl p.remaining_size h.remaining_finite,
      le_of_lt p.remaining_size r,
      le_of_not-lt p.remaining_size r h.remaining_finite f,
    )

    consume-Consumed :
        (price r : F) (p : Position F)
        → IsFinite r
        → IsHolding p
        → (r ≼ nought) ≡ false
        → Consumed price p (consume price (match_size r p) p)
    unfolding consume update_status
    consume-Consumed price r p f h pos =
        let (finite, nonneg, _, le) = match_size_lem r p f h pos in
        let (left, less) =
          sub_bounds p.remaining_size (match_size r p) h.remaining_finite finite nonneg le in
        record {
          same_order = refl;
          same_symbol = refl;
          same_size = refl;
          same_entry = refl;
          marked = refl;
          left_nonneg = left;
          left_le = less;
          labelled = refl;
        }

    -- After a round, either the position or the size to match is used up.
    used_up :
        (price r : F) (p : Position F)
        → IsFinite r
        → IsHolding p
        → (((consume price (match_size r p) p).remaining_size ≼ nought) ≡ true)
          ⊎ ((r ⊖ match_size r p ≼ nought) ≡ true)
    unfolding consume update_status
    used_up price r p f h =
        ground (arith, sub_self r f, sub_self p.remaining_size h.remaining_finite)

    match_positions_stop :
        (price r cost : F) (ps : List (Position F))
        → (r ≼ nought) ≡ true
        → match_positions price r cost ps ≡ record { unmatched = r; cost = cost; touched = [] }
    unfolding match_positions
    match_positions_stop price r cost [] e = refl
    match_positions_stop price r cost (p ∷ ps) e = rw e

    -- The loop takes the open positions in their order, uses each up before it goes on to the next,
    -- and writes no negative size, provided that the size to match and the remaining sizes are
    -- finite and the latter not negative.
    pub match_positions-InOrder :
        (price r cost : F) (ps : List (Position F))
        → IsFinite r
        → All IsHolding ps
        → let m = match_positions price r cost ps in InOrder price m.unmatched ps m.touched
    unfolding match_positions
    match_positions-InOrder price r cost [] f h = tt
    match_positions-InOrder price r cost (p ∷ ps) f (hold, holds) = elim (Bool-cases (r ≼ nought)) [
      | inl stop ↦ rw stop stop
      | inr go ↦ rw go (
        consume-Consumed price r p f hold go,
        elim (used_up price r p f hold) [
          | inl used ↦
              let (finite, nonneg, le, _) = match_size_lem r p f hold go in
              inl (
                used,
                match_positions-InOrder price (r ⊖ match_size r p) _ ps
                    (sub_finite r (match_size r p) f finite nonneg le) holds,
              )
          | inr stop ↦
              inr (rw (match_positions_stop price (r ⊖ match_size r p) _ ps stop) (stop, refl))
        ],
      )
    ]
