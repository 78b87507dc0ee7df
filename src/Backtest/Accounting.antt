-- ===== src/Backtest/Accounting.antt =====
-- The books of the portfolio in exact arithmetic (`float64` at whole numbers).
use gogocoin.Prelude.{◌≡◌, refl, sym, subst, ap, ◌∙◌, Option, none, some, List, [], ◌∷◌, ◌++◌}
use gogocoin.Prelude.Int.{ℤ, pos, pos_part, neg_part, ◌+ℤ◌, ◌-ℤ◌, ◌*ℤ◌, int_laws, sub_mul_ℤ}
use gogocoin.Float.Exact.{exact_float}
use gogocoin.Domain.{Time}
use gogocoin.Backtest.Types.{Trade, ExitReason, Position, Portfolio}
use gogocoin.Backtest.Book.{
  mark_to_market, open_long, trade_of, close_position, close_long, new_portfolio,
}

abbrev pub net : List (Trade ℤ) → ℤ
net [] = pos 0
net (t ∷ ts) = t.net_pnl +ℤ net ts

net-append : (ts : List (Trade ℤ)) (t : Trade ℤ) → net (ts ++ t ∷ []) ≡ net ts +ℤ t.net_pnl
net-append [] t = omega int_laws
net-append (u ∷ ts) t = rw (net-append ts t) (omega int_laws)

-- what opening the position took out of the cash
abbrev pub tied : Option (Position ℤ) → ℤ
tied none = pos 0
tied (some p) = p.notional +ℤ p.entry_fee +ℤ p.entry_slip

abbrev pub IsPriced : Option (Position ℤ) → Type 0
IsPriced none = Unit
IsPriced (some p) = p.notional ≡ p.entry_price *ℤ p.quantity

-- The books: the cash and what the open position tied up are the initial cash and the net PnL of
-- the trades, and the position's notional is its price times its quantity.
pub record IsBalanced (initial : ℤ) (p : Portfolio ℤ) : Type 0 where
  pub balanced : p.cash +ℤ tied p.position ≡ initial +ℤ net p.trades
  pub priced : IsPriced p.position

module _ (initial : ℤ) where
  pub new_portfolio-IsBalanced : IsBalanced initial (new_portfolio initial)
  new_portfolio-IsBalanced = record { balanced = refl; priced = tt }

  pub mark_to_market-IsBalanced :
      (t : Time) (price : ℤ) (p : Portfolio ℤ)
      → IsBalanced initial p
      → IsBalanced initial (mark_to_market t price p)
  unfolding mark_to_market
  mark_to_market-IsBalanced t price p h = record { balanced = h.balanced; priced = h.priced }

  opened : (c x n f s : ℤ) → c +ℤ pos 0 ≡ x → (c -ℤ (n +ℤ f +ℤ s)) +ℤ (n +ℤ f +ℤ s) ≡ x
  opened c x n f s h = omega int_laws ∙ h

  -- Opening a position when none is open keeps the books.
  pub open_long-IsBalanced :
      (q : Position ℤ) (p : Portfolio ℤ)
      → p.position ≡ none
      → IsPriced (some q)
      → IsBalanced initial p
      → IsBalanced initial (open_long q p)
  unfolding open_long
  open_long-IsBalanced q p free priced h = record {
    balanced = opened p.cash _ q.notional q.entry_fee q.entry_slip (rw free at h.balanced);
    priced = priced;
  }

  -- the sums of `CloseLong`
  settled :
      (c n f s x g m e fee slip : ℤ)
      → c +ℤ (n +ℤ f +ℤ s) ≡ x +ℤ m
      → n ≡ e
      → (c +ℤ (g -ℤ fee -ℤ slip)) +ℤ pos 0 ≡ x +ℤ (m +ℤ (g -ℤ e -ℤ (f +ℤ fee) -ℤ (s +ℤ slip)))
  settled c n f s x g m e fee slip h k =
      omega (int_laws, ap pos_part h, ap neg_part h, ap pos_part k, ap neg_part k)

  trade_of-net_pnl :
      (q : Position ℤ) (t : Time) (price fee slip : ℤ) (reason : ExitReason)
      → (trade_of q t price fee slip reason).net_pnl
        ≡ price *ℤ q.quantity
          -ℤ q.entry_price *ℤ q.quantity
          -ℤ (q.entry_fee +ℤ fee)
          -ℤ (q.entry_slip +ℤ slip)
  unfolding trade_of
  trade_of-net_pnl q t price fee slip reason = rw (sub_mul_ℤ price q.entry_price q.quantity)

  -- The close did not panic, the books are kept, and no position is left.
  abbrev pub IsClosed : Option (Trade ℤ × Portfolio ℤ) → Type 0
  IsClosed none = ⊥
  IsClosed (some (_, p)) = IsBalanced initial p × (p.position ≡ none)

  close_position-IsClosed :
      (t : Time) (price fee slip : ℤ) (reason : ExitReason) (p : Portfolio ℤ) (q : Position ℤ)
      → p.cash +ℤ tied (some q) ≡ initial +ℤ net p.trades
      → IsPriced (some q)
      → IsClosed (close_position t price fee slip reason p (some q))
  close_position-IsClosed t price fee slip reason p q h priced = (
    record {
      balanced =
          rw (net-append, trade_of-net_pnl)
            (settled p.cash _ _ _ initial (price *ℤ q.quantity) _ _ fee slip h priced);
      priced = tt;
    },
    refl,
  )

  -- In exact arithmetic, closing the open position keeps the books, at any price, fee and slippage,
  -- and leaves no position.
  pub close_long-IsClosed :
      (t : Time) (price fee slip : ℤ) (reason : ExitReason) (p : Portfolio ℤ) {q : Position ℤ}
      → p.position ≡ some q
      → IsBalanced initial p
      → IsClosed (close_long t price fee slip reason p)
  unfolding close_long
  close_long-IsClosed t price fee slip reason p {q} e h =
      subst (λ o. IsClosed (close_position t price fee slip reason p o)) (sym e)
        (close_position-IsClosed t price fee slip reason p q (rw e at h.balanced)
          (rw e at h.priced))
