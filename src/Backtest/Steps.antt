-- ===== src/Backtest/Steps.antt =====
-- The books of the portfolio across the steps of the simulator, in exact arithmetic.
use gogocoin.Prelude.{
  ◌≡◌, refl, Bool, false, not, ◌||◌, Option, none, some, Bool-cases, inl, inr, str_eq,
}
use gogocoin.Prelude.Int.{ℤ}
use gogocoin.Float.{◌≼◌, nought}
use gogocoin.Float.Exact.{exact_float}
use gogocoin.Domain.{Time}
use gogocoin.Strategy.{Signal, Strategy, signal_buy, signal_sell}
use gogocoin.Backtest.Types.{Bar, Trade, ExitReason, SimulatorConfig, Position, Portfolio}
use gogocoin.Backtest.Fills.{
  exit_of, closed, leave, exit_position, handle_exit, entry_of, too_thin, too_poor, sell_position,
  enter, has_position, handle_signal, force_position, force_close,
}
use gogocoin.Backtest.Accounting.{
  IsBalanced, IsClosed, IsPriced, close_long-IsClosed, open_long-IsBalanced,
}

module _ (initial : ℤ) where
  -- The step did not panic, and the books are kept.
  abbrev pub IsKept : Option (Option (Trade ℤ) × Portfolio ℤ) → Type 0
  IsKept none = ⊥
  IsKept (some (_, p)) = IsBalanced initial p

  abbrev pub IsKeptWith : {S : Type 0} → Option (Option (Trade ℤ) × Portfolio ℤ × S) → Type 0
  IsKeptWith none = ⊥
  IsKeptWith (some (_, p, _)) = IsBalanced initial p

  -- No panic, the books are kept, and no position is open.
  abbrev pub IsFlat : Option (Option (Trade ℤ) × Portfolio ℤ) → Type 0
  IsFlat none = ⊥
  IsFlat (some (_, p)) = IsBalanced initial p × (p.position ≡ none)

  closed-IsKept : (o : Option (Trade ℤ × Portfolio ℤ)) → IsClosed initial o → IsKept (closed o)
  closed-IsKept none h = h
  closed-IsKept (some (t, p)) h = h.0

  module _ (cfg : SimulatorConfig ℤ) where
    leave-IsKept :
        (bar : Bar ℤ) (p : Portfolio ℤ) (q : Position ℤ) (o : Option (ℤ × ExitReason))
        → p.position ≡ some q
        → IsBalanced initial p
        → IsKept (leave cfg bar p q o)
    leave-IsKept bar p q none e h = h
    leave-IsKept bar p q (some (price, reason)) e h =
        closed-IsKept _ (close_long-IsClosed initial bar.timestamp price _ _ reason p e h)

    exit_position-IsKept :
        (bar : Bar ℤ) (p : Portfolio ℤ) (o : Option (Position ℤ))
        → p.position ≡ o
        → IsBalanced initial p
        → IsKept (exit_position cfg bar p o)
    exit_position-IsKept bar p none e h = h
    exit_position-IsKept bar p (some q) e h =
        leave-IsKept bar _ _ (exit_of cfg bar _) refl
          (record { balanced = rw e at h.balanced; priced = rw e at h.priced })

    -- In exact arithmetic, `HandleExit` never panics and keeps the books: the cash and what the
    -- position tied up stay equal to the initial cash and the net PnL of the trades.
    pub handle_exit-IsKept :
        (bar : Bar ℤ) (p : Portfolio ℤ) → IsBalanced initial p → IsKept (handle_exit cfg bar p)
    unfolding handle_exit
    handle_exit-IsKept bar p h = exit_position-IsKept bar p p.position refl h

    closed-IsFlat : (o : Option (Trade ℤ × Portfolio ℤ)) → IsClosed initial o → IsFlat (closed o)
    closed-IsFlat none h = h
    closed-IsFlat (some (t, p)) h = h

    force_position-IsFlat :
        (t : Time) (price : ℤ) (p : Portfolio ℤ) (o : Option (Position ℤ))
        → p.position ≡ o
        → IsBalanced initial p
        → IsFlat (force_position cfg t price p o)
    force_position-IsFlat t price p none e h = (h, e)
    force_position-IsFlat t price p (some q) e h =
        closed-IsFlat _ (close_long-IsClosed initial t price _ _ ExitReason.eod p e h)

    -- In exact arithmetic, `ForceClose` never panics, keeps the books and leaves no position.
    pub force_close-IsFlat :
        (t : Time) (price : ℤ) (p : Portfolio ℤ)
        → IsBalanced initial p
        → IsFlat (force_close cfg t price p)
    unfolding force_close
    force_close-IsFlat t price p h = force_position-IsFlat t price p p.position refl h

    module _ {S E : Type 0} (strat : Strategy ℤ S E) (now : Time) where
      sold-IsKeptWith :
          (s : S) (o : Option (Trade ℤ × Portfolio ℤ))
          → IsClosed initial o
          → IsKeptWith {S = S}
              (elim o [ none ↦ none | some (t, p') ↦ some (some t, p', strat.record_trade now s) ])
      sold-IsKeptWith s none h = h
      sold-IsKeptWith s (some (t, p)) h = h.0

      sell_position-IsKeptWith :
          (next : Bar ℤ) (p : Portfolio ℤ) (s : S) (o : Option (Position ℤ))
          → p.position ≡ o
          → IsBalanced initial p
          → IsKeptWith {S = S} (sell_position strat now cfg next p s o)
      sell_position-IsKeptWith next p s none e h = h
      sell_position-IsKeptWith next p s (some q) e h =
          sold-IsKeptWith s _
            (close_long-IsClosed initial next.timestamp _ _ _ ExitReason.signal p e h)

      entry_of-IsPriced :
          (bar next : Bar ℤ) (notional : ℤ) (tp sl : ℤ → ℤ)
          → IsPriced (some (entry_of cfg bar next notional tp sl))
      unfolding entry_of
      entry_of-IsPriced bar next notional tp sl = refl

      enter-IsKeptWith :
          (bar next : Bar ℤ) (p : Portfolio ℤ) (s : S)
          → p.position ≡ none
          → IsBalanced initial p
          → IsKeptWith {S = S} (enter strat now cfg bar next p s)
      unfolding enter
      enter-IsKeptWith bar next p s free h =
          let notional = strat.get_base_notional s bar.symbol in
          elim (Bool-cases
            (notional ≼ nought || too_thin cfg next notional || too_poor cfg p notional)) [
              | inl refused ↦ rw refused h
              | inr fine ↦ rw fine (
                  open_long-IsBalanced initial _ p free (entry_of-IsPriced bar next notional _ _) h)
            ]

      not_long :
          (o : Option (Position ℤ)) (b : Bool) → (has_position strat o || b) ≡ false → o ≡ none
      not_long none b h = refl
      not_long (some q) b h = cc

      -- In exact arithmetic, `HandleSignal` never panics and keeps the books, for every strategy.
      pub handle_signal-IsKept :
          (bar next : Bar ℤ) (signal : Signal ℤ) (has_next : Bool) (p : Portfolio ℤ) (s : S)
          → IsBalanced initial p
          → IsKeptWith {S = S} (handle_signal strat now cfg bar next signal has_next p s)
      unfolding handle_signal
      handle_signal-IsKept bar next signal has_next p s h =
          elim (Bool-cases (str_eq signal.action signal_buy)) [
            | inl buy ↦ elim (Bool-cases (has_position strat p.position || not has_next)) [
              | inl stay ↦ rw (buy, stay) h
              | inr go ↦ rw (buy, go) (enter-IsKeptWith bar next p s (not_long p.position _ go) h)
            ]
            | inr other ↦ elim (Bool-cases (str_eq signal.action signal_sell)) [
              | inl sell ↦ elim (Bool-cases (not has_next)) [
                | inl last ↦ rw (other, sell, last) h
                | inr go ↦
                    rw (other, sell, go) (sell_position-IsKeptWith next p s p.position refl h)
              ]
              | inr hold ↦ rw (other, hold) h
            ]
          ]
