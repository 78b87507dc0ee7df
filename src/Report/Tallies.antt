-- ===== src/Report/Tallies.antt =====
-- What the loops of `ComputeSummary` count, in exact arithmetic (`float64` at whole numbers).
use gogocoin.Prelude.{arith, ◌≡◌, ◌∙◌, ap, ℕ, suc, ◌+◌, List, [], ◌∷◌, length, inl, inr, Bool-cases}
use gogocoin.Prelude.Int.{ℤ, ◌+ℤ◌, ◌-ℤ◌, neg_ℤ, int_laws}
use gogocoin.Float.{◌≺◌, nought}
use gogocoin.Float.Exact.{exact_float}
use gogocoin.Backtest.{Trade, EquityPoint, ExitReason}
use gogocoin.Backtest.Accounting.{net}
use gogocoin.Report.Summary.{Summary, count_reason, count_win, count_trade, count_trades, drawdowns}

abbrev exits : Summary ℤ → ℕ
exits s = s.tp_hits + s.sl_hits + s.signal_exits + s.eod_exits

-- The summary counts that many trades of that net PnL: each is a win or a loss and has one reason,
-- and the net PnL is what the wins brought less what the losses took.
pub record IsTally (n : ℕ) (total : ℤ) (s : Summary ℤ) : Type 0 where
  pub counted : s.total_trades ≡ n
  pub summed : s.net_pnl ≡ total
  pub outcomes : s.wins + s.losses ≡ n
  pub reasons : exits s ≡ n
  pub split : s.net_pnl ≡ s.gross_profit -ℤ s.gross_loss

won_split : (p g l x : ℤ) → p ≡ g -ℤ l → p +ℤ x ≡ (g +ℤ x) -ℤ l
won_split p g l x h = ap (λ y. y +ℤ x) h ∙ omega int_laws

lost_split : (p g l x : ℤ) → p ≡ g -ℤ l → p +ℤ x ≡ g -ℤ (l +ℤ neg_ℤ x)
lost_split p g l x h = ap (λ y. y +ℤ x) h ∙ omega int_laws

count_win-IsTally :
    (n : ℕ) (total pnl : ℤ) (s : Summary ℤ)
    → s.total_trades ≡ suc n
    → s.net_pnl ≡ total
    → suc (s.wins + s.losses) ≡ suc n
    → exits s ≡ suc n
    → ((s.net_pnl ≡ (s.gross_profit +ℤ pnl) -ℤ s.gross_loss)
        × (s.net_pnl ≡ s.gross_profit -ℤ (s.gross_loss +ℤ neg_ℤ pnl)))
    → IsTally (suc n) total (count_win pnl s)
count_win-IsTally n total pnl s counted summed outcomes reasons split =
    elim (Bool-cases (nought ≺ pnl)) [
      | inl won ↦ rw won (record {
        counted = counted;
        summed = summed;
        outcomes = omega (arith, outcomes);
        reasons = reasons;
        split = split.0;
      })
      | inr lost ↦ rw lost (record {
        counted = counted;
        summed = summed;
        outcomes = omega (arith, outcomes);
        reasons = reasons;
        split = split.1;
      })
    ]

counted-IsTally :
    (n : ℕ) (total pnl : ℤ) (reason : ExitReason) (s : Summary ℤ)
    → s.total_trades ≡ suc n
    → s.net_pnl ≡ total
    → s.wins + s.losses ≡ n
    → exits s ≡ n
    → ((s.net_pnl ≡ (s.gross_profit +ℤ pnl) -ℤ s.gross_loss)
        × (s.net_pnl ≡ s.gross_profit -ℤ (s.gross_loss +ℤ neg_ℤ pnl)))
    → IsTally (suc n) total (count_win pnl (count_reason reason s))
counted-IsTally n total pnl ExitReason.tp s a b c d e =
    count_win-IsTally n total pnl _ a b (ap suc c) (omega (arith, d)) e
counted-IsTally n total pnl ExitReason.sl s a b c d e =
    count_win-IsTally n total pnl _ a b (ap suc c) (omega (arith, d)) e
counted-IsTally n total pnl ExitReason.signal s a b c d e =
    count_win-IsTally n total pnl _ a b (ap suc c) (omega (arith, d)) e
counted-IsTally n total pnl ExitReason.eod s a b c d e =
    count_win-IsTally n total pnl _ a b (ap suc c) (omega (arith, d)) e

count_trade-IsTally :
    (n : ℕ) (total : ℤ) (s : Summary ℤ) (t : Trade ℤ)
    → IsTally n total s
    → IsTally (suc n) (total +ℤ t.net_pnl) (count_trade s t)
unfolding count_trade
count_trade-IsTally n total s t h =
    counted-IsTally n _ t.net_pnl t.reason _ (ap suc h.counted) (ap (λ x. x +ℤ t.net_pnl) h.summed)
      h.outcomes h.reasons
      (
        won_split s.net_pnl s.gross_profit s.gross_loss t.net_pnl h.split,
        lost_split s.net_pnl s.gross_profit s.gross_loss t.net_pnl h.split,
      )

regroup : (a b c : ℤ) → a +ℤ b +ℤ c ≡ a +ℤ (b +ℤ c)
regroup a b c = omega int_laws

pub count_trades-IsTally :
    (ts : List (Trade ℤ)) (n : ℕ) (total : ℤ) (s : Summary ℤ)
    → IsTally n total s
    → IsTally (length ts + n) (total +ℤ net ts) (count_trades s ts)
count_trades-IsTally [] n total s h = record {
  counted = h.counted ∙ omega arith;
  summed = h.summed ∙ omega int_laws;
  outcomes = h.outcomes ∙ omega arith;
  reasons = h.reasons ∙ omega arith;
  split = h.split;
}
count_trades-IsTally (t ∷ ts) n total s h =
    let rest =
      count_trades-IsTally ts (suc n) _ (count_trade s t) (count_trade-IsTally n total s t h) in
    record {
      counted = rest.counted ∙ omega arith;
      summed = rest.summed ∙ regroup total t.net_pnl (net ts);
      outcomes = rest.outcomes ∙ omega arith;
      reasons = rest.reasons ∙ omega arith;
      split = rest.split;
    }

pub drawdowns-IsTally :
    (ps : List (EquityPoint ℤ)) (n : ℕ) (total : ℤ) (s : Summary ℤ)
    → IsTally n total s
    → IsTally n total (drawdowns s ps)
drawdowns-IsTally [] n total s h = h
drawdowns-IsTally (p ∷ ps) n total s h = elim (Bool-cases (p.drawdown ≺ s.max_drawdown)) [
  | inl deeper ↦ rw deeper (
      drawdowns-IsTally ps n total _ (record {
        counted = h.counted;
        summed = h.summed;
        outcomes = h.outcomes;
        reasons = h.reasons;
        split = h.split;
      }))
  | inr above ↦ rw above (drawdowns-IsTally ps n total s h)
]
