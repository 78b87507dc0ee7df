-- ===== src/Analytics/Totals.antt =====
-- How the sums and counts of a metric hang together, in whole yen.
use gogocoin.Prelude.{
  ℕ, ◌+◌, ◌≤◌, ◌≡◌, refl, ◌∙◌, ap, List, [], ◌∷◌, length, arith, Bool-cases, inl, inr, false,
}
use gogocoin.Prelude.Int.{ℤ, pos, negsuc, ◌+ℤ◌, ◌-ℤ◌, neg_ℤ, int_laws, ltb_ℤ}
use gogocoin.Float.Exact.{exact_float}
use gogocoin.Domain.{Trade}
use gogocoin.Analytics.{Tally, empty_tally, counted, tally_trades, pnl_of, calculate_from_trades}

abbrev pub sum_of : List (Trade ℤ) → ℤ
sum_of [] = pos 0
sum_of (t ∷ ts) = pnl_of t +ℤ sum_of ts

-- what the loop keeps
record IsConsistent (total : ℤ) (n : ℕ) (t : Tally ℤ) : Type 0 where
  summed : t.total_pnl ≡ total
  split : t.total_pnl ≡ t.total_win -ℤ t.total_loss
  few : t.winning_trades + t.losing_trades ≤ n

won_split : (p w l x : ℤ) → p ≡ w -ℤ l → p +ℤ x ≡ (w +ℤ x) -ℤ l
won_split p w l x h = ap (λ y. y +ℤ x) h ∙ omega int_laws

lost_split : (p w l x : ℤ) → p ≡ w -ℤ l → p +ℤ x ≡ w -ℤ (l +ℤ neg_ℤ x)
lost_split p w l x h = ap (λ y. y +ℤ x) h ∙ omega int_laws

zero_of : (x : ℤ) → ltb_ℤ (pos 0) x ≡ false → ltb_ℤ x (neg_ℤ (pos 0)) ≡ false → x ≡ pos 0
unfolding neg_ℤ
zero_of (pos n) a b = ap pos (ground arith)
zero_of (negsuc n) a b = absurd (ground arith)

even_split :
    (p w l x : ℤ)
    → p ≡ w -ℤ l
    → ltb_ℤ (pos 0) x ≡ false
    → ltb_ℤ x (neg_ℤ (pos 0)) ≡ false
    → p +ℤ x ≡ w -ℤ l
even_split p w l x h a b = rw (zero_of x a b) (omega int_laws ∙ h)

counted-IsConsistent :
    (x total : ℤ) (n : ℕ) (t : Tally ℤ)
    → IsConsistent total n t
    → IsConsistent (total +ℤ x) (n + 1) (counted x t)
unfolding counted
counted-IsConsistent x total n t h = elim (Bool-cases (ltb_ℤ (pos 0) x)) [
  | inl won ↦ rw won (record {
    summed = ap (λ y. y +ℤ x) h.summed;
    split = won_split t.total_pnl t.total_win t.total_loss x h.split;
    few = omega (arith, h.few);
  })
  | inr no_win ↦ elim (Bool-cases (ltb_ℤ x (neg_ℤ (pos 0)))) [
    | inl lost ↦
        rw (no_win, lost)
          (record {
            summed = ap (λ y. y +ℤ x) h.summed;
            split = lost_split t.total_pnl t.total_win t.total_loss x h.split;
            few = omega (arith, h.few);
          })
    | inr even ↦
        rw (no_win, even)
          (record {
            summed = ap (λ y. y +ℤ x) h.summed;
            split = even_split t.total_pnl t.total_win t.total_loss x h.split no_win even;
            few = omega (arith, h.few);
          })
  ]
]

tally_trades-IsConsistent :
    (ts : List (Trade ℤ)) (total : ℤ) (n : ℕ) (t : Tally ℤ)
    → IsConsistent total n t
    → IsConsistent (total +ℤ sum_of ts) (n + length ts) (tally_trades ts t)
unfolding tally_trades
tally_trades-IsConsistent [] total n t h = record {
  summed = h.summed ∙ omega int_laws;
  split = h.split;
  few = omega (arith, h.few);
}
tally_trades-IsConsistent (u ∷ ts) total n t h =
    let rest =
      tally_trades-IsConsistent ts (total +ℤ pnl_of u) (n + 1) (counted (pnl_of u) t)
        (counted-IsConsistent (pnl_of u) total n t h) in
    record {
      summed = rest.summed ∙ omega int_laws;
      split = rest.split;
      few = omega (arith, rest.few);
    }

-- In whole yen, the total PnL of the metric is the sum of the trades' PnL, and it is what was won less
-- what was lost, so no trade is counted on the wrong side or twice; and the winning and the losing
-- trades are at most all trades.
pub calculate_from_trades-total :
    (initial : ℤ) (trades : List (Trade ℤ))
    → let m = calculate_from_trades initial trades in
      let t = tally_trades trades empty_tally in
      (m.total_pnl ≡ sum_of trades)
      × (m.total_pnl ≡ t.total_win -ℤ t.total_loss)
      × (m.winning_trades + m.losing_trades ≤ m.total_trades)
unfolding calculate_from_trades tally_trades
calculate_from_trades-total initial [] = (refl, omega int_laws, omega arith)
calculate_from_trades-total initial (t ∷ ts) =
    let h =
      tally_trades-IsConsistent (t ∷ ts) (pos 0) 0 empty_tally
        (record { summed = refl; split = omega int_laws; few = omega arith }) in
    (h.summed ∙ omega int_laws, h.split, omega (arith, h.few))
