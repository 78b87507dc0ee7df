-- ===== src/Analytics/Agreement.antt =====
-- The total PnL of the metrics and the one that the risk manager measures the loss limit with
-- (usecase/risk/manager.go).
use mathlib.Core.List.{Permᴰ}
use gogocoin.Prelude.{
  ◌≡◌, refl, sym, ◌∙◌, ap, Bool, true, false, Bool-cases, inl, inr, ◌&&◌, some, List, [], ◌∷◌, ok,
  arith, length, suc, Option-cases, str_eq, if◌then◌else◌,
}
use gogocoin.Prelude.Int.{ℤ, pos, negsuc, ◌+ℤ◌, neg_ℤ, int_laws, eqb_ℤ}
use gogocoin.Float.{◌≐◌, ◌≺◌, nought}
use gogocoin.Float.Exact.{exact_float}
use gogocoin.Domain.{is_zero, Trade}
use gogocoin.Risk.{ManagerConfig, Answers, cumulative_pnl, sum_pnl, total_of}
use gogocoin.Analytics.{PerformanceMetric, pnl_of, calculate_from_trades}
use gogocoin.Analytics.Totals.{sum_of, calculate_from_trades-total}
use gogocoin.Analytics.Updates.{PerformanceAnalytics, trades_in_scope, updated, update_metrics}

-- the fee of a BUY that was stored without a PnL
abbrev pub legacy_fee : Trade ℤ → ℤ
legacy_fee t = if (t.pnl ≐ nought) && (str_eq t.side "BUY" && nought ≺ t.fee) then t.fee else pos 0

abbrev pub legacy_fees : List (Trade ℤ) → ℤ
legacy_fees [] = pos 0
legacy_fees (t ∷ ts) = legacy_fee t +ℤ legacy_fees ts

eqb_zero : (x : ℤ) → eqb_ℤ x (pos 0) ≡ true → x ≡ pos 0
eqb_zero (pos n) h = ap pos (ground arith)
eqb_zero (negsuc n) h = absurd (ground arith)

both : (a b : Bool) → (a && b) ≡ true → a ≡ true
both true b h = refl
both false b h = h

cancelled : (f x : ℤ) → x ≡ pos 0 → neg_ℤ f +ℤ f ≡ x
cancelled f x h = omega int_laws ∙ sym h

pnl_of-legacy_fee : (t : Trade ℤ) → pnl_of t +ℤ legacy_fee t ≡ t.pnl
unfolding pnl_of
pnl_of-legacy_fee t =
    elim (Bool-cases ((t.pnl ≐ nought) && (str_eq t.side "BUY" && nought ≺ t.fee))) [
      | inl legacy ↦ rw legacy (cancelled t.fee t.pnl (eqb_zero t.pnl (both _ _ legacy)))
      | inr stored ↦ rw stored (omega int_laws)
    ]

regroup :
    (total p f s l x : ℤ) → p +ℤ f ≡ x → total +ℤ x +ℤ (s +ℤ l) ≡ total +ℤ (p +ℤ s +ℤ (f +ℤ l))
regroup total p f s l x h = ap (λ y. total +ℤ y +ℤ (s +ℤ l)) (sym h) ∙ omega int_laws

sum_pnl-split :
    (ts : List (Trade ℤ)) (total : ℤ) → sum_pnl total ts ≡ total +ℤ (sum_of ts +ℤ legacy_fees ts)
sum_pnl-split [] total = omega int_laws
sum_pnl-split (t ∷ ts) total =
    sum_pnl-split ts (total +ℤ t.pnl)
    ∙ regroup total (pnl_of t) (legacy_fee t) (sum_of ts) (legacy_fees ts) t.pnl
        (pnl_of-legacy_fee t)

from_zero : (s l p : ℤ) → p ≡ s → pos 0 +ℤ (s +ℤ l) ≡ p +ℤ l
from_zero s l p h = omega int_laws ∙ ap (λ x. x +ℤ l) (sym h)

swapped : (a b c d s : ℤ) → a ≡ d → b ≡ c → a +ℤ (b +ℤ s) ≡ c +ℤ (d +ℤ s)
swapped a b c d s e f = ap (λ x. x +ℤ (b +ℤ s)) e ∙ ap (λ x. d +ℤ (x +ℤ s)) f ∙ omega int_laws

sum_of-Permᴰ : {xs ys : List (Trade ℤ)} → Permᴰ xs ys → sum_of xs ≡ sum_of ys
sum_of-Permᴰ Permᴰ.nil = refl
sum_of-Permᴰ (Permᴰ.cons {b = b} {l₁ = l₁} e p) =
    ap (λ t. pnl_of t +ℤ sum_of l₁) e ∙ ap (λ s. pnl_of b +ℤ s) (sum_of-Permᴰ p)
sum_of-Permᴰ (Permᴰ.swap {a = a} {b = b} {a' = a'} {b' = b'} {l = l} e f) =
    swapped (pnl_of a) (pnl_of b) (pnl_of a') (pnl_of b') (sum_of l) (ap pnl_of e) (ap pnl_of f)
sum_of-Permᴰ (Permᴰ.trans p q) = sum_of-Permᴰ p ∙ sum_of-Permᴰ q

Permᴰ-length : {xs ys : List (Trade ℤ)} → Permᴰ xs ys → length xs ≡ length ys
Permᴰ-length Permᴰ.nil = refl
Permᴰ-length (Permᴰ.cons e p) = ap suc (Permᴰ-length p)
Permᴰ-length (Permᴰ.swap e f) = refl
Permᴰ-length (Permᴰ.trans p q) = Permᴰ-length p ∙ Permᴰ-length q

module _ (sort_trades : List (Trade ℤ) → List (Trade ℤ))
    (permutes : (ts : List (Trade ℤ)) → Permᴰ (sort_trades ts) ts)
    (pa : PerformanceAnalytics ℤ) where
  saved_metric :
      (ts : List (Trade ℤ)) (m : PerformanceMetric ℤ)
      → updated sort_trades pa (ok ts) ≡ ok (some m)
      → m ≡ calculate_from_trades pa.initial_balance ts
  saved_metric [] m h = cc
  saved_metric (t ∷ ts) m h =
      elim (Option-cases (pa.save_metric (calculate_from_trades pa.initial_balance (t ∷ ts)))) [
        | inl fine ↦ let k = simp fine at h in cc
        | inr (e, failed) ↦ let k = simp failed at h in cc
      ]

  -- the trades of a table with a row
  counted_trades :
      (ts us : List (Trade ℤ)) (m : PerformanceMetric ℤ)
      → updated sort_trades pa (ok us) ≡ ok (some m)
      → Permᴰ us ts
      → total_of ts ≡ some (sum_pnl (pos 0) ts)
  counted_trades [] [] m h p = cc
  counted_trades [] (u ∷ us) m h p = absurd (omega (arith, Permᴰ-length p))
  counted_trades (t ∷ ts) us m h p = refl

  -- In exact arithmetic, with an epoch and with the same trades read from the table, the metric that
  -- `UpdateMetrics` stores has the cumulative PnL that the risk manager's `cumulativePnL` returns, but
  -- for the fees of the BUYs that were stored without a PnL, which only the metric subtracts. This
  -- holds for every sorting that permutes its list.
  pub update_metrics-cumulative_pnl :
      (cfg : ManagerConfig ℤ) (ask : Answers ℤ) (ts : List (Trade ℤ)) (m : PerformanceMetric ℤ)
      → is_zero cfg.pnl_epoch ≡ false
      → pa.pnl_epoch ≡ cfg.pnl_epoch
      → pa.trades_since cfg.pnl_epoch ≡ ok ts
      → ask.trades_since cfg.pnl_epoch ≡ ok ts
      → update_metrics sort_trades pa ≡ ok (some m)
      → cumulative_pnl cfg ask ≡ ok (some (m.total_pnl +ℤ legacy_fees ts))
  unfolding update_metrics trades_in_scope cumulative_pnl
  update_metrics-cumulative_pnl cfg ask ts m epoch same read_here read_there stored =
      let us = sort_trades ts in
      let h : updated sort_trades pa (ok us) ≡ ok (some m) =
        simp (same, epoch, read_here) at stored in
      let total = counted_trades ts us m h (permutes ts) in
      let metric =
        ap (λ n. n.total_pnl) (saved_metric us m h)
        ∙ (calculate_from_trades-total pa.initial_balance us).0
        ∙ sum_of-Permᴰ (permutes ts) in
      simp (epoch, read_there, total)
        (ap (λ x. ok (some x))
          (sum_pnl-split ts (pos 0) ∙ from_zero (sum_of ts) (legacy_fees ts) m.total_pnl metric))
