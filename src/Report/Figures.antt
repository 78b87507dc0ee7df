-- ===== src/Report/Figures.antt =====
-- The figures of `ComputeSummary` in exact arithmetic (`float64` at whole numbers).
use gogocoin.Prelude.{
  arith, ◌≡◌, refl, sym, ◌∙◌, ap, ℕ, length, ltb, inl, inr, Bool-cases, Result, ok, err,
}
use gogocoin.Prelude.Int.{ℤ, pos, ◌+ℤ◌, int_laws}
use gogocoin.Float.Exact.{exact_float}
use gogocoin.Domain.{Time}
use gogocoin.Strategy.{Strategy}
use gogocoin.Backtest.{
  RunResult, EngineConfig, Datasource, RunError, panicked, invalid_balance, start_failed,
  datasource_failed, generate_signal_failed, run,
}
use gogocoin.Backtest.Accounting.{net}
use gogocoin.Backtest.Runs.{Ends, IsAccounted, run-IsAccounted}
use gogocoin.Report.Summary.{
  Summary, zero_summary, count_trades, with_ratios, with_returns, compute_summary,
}
use gogocoin.Report.Tallies.{IsTally, count_trades-IsTally, drawdowns-IsTally}

module _ (hours : ℤ → ℤ) (month_of : Time → ℕ × ℕ) where
  with_returns-IsTally :
      (r : RunResult ℤ) (n : ℕ) (total : ℤ) (s : Summary ℤ)
      → IsTally n total s
      → IsTally n total (with_returns hours month_of r s)
  with_returns-IsTally r n total s h = elim (Bool-cases (ltb 2 (length r.equity))) [
    | inl many ↦ rw many (record {
      counted = h.counted;
      summed = h.summed;
      outcomes = h.outcomes;
      reasons = h.reasons;
      split = h.split;
    })
    | inr few ↦ rw few h
  ]

  compute_summary-IsTally :
      (r : RunResult ℤ)
      → IsTally (length r.trades) (net r.trades) (compute_summary hours month_of r)
  unfolding compute_summary
  compute_summary-IsTally r =
      let empty : IsTally 0 (pos 0) zero_summary = record {
        counted = refl;
        summed = refl;
        outcomes = refl;
        reasons = refl;
        split = omega int_laws;
      } in
      let h = count_trades-IsTally r.trades 0 (pos 0) zero_summary empty in
      let counted = with_ratios hours month_of r (count_trades zero_summary r.trades) in
      let k = with_returns-IsTally r _ _ _ (
        drawdowns-IsTally r.equity _ _ counted (record {
          counted = h.counted;
          summed = h.summed;
          outcomes = h.outcomes;
          reasons = h.reasons;
          split = h.split;
        })) in
      record {
        counted = k.counted ∙ omega arith;
        summed = k.summed ∙ omega int_laws;
        outcomes = k.outcomes ∙ omega arith;
        reasons = k.reasons ∙ omega arith;
        split = k.split;
      }

  -- The report of a run: the figures tally with the trades, and the net PnL that the report shows is
  -- what the final equity is above the initial balance.
  abbrev pub IsReported :
      {S E : Type 0} → EngineConfig ℤ → Result (RunError E) (RunResult ℤ × S) → Type 0
  IsReported cfg (ok (r, _)) =
      IsTally (length r.trades) (net r.trades) (compute_summary hours month_of r)
      × (r.final_equity
          ≡ cfg.simulator.initial_balance +ℤ (compute_summary hours month_of r).net_pnl)
  IsReported cfg (err panicked) = ⊥
  IsReported cfg (err invalid_balance) = Unit
  IsReported cfg (err (start_failed e)) = Unit
  IsReported cfg (err datasource_failed) = Unit
  IsReported cfg (err (generate_signal_failed e)) = Unit

  module _ {S E : Type 0} (strat : Strategy ℤ S E) (cfg : EngineConfig ℤ) (now : Time) where
    reported :
        (m : Result (RunError E) (RunResult ℤ × S))
        → Ends strat cfg now (IsAccounted strat cfg now) m
        → IsReported cfg m
    reported (ok (r, _)) h = (
      compute_summary-IsTally r,
      h.1
          ∙ h.0
          ∙ ap (λ x. cfg.simulator.initial_balance +ℤ x) (sym (compute_summary-IsTally r).summed),
    )
    reported (err panicked) h = h
    reported (err invalid_balance) h = tt
    reported (err (start_failed e)) h = tt
    reported (err datasource_failed) h = tt
    reported (err (generate_signal_failed e)) h = tt

    -- In exact arithmetic, a run never panics, and if it ends without an error, the summary of its
    -- result counts every recorded trade once, as a win or a loss and under one exit reason, its net
    -- PnL is the sum of the trades' and is the gross profit less the gross loss, and the final
    -- equity is the initial balance plus that net PnL. This holds for every strategy and datasource.
    pub run-IsReported :
        (source : Datasource ℤ) (s : S) → IsReported cfg (run strat cfg now source s)
    run-IsReported source s = reported _ (run-IsAccounted strat cfg now source s)
