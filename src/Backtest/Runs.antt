-- ===== src/Backtest/Runs.antt =====
-- The books of a whole run.
use gogocoin.Prelude.{
  ◌≡◌, refl, ◌∙◌, String, ℕ, ◌⊎◌, inl, inr, Bool, true, false, Option, none, some, List, [], ◌∷◌,
  Result, ok, err, ◌>>=◌, Bool-cases, if◌then◌else◌, ◌==◌, ◌%◌,
}
use gogocoin.Prelude.Int.{ℤ, pos, ◌+ℤ◌, ltb_ℤ, int_laws}
use gogocoin.Float.{◌≼◌, nought}
use gogocoin.Float.Exact.{exact_float}
use gogocoin.Domain.{Time}
use gogocoin.Strategy.{Signal, Strategy}
use gogocoin.Backtest.Types.{Bar, Trade, Position, Portfolio}
use gogocoin.Backtest.Book.{mark_to_market}
use gogocoin.Backtest.Engine.{
  EngineConfig, Datasource, RunError, panicked, invalid_balance, start_failed, datasource_failed,
  generate_signal_failed, RunState, RunResult, or_default, advance, note_bar, sample_equity,
  try_exit, remember, act_on, evaluate, report_progress, process, round, rounds, close_out, settle,
  drain, has_open, result_of, initial, started, run, sim, signal_key, increment, bar_to_market_data,
  final_equity_of,
}
use gogocoin.Backtest.Accounting.{
  IsBalanced, net, tied, new_portfolio-IsBalanced, mark_to_market-IsBalanced,
}
use gogocoin.Backtest.Steps.{
  IsKept, IsKeptWith, IsFlat, handle_exit-IsKept, force_close-IsFlat, handle_signal-IsKept,
}

module _ {S E : Type 0} (strat : Strategy ℤ S E) (cfg : EngineConfig ℤ) (now : Time) where
  abbrev start_cash : ℤ
  start_cash = cfg.simulator.initial_balance

  -- no panic, and what the state satisfies otherwise
  abbrev pub Ends : {A : Type 0} → (A → Type 0) → Result (RunError E) A → Type 0
  Ends P (ok a) = P a
  Ends P (err panicked) = ⊥
  Ends P (err invalid_balance) = Unit
  Ends P (err (start_failed e)) = Unit
  Ends P (err datasource_failed) = Unit
  Ends P (err (generate_signal_failed e)) = Unit

  Ends-bind :
      {A B : Type 0} {P : A → Type 0} (Q : B → Type 0) (m : Result (RunError E) A)
      (k : A → Result (RunError E) B)
      → Ends P m
      → ((a : A) → P a → Ends Q (k a))
      → Ends Q (m >>= k)
  Ends-bind Q (ok a) k h rule = rule a h
  Ends-bind Q (err panicked) k h rule = h
  Ends-bind Q (err invalid_balance) k h rule = h
  Ends-bind Q (err (start_failed e)) k h rule = h
  Ends-bind Q (err datasource_failed) k h rule = h
  Ends-bind Q (err (generate_signal_failed e)) k h rule = h

  abbrev Books : RunState ℤ S → Type 0
  Books s = IsBalanced start_cash s.portfolio

  -- between two rounds: a position is open only once a bar is buffered
  abbrev Between : RunState ℤ S → Type 0
  Between s = Books s × ((s.has_curr ≡ true) ⊎ (s.portfolio.position ≡ none))

  abbrev Flat : RunState ℤ S → Type 0
  Flat s = Books s × (s.portfolio.position ≡ none)

  sample_equity-Books : (s : RunState ℤ S) → Books s → Books (sample_equity strat cfg now s)
  unfolding sample_equity
  sample_equity-Books s h =
      elim (Bool-cases (s.bar_count % or_default 1 cfg.equity_every_n_bar == 0)) [
        | inl due ↦ rw due (mark_to_market-IsBalanced start_cash _ _ s.portfolio h)
        | inr rest ↦ rw rest h
      ]

  exited :
      (s : RunState ℤ S) (o : Option (Option (Trade ℤ) × Portfolio ℤ))
      → IsKept start_cash o
      → Ends Books (elim o as (λ x. Result (RunError E) (RunState ℤ S)) [
        | none ↦ err panicked
        | some (_, p) ↦ ok (record s { portfolio = p })
      ])
  exited s none h = h
  exited s (some (t, p)) h = h

  try_exit-Books : (s : RunState ℤ S) → Books s → Ends Books (try_exit strat cfg now s)
  unfolding try_exit
  try_exit-Books s h =
      exited s _ (handle_exit-IsKept start_cash (sim strat cfg now) s.curr s.portfolio h)

  acted :
      (s : RunState ℤ S) (counts : List (String × ℕ))
      (o : Option (Option (Trade ℤ) × Portfolio ℤ × S))
      → IsKeptWith start_cash o
      → Ends Books (elim o as (λ x. Result (RunError E) (RunState ℤ S)) [
        | none ↦ err panicked
        | some (_, p, t) ↦ ok (record s { strategy = t; portfolio = p; signal_counts = counts })
      ])
  acted s counts none h = h
  acted s counts (some (t, p, u)) h = h

  act_on-Books :
      (bar : Bar ℤ) (s : RunState ℤ S) (answer : Result E (Option (Signal ℤ)) × S)
      → Books s
      → Ends Books (act_on strat cfg now bar s answer)
  act_on-Books bar s (err e, t) h = tt
  act_on-Books bar s (ok none, t) h = h
  act_on-Books bar s (ok (some signal), t) h =
      acted s (increment (signal_key signal) s.signal_counts) _ (
        handle_signal-IsKept start_cash (sim strat cfg now) strat now s.curr bar signal true
          s.portfolio t h)

  evaluate-Books :
      (bar : Bar ℤ) (s : RunState ℤ S) → Books s → Ends Books (evaluate strat cfg now bar s)
  unfolding evaluate
  evaluate-Books bar s h = elim (Bool-cases (ltb_ℤ cfg.warmup_bars (pos s.bar_count))) [
    | inl due ↦ rw due (
        act_on-Books bar s
          (strat.generate_signal now (bar_to_market_data s.curr) s.history s.strategy) h)
    | inr early ↦ rw early h
  ]

  process-Between :
      (bar : Bar ℤ) (s : RunState ℤ S) → Books s → Ends Between (process strat cfg now bar s)
  unfolding process remember report_progress advance
  process-Between bar s h =
      Ends-bind {P = Books} Between (try_exit strat cfg now (sample_equity strat cfg now s)) _
        (try_exit-Books _ (sample_equity-Books s h))
        (λ s' h'.
          Ends-bind {P = Books} Between (evaluate strat cfg now bar (remember strat cfg now s')) _
            (evaluate-Books bar _ h') (λ s'' h''. (h'', inl refl)))

  round-Between :
      (bar : Bar ℤ) (s : RunState ℤ S) → Between s → Ends Between (round strat cfg now bar s)
  unfolding round note_bar advance
  round-Between bar s h = elim (Bool-cases s.has_curr) [
    | inl buffered ↦ rw buffered (process-Between bar _ h.0)
    | inr first ↦ rw first (h.0, inl refl)
  ]

  rounds-Between :
      (bars : List (Bar ℤ)) (s : RunState ℤ S)
      → Between s
      → Ends Between (rounds strat cfg now bars s)
  unfolding rounds
  rounds-Between [] s h = h
  rounds-Between (bar ∷ bars) s h =
      Ends-bind {P = Between} Between (round strat cfg now bar s) _ (round-Between bar s h)
        (λ s' h'. rounds-Between bars s' h')

  flattened :
      (s : RunState ℤ S) (o : Option (Option (Trade ℤ) × Portfolio ℤ))
      → IsFlat start_cash o
      → Ends Flat (elim o as (λ x. Result (RunError E) (RunState ℤ S)) [
        | none ↦ err panicked
        | some (_, p) ↦ ok (record s { portfolio = mark_to_market s.nxt.timestamp s.nxt.close p })
      ])
  unfolding mark_to_market
  flattened s none h = h
  flattened s (some (t, p)) h = (record { balanced = h.0.balanced; priced = h.0.priced }, h.1)

  not_open :
      (p : Option (Position ℤ))
      → (elim p as (λ x. Bool) [ none ↦ false | some _ ↦ true ]) ≡ false
      → p ≡ none
  not_open none h = refl
  not_open (some q) h = cc

  close_out-Flat : (s : RunState ℤ S) → Books s → Ends Flat (close_out strat cfg now s)
  unfolding close_out
  close_out-Flat s h = elim (Bool-cases (has_open s.portfolio)) [
    | inl held ↦
        rw held
          (flattened s _ (force_close-IsFlat start_cash (sim strat cfg now) _ _ s.portfolio h))
    | inr free ↦ rw free (h, not_open s.portfolio.position free)
  ]

  settled :
      (s : RunState ℤ S) (o : Option (Option (Trade ℤ) × Portfolio ℤ))
      → IsKept start_cash o
      → Ends Flat (elim o as (λ x. Result (RunError E) (RunState ℤ S)) [
        | none ↦ err panicked
        | some (_, p) ↦
            close_out strat cfg now
              (record s { portfolio = mark_to_market s.nxt.timestamp s.nxt.close p })
      ])
  settled s none h = h
  settled s (some (t, p)) h =
      close_out-Flat _ (mark_to_market-IsBalanced start_cash s.nxt.timestamp s.nxt.close p h)

  drain-Flat : (s : RunState ℤ S) → Between s → Ends Flat (drain strat cfg now s)
  unfolding drain settle
  drain-Flat s h = elim (Bool-cases s.has_curr) [
    | inl buffered ↦
        simp buffered
          (settled s _ (handle_exit-IsKept start_cash (sim strat cfg now) s.nxt s.portfolio h.0))
    | inr first ↦ simp first (h.0, free_of first h.1)
  ]
    where
      free_of :
          s.has_curr ≡ false
          → ((s.has_curr ≡ true) ⊎ (s.portfolio.position ≡ none))
          → s.portfolio.position ≡ none
      free_of e (inl b) = cc
      free_of e (inr b) = b

  -- The result of a run: the final cash is the initial balance and the net PnL of the trades, and
  -- the final equity is the final cash.
  abbrev pub IsAccounted : RunResult ℤ × S → Type 0
  IsAccounted (r, _) = (r.final_cash ≡ start_cash +ℤ net r.trades) × (r.final_equity ≡ r.final_cash)

  equity_of_flat :
      (p : Portfolio ℤ) (price : ℤ) (o : Option (Position ℤ))
      → o ≡ none
      → final_equity_of strat cfg now p price o ≡ p.cash
  equity_of_flat p price none e = refl
  equity_of_flat p price (some q) e = cc

  balanced_flat :
      (cash : ℤ) (o : Option (Position ℤ)) (total : ℤ)
      → o ≡ none
      → cash +ℤ tied o ≡ total
      → cash ≡ total
  balanced_flat cash none total e h = omega int_laws ∙ h
  balanced_flat cash (some q) total e h = cc

  started-Ends : (r : Result E S) → Ends (λ s. Unit {0}) (started strat cfg now r)
  started-Ends (ok s) = tt
  started-Ends (err e) = tt

  delivered :
      (broken : Bool) (s : RunState ℤ S)
      → Between s
      → Ends Flat (if broken then err datasource_failed else drain strat cfg now s)
  delivered true s h = tt
  delivered false s h = drain-Flat s h

  result_of-IsAccounted :
      (s : RunState ℤ S) (t : S) → Flat s → IsAccounted (result_of strat cfg now s, t)
  unfolding result_of
  result_of-IsAccounted s t h = (
    balanced_flat s.portfolio.cash s.portfolio.position _ h.1 h.0.balanced,
    equity_of_flat s.portfolio _ s.portfolio.position h.1,
  )

  -- In exact arithmetic, a run never panics, and if it ends without an error, the final cash is the
  -- initial balance plus the net PnL of the recorded trades, and the final equity is the final cash:
  -- every position is closed and booked. This holds for every strategy and datasource.
  pub run-IsAccounted :
      (source : Datasource ℤ) (s : S) → Ends IsAccounted (run strat cfg now source s)
  unfolding run
  run-IsAccounted source s = elim (Bool-cases (cfg.simulator.initial_balance ≼ nought)) [
    | inl poor ↦ rw poor tt
    | inr funded ↦ rw funded (
        Ends-bind {P = λ t. Unit {0}} IsAccounted (started strat cfg now (strat.start now s)) _
          (started-Ends (strat.start now s))
          (λ t u.
            Ends-bind {P = Between} IsAccounted
              (rounds strat cfg now source.bars (initial strat cfg now t)) _
              (rounds-Between source.bars _ (new_portfolio-IsBalanced start_cash, inr refl))
              (λ v h.
                Ends-bind {P = Flat} IsAccounted
                  (if source.broken then err datasource_failed else drain strat cfg now v) _
                  (delivered source.broken v h)
                  (λ x k. result_of-IsAccounted x (strat.stop now x.strategy) k))))
  ]
