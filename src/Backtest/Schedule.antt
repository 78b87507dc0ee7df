-- ===== src/Backtest/Schedule.antt =====
-- Which bars the loop of `Run` processes, and in which round.
use mathlib.Core.List.{append-nil, append_assoc}
use gogocoin.Prelude.{
  ℕ, suc, ◌+◌, ◌≡◌, refl, ◌∙◌, sym, String, true, Option, none, some, List, [], ◌∷◌, ◌++◌, Result,
  ok, err, >>=-eq-ok, arith, length, take,
}
use gogocoin.Float.{Float}
use gogocoin.Domain.{Time}
use gogocoin.Strategy.{Strategy, Signal}
use gogocoin.Backtest.Types.{Bar, zero_bar, Trade, Portfolio}
use gogocoin.Backtest.Fills.{handle_exit, handle_signal}
use gogocoin.Backtest.Engine.{
  EngineConfig, RunError, panicked, RunState, advance, note_bar, sample_equity, try_exit, remember,
  act_on, evaluate, report_progress, process, round, rounds, initial, sim, bar_to_market_data,
}

-- the list with its places from `n` on
abbrev pub number_from : {A : Type 0} → ℕ → List A → List (ℕ × A)
number_from n [] = []
number_from n (x ∷ xs) = (n, x) ∷ number_from (n + 1) xs

module _ {F S E : Type 0} ⦃fl : Float F⦄ (strat : Strategy F S E) (cfg : EngineConfig F)
    (now : Time) where
  -- the bars, their count and the log stand as before
  record SameClock (s t : RunState F S) : Type 0 where
    same_count : t.bar_count ≡ s.bar_count
    same_curr : t.curr ≡ s.curr
    same_nxt : t.nxt ≡ s.nxt
    same_has : t.has_curr ≡ s.has_curr
    same_progress : t.progress ≡ s.progress

  sample_equity-SameClock : (s : RunState F S) → SameClock s (sample_equity strat cfg now s)
  unfolding sample_equity
  sample_equity-SameClock s = ground arith

  exited :
      (s : RunState F S) {t : RunState F S} (o : Option (Option (Trade F) × Portfolio F))
      → ◌≡◌ {A = Result (RunError E) (RunState F S)}
          (elim o [ none ↦ err panicked | some (_, p) ↦ ok (record s { portfolio = p }) ])
          (ok t)
      → SameClock s t
  exited s none h = cc
  exited s (some (u, p)) h = ground arith

  try_exit-SameClock :
      (s : RunState F S) {t : RunState F S} → try_exit strat cfg now s ≡ ok t → SameClock s t
  unfolding try_exit
  try_exit-SameClock s h = exited s (handle_exit (sim strat cfg now) s.curr s.portfolio) h

  acted :
      (s : RunState F S) (counts : List (String × ℕ)) {t : RunState F S}
      (o : Option (Option (Trade F) × Portfolio F × S))
      → ◌≡◌ {A = Result (RunError E) (RunState F S)}
          (elim o [
            | none ↦ err panicked
            | some (_, p, u) ↦ ok (record s { strategy = u; portfolio = p; signal_counts = counts })
          ])
          (ok t)
      → SameClock s t
  acted s counts none h = cc
  acted s counts (some (u, p, v)) h = ground arith

  act_on-SameClock :
      (bar : Bar F) (s : RunState F S) {t : RunState F S}
      (answer : Result E (Option (Signal F)) × S)
      → act_on strat cfg now bar s answer ≡ ok t
      → SameClock s t
  act_on-SameClock bar s (err e, u) h = cc
  act_on-SameClock bar s (ok none, u) h = ground arith
  act_on-SameClock bar s (ok (some signal), u) h =
      acted s _ (handle_signal strat now (sim strat cfg now) s.curr bar signal true s.portfolio u) h

  evaluate-SameClock :
      (bar : Bar F) (s : RunState F S) {t : RunState F S}
      → evaluate strat cfg now bar s ≡ ok t
      → SameClock s t
  unfolding evaluate
  evaluate-SameClock bar s {t} h = ground (
    arith,
    act_on-SameClock bar s {t = t}
        (strat.generate_signal now (bar_to_market_data s.curr) s.history s.strategy),
  )

  -- what a round with a buffered bar does to the clock
  record Stepped (bar : Bar F) (s t : RunState F S) : Type 0 where
    next_count : t.bar_count ≡ s.bar_count + 1
    next_curr : t.curr ≡ s.nxt
    next_nxt : t.nxt ≡ bar
    next_has : t.has_curr ≡ true
    logged : t.progress ≡ s.progress ++ ((s.bar_count + 1, s.curr) ∷ [])

  advance-Stepped :
      (bar : Bar F) (r s t : RunState F S)
      → SameClock (note_bar strat cfg now bar r) s
      → r.has_curr ≡ true
      → advance strat cfg now bar (report_progress strat cfg now s) ≡ t
      → Stepped bar r t
  unfolding advance report_progress note_bar
  advance-Stepped bar r s t c has e = ground arith

  SameClock-trans : (r s t : RunState F S) → SameClock r s → SameClock s t → SameClock r t
  SameClock-trans r s t a b = ground arith

  remember-SameClock : (s : RunState F S) → SameClock s (remember strat cfg now s)
  unfolding remember
  remember-SameClock s = ground arith

  ok_eq : {A : Type 0} (a b : A) → ◌≡◌ {A = Result (RunError E) A} (ok a) (ok b) → a ≡ b
  ok_eq a b h = cc

  round_buffered :
      (bar : Bar F) (s : RunState F S)
      → s.has_curr ≡ true
      → round strat cfg now bar s ≡ process strat cfg now bar (note_bar strat cfg now bar s)
  unfolding round note_bar
  round_buffered bar s has = ground arith

  round-Stepped :
      (bar : Bar F) (s : RunState F S) {t : RunState F S}
      → s.has_curr ≡ true
      → round strat cfg now bar s ≡ ok t
      → Stepped bar s t
  unfolding process
  round-Stepped bar s {t} has h =
      let noted = note_bar strat cfg now bar s in
      let sampled = sample_equity strat cfg now noted in
      let (left, e, rest) =
        >>=-eq-ok (try_exit strat cfg now sampled) _ (sym (round_buffered bar s has) ∙ h) in
      let (judged, e', last) =
        >>=-eq-ok (evaluate strat cfg now bar (remember strat cfg now left)) _ rest in
      advance-Stepped bar s judged t
        (SameClock-trans noted left judged
          (SameClock-trans noted sampled left (sample_equity-SameClock noted)
            (try_exit-SameClock sampled e))
          (SameClock-trans left (remember strat cfg now left) judged (remember-SameClock left)
            (evaluate-SameClock bar (remember strat cfg now left) e')))
        has (ok_eq _ _ last)

  log_eq :
      {A : Type 0} (before : List (ℕ × A)) (x : A) (c : ℕ) (xs : List A) {mid after : List (ℕ × A)}
      → mid ≡ before ++ ((c, x) ∷ [])
      → after ≡ mid ++ number_from (c + 1) xs
      → after ≡ before ++ number_from c (x ∷ xs)
  log_eq before x c xs e e' =
      rw (e', e) (append_assoc before ((c, x) ∷ []) (number_from (c + 1) xs))

  log_of :
      (bar : Bar F) (n : ℕ) (bars : List (Bar F)) {s m : RunState F S} (t : RunState F S)
      → Stepped bar s m
      → t.progress ≡ m.progress ++ number_from (m.bar_count + 1) (take n (m.curr ∷ (m.nxt ∷ bars)))
      → t.progress
        ≡ s.progress
          ++ number_from (s.bar_count + 1) (take (suc n) (s.curr ∷ (s.nxt ∷ (bar ∷ bars))))
  log_of bar n bars {s} {m} t step ih =
      log_eq s.progress s.curr (s.bar_count + 1) (take n (s.nxt ∷ (bar ∷ bars))) step.logged
        (rw (step.next_count, step.next_curr, step.next_nxt) at ih)

  -- the loop from a state with a buffered bar
  rounds_log :
      (bars : List (Bar F)) (s : RunState F S) {t : RunState F S}
      → s.has_curr ≡ true
      → rounds strat cfg now bars s ≡ ok t
      → t.progress
        ≡ s.progress ++ number_from (s.bar_count + 1) (take (length bars) (s.curr ∷ (s.nxt ∷ bars)))
  unfolding rounds
  rounds_log [] s {t} has h = rw (sym (ok_eq s t h)) (sym (append-nil s.progress))
  rounds_log (bar ∷ bars) s {t} has h =
      let (m, e, rest) = >>=-eq-ok (round strat cfg now bar s) _ h in
      let step = round-Stepped bar s has e in
      log_of bar (length bars) bars t step (rounds_log bars m (step.next_has) rest)

  -- If the loop of `Run` gets through its bars, then the round that reads bar number k, counted from
  -- 1, processes bar k - 2: the second round processes the zero bar, and the last bar but one is
  -- never processed. (What `OnProgress` is called with says so.)
  pub rounds_schedule :
      (first : Bar F) (bars : List (Bar F)) (s : S) {t : RunState F S}
      → rounds strat cfg now (first ∷ bars) (initial strat cfg now s) ≡ ok t
      → t.progress ≡ number_from 2 (take (length bars) (zero_bar ∷ (first ∷ bars)))
  unfolding rounds advance note_bar round
  rounds_schedule first bars s h =
      let start =
        advance strat cfg now first (note_bar strat cfg now first (initial strat cfg now s)) in
      rounds_log bars start refl h
