-- ===== src/Exchange/Attempts.antt =====
-- The calls that `WithRetry` makes.
use gogocoin.Prelude.{
  ℕ, zero, suc, ◌+◌, ◌≤◌, ◌≡◌, refl, sym, subst, ap, ◌∙◌, true, false, Option, none, some,
  Bool-cases, Option-cases, inl, inr, if◌then◌else◌, arith,
}
use gogocoin.Prelude.Int.{pos, leb_ℤ}
use gogocoin.Exchange.Retry.{
  RetryPolicy, CallError, Outcome, succeeded, failed, should_retry, answered, gives_up,
  attempts_from, with_retry, rounds,
}

reached : (m attempt : ℕ) → m ≤ attempt → leb_ℤ (pos m) (pos attempt) ≡ true
reached m attempt le = ground arith

module _ {X : Type 0} (policy : RetryPolicy) (op : X → Option CallError × X) where
  -- the state after a number of calls
  abbrev pub after_calls : ℕ → X → X
  after_calls zero x = x
  after_calls (suc n) x = after_calls n (op x).1

  -- the first calls, numbered from `attempt`, all fail with an error that is worth another attempt
  abbrev pub AllRetried : ℕ → ℕ → X → Type 0
  AllRetried attempt zero x = Unit
  AllRetried attempt (suc n) x =
      (e : CallError) × ((op x).0 ≡ some e)
      × (should_retry policy attempt e ≡ true)
      × AllRetried (suc attempt) n (op x).1

  -- what a call answers decides what is returned
  abbrev pub IsFinal : ℕ → Option CallError → Outcome → Type 0
  IsFinal attempt none outcome = outcome ≡ succeeded
  IsFinal attempt (some e) outcome = (outcome ≡ failed e) × (should_retry policy attempt e ≡ false)

  -- `n` calls that are retried, and a last one whose answer is returned
  abbrev pub IsRun : ℕ → ℕ → X → Outcome × X → Type 0
  IsRun attempt n x (outcome, y) =
      AllRetried attempt n x
      × IsFinal (attempt + n) (op (after_calls n x)).0 outcome
      × (y ≡ after_calls (suc n) x)

  last_not_retried :
      (m attempt : ℕ) (e : CallError)
      → policy.max_retries ≡ pos m
      → m ≤ attempt
      → should_retry policy attempt e ≡ false
  unfolding should_retry
  last_not_retried m attempt e limit le = rw (limit, reached m attempt le) refl

  gives_up_never : (attempt : ℕ) → gives_up policy (λ k. false) op attempt ≡ false
  gives_up_never zero = refl
  gives_up_never (suc attempt) = refl

  attempts_from_never :
      (left attempt : ℕ) (last : Option CallError) (x : X)
      → attempts_from policy (λ k. false) op (suc left) attempt last x
        ≡ answered policy
            (λ k. false)
            op
            attempt
            (λ e. attempts_from policy (λ k. false) op left (suc attempt) (some e))
            (op x)
  unfolding attempts_from
  attempts_from_never left attempt last x = rw (gives_up_never attempt) refl

  answered-none :
      (attempt : ℕ) (go : CallError → X → Outcome × X) (r : Option CallError × X)
      → r.0 ≡ none
      → answered policy (λ k. false) op attempt go r ≡ (succeeded, r.1)
  answered-none attempt go (none, x) e = refl
  answered-none attempt go (some err, x) e = cc

  answered-some :
      (attempt : ℕ) (go : CallError → X → Outcome × X) (r : Option CallError × X) (e : CallError)
      → r.0 ≡ some e
      → answered policy (λ k. false) op attempt go r
        ≡ (if should_retry policy attempt e then go e r.1 else (failed e, r.1))
  answered-some attempt go (none, x) e same = cc
  answered-some attempt go (some err, x) e same = cc

  -- the runs that `left` further attempts after the next one allow
  abbrev Runs : ℕ → ℕ → X → Outcome × X → Type 0
  Runs left attempt x r = (n : ℕ) × (n ≤ left) × IsRun attempt n x r

  -- the first call succeeds, or fails with an error that is not retried
  Runs-once :
      (left attempt : ℕ) (x : X) (answer : Option CallError) (outcome : Outcome)
      → (op x).0 ≡ answer
      → IsFinal attempt answer outcome
      → Runs left attempt x (outcome, (op x).1)
  Runs-once left attempt x answer outcome e final =
      let first : attempt + 0 ≡ attempt = omega arith in
      (0, omega arith, (_, rw first (subst (λ a. IsFinal attempt a outcome) (sym e) final), refl))

  Runs-on :
      (left attempt : ℕ) (x : X) (e : CallError) (r : Outcome × X)
      → (op x).0 ≡ some e
      → should_retry policy attempt e ≡ true
      → Runs left (suc attempt) (op x).1 r
      → Runs (suc left) attempt x r
  Runs-on left attempt x e (outcome, y) answer again (n, le, (all, final, same)) =
      let index : suc attempt + n ≡ attempt + suc n = omega arith in
      (
        suc n,
        omega arith,
        (
          (e, answer, again, all),
          subst (λ k. IsFinal k (op (after_calls n (op x).1)).0 outcome) index final,
          same,
        ),
      )

  -- what is left of the loop after an error that is retried
  abbrev going_on : ℕ → ℕ → X → CallError → Outcome × X
  going_on left attempt x e =
      attempts_from policy (λ k. false) op left (suc attempt) (some e) (op x).1

  attempts_from_call :
      (left attempt : ℕ) (last : Option CallError) (x : X)
      → ((e : CallError)
          → (op x).0 ≡ some e
          → should_retry policy attempt e ≡ true
          → Runs left attempt x (going_on left attempt x e))
      → Runs left attempt x (attempts_from policy (λ k. false) op (suc left) attempt last x)
  attempts_from_call left attempt last x rest =
      let go =
        λ (e : CallError). attempts_from policy (λ k. false) op left (suc attempt) (some e) in
      let called = attempts_from_never left attempt last x in
      elim (Option-cases (op x).0) [
        | inl fine ↦
            subst (Runs left attempt x) (sym (called ∙ answered-none attempt go (op x) fine))
              (Runs-once left attempt x none succeeded fine refl)
        | inr (e, answer) ↦
            subst (Runs left attempt x) (sym (called ∙ answered-some attempt go (op x) e answer))
              (elim (Bool-cases (should_retry policy attempt e)) [
                | inl again ↦ rw again (rest e answer again)
                | inr final ↦
                    rw final (Runs-once left attempt x (some e) (failed e) answer (refl, final))
              ])
      ]

  attempts_from-Runs :
      (left attempt m : ℕ) (last : Option CallError) (x : X)
      → policy.max_retries ≡ pos m
      → attempt + left ≡ m
      → Runs left attempt x (attempts_from policy (λ k. false) op (suc left) attempt last x)
  attempts_from-Runs zero attempt m last x limit total =
      attempts_from_call zero attempt last x
        λ e answer again. let not_again = last_not_retried m attempt e limit (omega arith) in cc
  attempts_from-Runs (suc left) attempt m last x limit total =
      attempts_from_call (suc left) attempt last x λ e answer again.
        Runs-on left attempt x e (going_on (suc left) attempt x e) answer again
          (attempts_from-Runs left (suc attempt) m (some e) (op x).1 limit (omega arith))

  -- Where the context is not cancelled and the configured number of retries is not negative,
  -- `WithRetry` returns after at least one call and at most one more than the retries: all but the last
  -- failed with an error that is retried, and the last one's answer is returned, which is a success
  -- or an error that is not retried.
  pub with_retry-IsRun :
      (m : ℕ) (x : X)
      → policy.max_retries ≡ pos m
      → (n : ℕ) × (n ≤ m) × IsRun 0 n x (with_retry policy (λ k. false) op x)
  unfolding with_retry
  with_retry-IsRun m x limit =
      subst
        (λ k.
          Runs m 0 x
            (attempts_from policy (λ k'. false) op (rounds policy (λ k'. false) op k) 0 none x))
        (sym limit) (attempts_from-Runs m 0 m none x limit (omega arith))

  counted :
      (booked : X → ℕ) (n : ℕ) (x : X)
      → ((y : X) → booked (op y).1 ≡ suc (booked y))
      → booked (after_calls n x) ≡ booked x + n
  counted booked zero x each = omega arith
  counted booked (suc n) x each = omega (arith, counted booked n (op x).1 each, each x)

  booked_twice :
      (n : ℕ) (x : X) (e : CallError) (booked : X → ℕ) (r : Outcome × X)
      → ((y : X) → booked (op y).1 ≡ suc (booked y))
      → (op x).0 ≡ some e
      → should_retry policy 0 e ≡ true
      → IsRun 0 n x r
      → booked x + 2 ≤ booked r.1
  booked_twice zero x e booked (outcome, y) each answer again (all, final, same) =
      let not_again = (subst (λ a. IsFinal 0 a outcome) answer final).1 in cc
  booked_twice (suc n) x e booked (outcome, y) each answer again (all, final, same) =
      omega (arith, ap booked same, counted booked (suc (suc n)) x each)

  -- At an exchange that books an order on every request, whatever it answers, a request of which the
  -- first answer is an error that is retried books the order at least twice.
  pub with_retry_repeats :
      (m : ℕ) (x : X) (e : CallError) (booked : X → ℕ)
      → policy.max_retries ≡ pos m
      → ((y : X) → booked (op y).1 ≡ suc (booked y))
      → (op x).0 ≡ some e
      → should_retry policy 0 e ≡ true
      → booked x + 2 ≤ booked (with_retry policy (λ k. false) op x).1
  with_retry_repeats m x e booked limit each answer again =
      let (n, le, run) = with_retry-IsRun m x limit in
      booked_twice n x e booked (with_retry policy (λ k. false) op x) each answer again run
