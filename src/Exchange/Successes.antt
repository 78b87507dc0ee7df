-- ===== src/Exchange/Successes.antt =====
-- What a success of `WithRetry` rests on.
use gogocoin.Prelude.{ℕ, zero, suc, ◌≡◌, sym, subst, Bool, Option, none, some, Bool-cases, inl, inr}
use gogocoin.Prelude.Int.{pos}
use gogocoin.Exchange.Retry.{
  RetryPolicy, CallError, Outcome, succeeded, cancelled, failed, should_retry, answered, gives_up,
  attempts_from, with_retry, rounds,
}

-- a success leaves a state with the property
abbrev pub IsEarned : {X : Type 0} → (X → Type 0) → Outcome × X → Type 0
IsEarned P (succeeded, x) = P x
IsEarned P (cancelled, x) = Unit
IsEarned P (failed e, x) = Unit

abbrev pub IsEarnedBy : {X : Type 0} → (X → Type 0) → Option CallError × X → Type 0
IsEarnedBy P (none, x) = P x
IsEarnedBy P (some e, x) = Unit

module _ {X : Type 0} (policy : RetryPolicy) (is_cancelled : ℕ → Bool)
    (op : X → Option CallError × X) (P : X → Type 0) where
  answered-IsEarned :
      (attempt : ℕ) (go : CallError → X → Outcome × X) (r : Option CallError × X)
      → IsEarnedBy P r
      → ((e : CallError) (x : X) → IsEarned P (go e x))
      → IsEarned P (answered policy is_cancelled op attempt go r)
  answered-IsEarned attempt go (none, x) h rest = h
  answered-IsEarned attempt go (some e, x) h rest =
      elim (Bool-cases (should_retry policy attempt e)) [
        | inl again ↦ rw again (rest e x)
        | inr final ↦ rw final tt
      ]

  module _ (each : (x : X) → IsEarnedBy P (op x)) where
    attempts_from-IsEarned :
        (left attempt : ℕ) (e : CallError) (x : X)
        → IsEarned P (attempts_from policy is_cancelled op left attempt (some e) x)
    unfolding attempts_from
    attempts_from-IsEarned zero attempt e x = tt
    attempts_from-IsEarned (suc left) attempt e x =
        elim (Bool-cases (gives_up policy is_cancelled op attempt)) [
          | inl over ↦ rw over tt
          | inr on ↦ rw on (
              answered-IsEarned attempt _ (op x) (each x)
                (attempts_from-IsEarned left (suc attempt)))
        ]

    -- Where every call that succeeds leaves a state with a property, and the configured number of
    -- retries is not negative, a success of `WithRetry` leaves such a state, whenever the context
    -- is cancelled.
    pub with_retry-IsEarned :
        (m : ℕ) (x : X)
        → policy.max_retries ≡ pos m
        → IsEarned P (with_retry policy is_cancelled op x)
    unfolding with_retry attempts_from
    with_retry-IsEarned m x limit =
        subst
          (λ k.
            IsEarned P
              (attempts_from policy is_cancelled op (rounds policy is_cancelled op k) 0 none x))
          (sym limit) (answered-IsEarned 0 _ (op x) (each x) (attempts_from-IsEarned m 1))
