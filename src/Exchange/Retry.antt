-- ===== src/Exchange/Retry.antt =====
-- `RetryPolicy` and `WithRetry`. The operation acts on a state `X`, and the context is cancelled or not
-- while the client waits for a numbered attempt. Delays are nanoseconds; the base delay, which
-- `NewClient` sets to a second, is not negative.
use Prim.Native.String.{find, len}
use gogocoin.Prelude.{
  ℕ, zero, suc, ◌-◌, ◌*◌, ◌%◌, ◌^◌, String, Bool, true, false, Option, none, some, List, [], ◌∷◌,
  ltb, leb, if◌then◌else◌,
}
use gogocoin.Prelude.Int.{ℤ, pos, negsuc, ltb_ℤ, leb_ℤ}
use gogocoin.Risk.{second}

pub record RetryPolicy : Type 0 where
  pub max_retries : ℤ
  pub base_delay : ℕ

-- An error: whether it is an `APIError`, with its field `Retryable`, and its message.
pub record CallError : Type 0 where
  pub api_retryable : Option Bool
  pub message : String

-- what `WithRetry` returns: nil, the context's error, or an error of the operation
pub data Outcome : Type 0 where
  succeeded cancelled : Outcome
  failed : CallError → Outcome

-- `strings.Contains`
abbrev pub contains : String → String → Bool
contains s t = leb (find s t) (len s)

abbrev pub contains_any : String → List String → Bool
contains_any s [] = false
contains_any s (t ∷ ts) = if contains s t then true else contains_any s ts

abbrev network_errors : List String
network_errors =
    "connection refused"
    ∷ ("timeout" ∷ ("network is unreachable" ∷ ("no such host" ∷ ("connection reset" ∷ []))))

-- `isNetworkError`
unfoldable pub is_network_error : CallError → Bool
is_network_error e = contains_any e.message network_errors

abbrev pub is_retryable : Option Bool → CallError → Bool
is_retryable (some retryable) e = retryable
is_retryable none e = is_network_error e

-- `ShouldRetry`
unfoldable pub should_retry : RetryPolicy → ℕ → CallError → Bool
should_retry policy attempt e =
    if leb_ℤ policy.max_retries (pos attempt) then false else is_retryable e.api_retryable e

-- the signed number of 64 bits
abbrev pub int64 : ℕ → ℤ
int64 n = let m = n % 2 ^ 64 in if ltb m (2 ^ 63) then pos m else negsuc (2 ^ 64 - 1 - m)

abbrev pub five_minutes : ℤ
five_minutes = pos (300 * second)

-- `GetDelay`
unfoldable pub get_delay : RetryPolicy → ℕ → ℤ
get_delay policy zero = pos 0
get_delay policy (suc attempt) =
    let exponent = if ltb 10 (suc attempt) then 9 else attempt in
    let delay = int64 (policy.base_delay * 2 ^ exponent) in
    if ltb_ℤ five_minutes delay then five_minutes else delay

module _ {X : Type 0} (policy : RetryPolicy) (is_cancelled : ℕ → Bool)
    (op : X → Option CallError × X) where
  abbrev returned : Option CallError → Outcome
  returned none = succeeded
  returned (some e) = failed e

  -- an attempt has its answer: `WithRetry` returns, or the loop goes on with the error
  abbrev pub answered : ℕ → (CallError → X → Outcome × X) → Option CallError × X → Outcome × X
  answered attempt go (none, x) = (succeeded, x)
  answered attempt go (some e, x) = if should_retry policy attempt e then go e x else (failed e, x)

  -- the wait in front of every attempt but the first ends with the context's error
  abbrev pub gives_up : ℕ → Bool
  gives_up zero = false
  gives_up (suc attempt) = is_cancelled (suc attempt)

  -- the loop, with the attempts that are left, the number of the next and the last error
  unfoldable pub attempts_from : ℕ → ℕ → Option CallError → X → Outcome × X
  attempts_from zero attempt last x = (returned last, x)
  attempts_from (suc left) attempt last x =
      if gives_up attempt
      then (cancelled, x)
      else answered attempt (λ e. attempts_from left (suc attempt) (some e)) (op x)

  abbrev pub rounds : ℤ → ℕ
  rounds (pos n) = suc n
  rounds (negsuc n) = 0

  -- `WithRetry`
  unfoldable pub with_retry : X → Outcome × X
  with_retry x = attempts_from (rounds policy.max_retries) 0 none x
