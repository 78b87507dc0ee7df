-- ===== src/Ticking/Sending.antt =====
-- The worker's state, and `sendSignal`. What the worker puts on the signal channel is kept in `sent`.
-- The maps are functions.
use gogocoin.Prelude.{
  ℕ, ◌+◌, ◌*◌, ◌-◌, ◌%◌, ◌^◌, String, Bool, true, false, Option, none, some, List, ◌∷◌, ltb,
  if◌then◌else◌, str_eq,
}
use gogocoin.Domain.{Time}
use gogocoin.Strategy.{Signal}
use gogocoin.Risk.{second}
use gogocoin.Ticking.Bars.{SymbolHistory}
use gogocoin.Ticking.Exits.{
  Delivery, room, stopped, late_room, late_stopped, timed_out, Surroundings,
}

-- a signal on the channel: whether it is a forced exit, when it was decided, and the clock after it
pub record Sent (F : Type 0) : Type 0 where
  pub signal : Signal F
  pub is_forced : Bool
  pub decided_at : Time
  pub sent_at : Time

-- `memory` is the strategy's own state. The latest signal of `sent` is the first.
pub record WorkerState (F S : Type 0) : Type 0 where
  pub memory : S
  pub histories : String → Option (SymbolHistory F)
  pub dropped_signals : ℕ
  pub position_read_failures : ℕ
  pub last_sent_signals : String → Option String
  pub last_forced_exit_attempt : String → Option Time
  pub sent : List (Sent F)

abbrev pub forced_exit_cooldown : ℕ
forced_exit_cooldown = 30 * second

-- `Store` and `Delete` of a `sync.Map`
abbrev pub store : {V : Type 0} → String → V → (String → Option V) → String → Option V
store k v m j = if str_eq k j then some v else m j

abbrev pub delete : {V : Type 0} → String → (String → Option V) → String → Option V
delete k m j = if str_eq k j then none else m j

-- `atomic.AddInt64(&n, 1)`, on the bits of the counter
abbrev pub next_count : ℕ → ℕ
next_count n = (n + 1) % 2 ^ 64

-- `time.Since(last) < ForcedExitCooldown`, where there was an attempt
abbrev pub is_cooling_since : Time → Option Time → Bool
is_cooling_since now none = false
is_cooling_since now (some last) = ltb (now - last) forced_exit_cooldown

module _ {F S : Type 0} where
  abbrev pub enqueue : Surroundings F → Signal F → Bool → WorkerState F S → WorkerState F S
  enqueue env signal forced st = record st {
    last_sent_signals = store signal.symbol signal.action st.last_sent_signals;
    sent =
        record { signal = signal; is_forced = forced; decided_at = env.now; sent_at = env.sent_at }
        ∷ st.sent;
  }

  abbrev pub drop_signal : WorkerState F S → WorkerState F S
  drop_signal st = record st { dropped_signals = next_count st.dropped_signals }

  -- the second `select`, for a forced exit on a full channel
  abbrev pub wait_for_room :
      Delivery → Surroundings F → Signal F → WorkerState F S → Bool × WorkerState F S
  wait_for_room late_room env signal st = (true, enqueue env signal true st)
  wait_for_room timed_out env signal st = (false, drop_signal st)
  wait_for_room late_stopped env signal st = (false, st)
  wait_for_room _ env signal st = (false, st)

  abbrev pub offer :
      Delivery → Surroundings F → Signal F → Bool → WorkerState F S → Bool × WorkerState F S
  offer room env signal forced st = (true, enqueue env signal forced st)
  offer stopped env signal forced st = (false, st)
  offer full env signal true st = wait_for_room full env signal st
  offer full env signal false st = (false, drop_signal st)

  -- `sendSignal`
  unfoldable pub send_signal :
      Surroundings F → Signal F → Bool → WorkerState F S → Bool × WorkerState F S
  send_signal env signal forced st = offer env.delivery env signal forced st

  unfoldable pub is_cooling : Time → String → WorkerState F S → Bool
  is_cooling now symbol st = is_cooling_since now (st.last_forced_exit_attempt symbol)

  -- `reportPositionReadFailure`
  abbrev pub report_position_read_failure : WorkerState F S → WorkerState F S
  report_position_read_failure st = record st {
    position_read_failures = next_count st.position_read_failures;
  }

  abbrev pub forget_action : String → WorkerState F S → WorkerState F S
  forget_action symbol st = record st { last_sent_signals = delete symbol st.last_sent_signals }

  -- the attempt is noted where the signal was accepted
  abbrev pub note_attempt : Surroundings F → String → Bool × WorkerState F S → WorkerState F S
  note_attempt env symbol (true, st) = record st {
    last_forced_exit_attempt = store symbol env.sent_at st.last_forced_exit_attempt;
  }
  note_attempt env symbol (false, st) = st

  -- A forced exit out of its cooldown is sent. `cooling` is what the goroutine found when it looked at
  -- the last attempt: without bars another one may have sent an exit since.
  abbrev pub send_if_cooled : Bool → Surroundings F → Signal F → WorkerState F S → WorkerState F S
  send_if_cooled cooling env signal st =
      if cooling
      then st
      else note_attempt env signal.symbol
          (send_signal env signal true (forget_action signal.symbol st))

  -- a forced exit, with no other goroutine in between
  unfoldable pub send_forced_exit : Surroundings F → Signal F → WorkerState F S → WorkerState F S
  send_forced_exit env signal st =
      send_if_cooled (is_cooling env.now signal.symbol st) env signal st
