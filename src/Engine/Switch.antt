-- ===== src/Engine/Switch.antt =====
-- `tradingController`. The row of the table app_state is the text `stored`, empty where there is none.
-- `saved` says that `SaveAppState` succeeds, and `read` that `GetAppState` does. The
-- lock is given back before the row is written, so requests may overlap there.
use gogocoin.Prelude.{
  ℕ, suc, String, Bool, true, false, Option, none, some, List, [], ◌∷◌, ◌++◌, take, drop, head?,
  Result, ok, err, if◌then◌else◌, str_eq,
}
use gogocoin.Risk.{Failure, failure}

pub record TradingController : Type 0 where
  pub enabled : Bool
  pub stored : String

abbrev pub bool_text : Bool → String
bool_text true = "true"
bool_text false = "false"

abbrev pub same_bool : Bool → Bool → Bool
same_bool true true = true
same_bool false false = true
same_bool _ _ = false

abbrev pub stored_after : Bool → String → String → String
stored_after saved val stored = if saved then val else stored

-- `newTradingController`
unfoldable pub new_trading_controller : Bool → Bool → String → TradingController
new_trading_controller read saved stored =
    if read
    then (if str_eq stored ""
        then record { enabled = false; stored = stored_after saved "false" stored }
        else record { enabled = str_eq stored "true"; stored = stored })
    else record { enabled = false; stored = stored }

-- the part of `SetTradingEnabled` that holds the lock, with the value that is to be stored after it
unfoldable pub flip : Bool → TradingController → Option String × TradingController
flip enabled c =
    if same_bool c.enabled enabled
    then (none, c)
    else (some (bool_text enabled), record c { enabled = enabled })

-- `SaveAppState`, once the lock is given back
abbrev pub store :
    Bool → Option String × TradingController → Result Failure (Unit {0}) × TradingController
store saved (none, c) = (ok tt, c)
store saved (some val, c) = if saved then (ok tt, record c { stored = val }) else (err failure, c)

-- `SetTradingEnabled`, when no other request comes between its two parts
unfoldable pub set_trading_enabled :
    Bool → Bool → TradingController → Result Failure (Unit {0}) × TradingController
set_trading_enabled saved enabled c = store saved (flip enabled c)

-- Requests at once: the controller, and the values of the requests that have given back the lock and
-- have not stored yet, in the order in which they held it.
pub record Requests : Type 0 where
  pub controller : TradingController
  pub waiting : List String

-- a request's part under the lock, and the storing, which succeeds, of a waiting request by its place
pub data Event : Type 0 where
  flipped : Bool → Event
  stored_at : ℕ → Event

abbrev queued : List String → Option String × TradingController → Requests
queued waiting (none, c) = record { controller = c; waiting = waiting }
queued waiting (some val, c) = record { controller = c; waiting = waiting ++ val ∷ [] }

abbrev written : ℕ → Requests → Option String → Requests
written n r none = r
written n r (some val) = record {
  controller = record r.controller { stored = val };
  waiting = take n r.waiting ++ drop (suc n) r.waiting;
}

unfoldable pub handle_event : Event → Requests → Requests
handle_event (flipped b) r = queued r.waiting (flip b r.controller)
handle_event (stored_at n) r = written n r (head? (drop n r.waiting))

unfoldable pub handle_events : List Event → Requests → Requests
handle_events [] r = r
handle_events (e ∷ later) r = handle_events later (handle_event e r)
