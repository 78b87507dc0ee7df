-- ===== src/Engine/Restarts.antt =====
-- The switch for trading over a restart.
use gogocoin.Prelude.{
  ◌≡◌, refl, sym, ap, ◌∙◌, subst, zero, suc, not, All, ◌++◌, String, Bool, true, false, List, [],
  ◌∷◌, ok, err, Bool-cases, inl, inr, if◌then◌else◌, str_eq, eq_iff,
}
use gogocoin.Risk.{failure}
use gogocoin.Engine.Switch.{
  TradingController, bool_text, same_bool, new_trading_controller, flip, set_trading_enabled,
  Requests, Event, flipped, stored_at, handle_event, handle_events,
}

-- the switch is what is stored
abbrev pub IsStored : TradingController → Type 0
IsStored c = c.enabled ≡ str_eq c.stored "true"

bool_text_true : (b : Bool) → b ≡ str_eq (bool_text b) "true"
bool_text_true true = refl
bool_text_true false = refl

new_trading_controller-enabled :
    (saved : Bool) (stored : String)
    → (new_trading_controller true saved stored).enabled ≡ str_eq stored "true"
unfolding new_trading_controller
new_trading_controller-enabled saved stored = elim (Bool-cases (str_eq stored "")) [
  | inl empty ↦ rw (empty, (eq_iff stored "").0 empty) refl
  | inr other ↦ rw other refl
]

not_on : (saved : Bool) → str_eq (if saved then "false" else "") "true" ≡ false
not_on true = refl
not_on false = refl

new_trading_controller-IsStored :
    (saved : Bool) (stored : String) → IsStored (new_trading_controller true saved stored)
unfolding new_trading_controller
new_trading_controller-IsStored saved stored = elim (Bool-cases (str_eq stored "")) [
  | inl empty ↦ rw (empty, (eq_iff stored "").0 empty) (sym (not_on saved))
  | inr other ↦ rw other refl
]

-- the value that is stored last, if the waiting requests store in their order
abbrev last_or : String → List String → String
last_or stored [] = stored
last_or stored (val ∷ later) = last_or val later

last_or-append : (stored val : String) (ws : List String) → last_or stored (ws ++ val ∷ []) ≡ val
last_or-append stored val [] = refl
last_or-append stored val (w ∷ ws) = last_or-append w val ws

-- the switch is what will be stored last
abbrev IsPending : Requests → Type 0
IsPending r = r.controller.enabled ≡ str_eq (last_or r.controller.stored r.waiting) "true"

-- a request that stores is the one that has waited longest
abbrev pub IsInOrder : Event → Type 0
IsInOrder (flipped b) = Unit
IsInOrder (stored_at zero) = Unit
IsInOrder (stored_at (suc n)) = ⊥

written-IsPending :
    (c : TradingController) (ws : List String)
    → IsPending (record { controller = c; waiting = ws })
    → IsPending (handle_event (stored_at 0) (record { controller = c; waiting = ws }))
unfolding handle_event
written-IsPending c [] h = h
written-IsPending c (val ∷ ws) h = h

handle_event-IsPending :
    (e : Event) (r : Requests) → IsInOrder e → IsPending r → IsPending (handle_event e r)
unfolding handle_event flip
handle_event-IsPending (flipped b) r _ h = elim (Bool-cases (same_bool r.controller.enabled b)) [
  | inl same ↦ simp same h
  | inr other ↦
      simp (other, last_or-append r.controller.stored (bool_text b) r.waiting) (bool_text_true b)
]
handle_event-IsPending (stored_at zero) r _ h = written-IsPending r.controller r.waiting h
handle_event-IsPending (stored_at (suc n)) r never h = absurd never

handle_events-IsPending :
    (es : List Event) (r : Requests)
    → All IsInOrder es
    → IsPending r
    → IsPending (handle_events es r)
unfolding handle_events
handle_events-IsPending [] r _ h = h
handle_events-IsPending (e ∷ later) r (first, rest) h =
    handle_events-IsPending later (handle_event e r) rest (handle_event-IsPending e r first h)

-- a program that has just started and could read its row
abbrev pub started : Bool → String → Requests
started saved stored = record {
  controller = new_trading_controller true saved stored;
  waiting = [];
}

-- The switch outlives a restart: a controller that could read its row is given any requests, which may
-- overlap. If they store in the order in which they changed the switch and all of them have stored,
-- a new controller that reads the row has trading on or off as it was left.
pub restart_keeps :
    (saved saved' : Bool) (stored : String) (es : List Event)
    → All IsInOrder es
    → (handle_events es (started saved stored)).waiting ≡ []
    → let c = (handle_events es (started saved stored)).controller in
      (new_trading_controller true saved' c.stored).enabled ≡ c.enabled
restart_keeps saved saved' stored es ordered done =
    let r = handle_events es (started saved stored) in
    let pending : IsPending r =
      handle_events-IsPending es (started saved stored) ordered
        (new_trading_controller-IsStored saved stored) in
    let settled : r.controller.enabled ≡ str_eq r.controller.stored "true" =
      subst (λ ws. r.controller.enabled ≡ str_eq (last_or r.controller.stored ws) "true") done
        pending in
    new_trading_controller-enabled saved' r.controller.stored ∙ sym settled

-- a request that changes the switch, one that changes it back and stores at once, and then the storing
-- of the first
abbrev pub overtaking : Bool → List Event
overtaking b = flipped b ∷ (flipped (not b) ∷ (stored_at 1 ∷ (stored_at 0 ∷ [])))

other_not : (b : Bool) → same_bool b (not b) ≡ false
other_not true = refl
other_not false = refl

not_of_other : (a b : Bool) → same_bool a b ≡ false → a ≡ not b
not_of_other true true h = cc
not_of_other true false h = refl
not_of_other false true h = refl
not_of_other false false h = cc

-- Where the request that came second stores first, the switch is as the second request left it, and no
-- request waits, but a restart brings back what the first one asked for.
pub overtaken_request_returns :
    (b saved : Bool) (c : TradingController)
    → same_bool c.enabled b ≡ false
    → let r = handle_events (overtaking b) (record { controller = c; waiting = [] }) in
      (r.waiting ≡ [])
      × (r.controller.enabled ≡ not b)
      × ((new_trading_controller true saved r.controller.stored).enabled ≡ b)
unfolding handle_events handle_event flip
overtaken_request_returns b saved c other =
    simp (other, other_not b)
      (refl, refl, new_trading_controller-enabled saved (bool_text b) ∙ sym (bool_text_true b))

same_self : (b : Bool) → same_bool b b ≡ true
same_self true = refl
same_self false = refl

-- With no other request in between, a request that changes the switch but cannot be stored returns an error and changes it all the same.
-- The same request again then returns no error and stores nothing, so that after a restart the
-- switch is back as it was before both.
pub unstored_request_forgotten :
    (b saved saved' : Bool) (c : TradingController)
    → IsStored c
    → same_bool c.enabled b ≡ false
    → let (first, c') = set_trading_enabled false b c in
      let (second, c'') = set_trading_enabled saved b c' in
      (first ≡ err failure)
      × (second ≡ ok tt)
      × (c''.enabled ≡ b)
      × ((new_trading_controller true saved' c''.stored).enabled ≡ c.enabled)
unfolding set_trading_enabled flip
unstored_request_forgotten b saved saved' c stored other =
    let changed : TradingController = record c { enabled = b } in
    let first : set_trading_enabled false b c ≡ (err failure, changed) = rw other refl in
    let second : set_trading_enabled saved b changed ≡ (ok tt, changed) = rw (same_self b) refl in
    let both : set_trading_enabled saved b (set_trading_enabled false b c).1 ≡ (ok tt, changed) =
      ap (λ r. set_trading_enabled saved b r.1) first ∙ second in
    (
      ap (λ r. r.0) first,
      ap (λ r. r.0) both,
      ap (λ r. r.1.enabled) both,
      ap (λ r. (new_trading_controller true saved' r.1.stored).enabled) both
          ∙ new_trading_controller-enabled saved' c.stored
          ∙ sym stored,
    )
