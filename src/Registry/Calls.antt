-- ===== src/Registry/Calls.antt =====
-- Every call of the registry as one step, and a history of calls. A timer's callback may come at
-- any moment and with any arguments: a timer that was stopped may be on its way already.
use aistudio_gemini_gateway.Base.{
  ℕ, Option, none, some, List, [], ◌∷◌, Text, Result, ok, err, ℤ, lookup, insert, nat_eq,
}
use aistudio_gemini_gateway.Service.Provider.{ProviderState, RuntimeProvider, ProviderEvent}
use aistudio_gemini_gateway.Registry.State.{Registry, subscribe, cancel}
use aistudio_gemini_gateway.Registry.{RegistryError, Registration, register, disconnect}
use aistudio_gemini_gateway.Registry.Transitions.{
  touch, set_state, set_cooldown, clear_cooldown, handle_cooldown_timer, record_provider_error,
}

pub data Call : Type 0 where
  registers : Option RuntimeProvider → Call
  disconnects : Text → Text → Option Text → Call
  touches : Text → Text → ℕ → Call
  sets_state : Text → ProviderState → Text → Call
  sets_cooldown : Text → ℕ → Text → Call
  clears_cooldown : Text → Text → Call
  timer_fires : Text → ℕ → Call
  records_error : Text → Text → Call
  subscribes : ℤ → Call
  cancels : ℕ → Call
  receives : ℕ → Call

abbrev pub tail_of : List ProviderEvent → List ProviderEvent
tail_of [] = []
tail_of (_ ∷ es) = es

-- A subscriber takes the oldest event from its channel.
unfoldable pub receive : ℕ → Registry → Registry
receive id r = elim (lookup id r.subscribers) [
  | none ↦ r
  | some s ↦ record r {
    subscribers = insert id (record s { queue = tail_of s.queue }) r.subscribers;
  }
]

abbrev pub after_register : Registry → Result RegistryError Registration → Registry
after_register r (ok done) = done.registry
after_register r (err _) = r

abbrev pub after_set_state :
    Registry → Result RegistryError (Registry × Option RuntimeProvider) → Registry
after_set_state r (ok done) = done.0
after_set_state r (err _) = r

unfoldable pub step : Registry → ℕ × Call → Registry
step r (now, registers p) = after_register r (register now p r)
step r (now, disconnects id conn cause) = (disconnect now id conn cause r).0
step r (now, touches id conn at) = (touch now id conn at r).0
step r (now, sets_state id s msg) = after_set_state r (set_state now id s msg r)
step r (now, sets_cooldown id until msg) = (set_cooldown now id until msg r).0
step r (now, clears_cooldown id msg) = (clear_cooldown now id msg r).0
step r (now, timer_fires id until) = handle_cooldown_timer now id until r
step r (now, records_error id msg) = record_provider_error now id msg r
step r (now, subscribes buffer) = (subscribe buffer r).0
step r (now, cancels id) = cancel id r
step r (now, receives id) = receive id r

unfoldable pub run : Registry → List (ℕ × Call) → Registry
run r [] = r
run r (c ∷ cs) = run (step r c) cs
