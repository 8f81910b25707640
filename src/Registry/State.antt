-- ===== src/Registry/State.antt =====
-- internal/provider/registry/registry.go: the state, its event buffer, subscribers and timers.
use aistudio_gemini_gateway.Base.{
  ℕ, zero, suc, ◌+◌, ◌-◌, ◌^◌, ◌%◌, ◌||◌, Option, none, some, List, [], ◌∷◌, ◌++◌, Text, Map,
  nat_eq, text_eq, trim_space, to_lower, lookup, insert, delete, length, drop, take, reverse, ℤ,
  pos, negsuc, ltb, ◌==◌, if◌then◌else◌,
}
use aistudio_gemini_gateway.Service.Provider.{
  ProviderState, active, RuntimeProvider, ProviderEvent, is_cooling,
}

pub record ProviderDiagnostics : Type 0 where
  pub last_error : Text
  pub last_error_at : ℕ
  pub last_disconnect_reason : Text
  pub last_disconnect_at : ℕ
  pub last_state_change : Text
  pub last_state_reason : Text
  pub last_state_at : ℕ

abbrev pub no_diagnostics : ProviderDiagnostics
no_diagnostics = record {
  last_error = [];
  last_error_at = 0;
  last_disconnect_reason = [];
  last_disconnect_at = 0;
  last_state_change = [];
  last_state_reason = [];
  last_state_at = 0;
}

-- A pending `time.AfterFunc`, by the arguments of its callback.
pub record CooldownTimer : Type 0 where
  pub provider_id : Text
  pub until : ℕ

-- A buffered event channel: its capacity, and what is not yet received, oldest first.
pub record Subscriber : Type 0 where
  pub buffer : ℕ
  pub queue : List ProviderEvent

pub record Registry : Type 0 where
  pub providers : Map Text RuntimeProvider
  pub cooldown_timers : Map Text CooldownTimer
  pub diagnostics : Map Text ProviderDiagnostics
  pub subscribers : Map ℕ Subscriber
  pub next_sub_id : ℕ
  pub recent_events : List ProviderEvent

abbrev pub new : Registry
new = record {
  providers = [];
  cooldown_timers = [];
  diagnostics = [];
  subscribers = [];
  next_sub_id = 0;
  recent_events = [];
}

abbrev pub max_recent_events : ℕ
max_recent_events = 64

unfoldable pub provider_map_key : Text → Text
provider_map_key id = to_lower (trim_space id)

-- `eventRingBuffer.Add`: past the capacity the oldest entries go.
unfoldable pub add_event : List ProviderEvent → ProviderEvent → List ProviderEvent
add_event events e =
    let all = events ++ e ∷ [] in
    if ltb max_recent_events (length all) then drop (length all - max_recent_events) all else all

-- `eventRingBuffer.Recent`: the newest first; a number out of range asks for all.
unfoldable pub recent : ℤ → List ProviderEvent → List ProviderEvent
recent (pos n) events =
    if n == 0 || ltb (length events) n then reverse events else take n (reverse events)
recent (negsuc _) events = reverse events

-- A send that does not block: a full channel drops the event.
unfoldable pub deliver : ProviderEvent → Subscriber → Subscriber
deliver e s = if ltb (length s.queue) s.buffer then record s { queue = s.queue ++ e ∷ [] } else s

abbrev pub deliver_all : ProviderEvent → Map ℕ Subscriber → Map ℕ Subscriber
deliver_all e [] = []
deliver_all e ((id, s) ∷ rest) = (id, deliver e s) ∷ deliver_all e rest

unfoldable pub publish : ProviderEvent → Registry → Registry
publish e r = record r {
  recent_events = add_event r.recent_events e;
  subscribers = deliver_all e r.subscribers;
}

abbrev pub publish_if : Option ProviderEvent → Registry → Registry
publish_if none r = r
publish_if (some e) r = publish e r

unfoldable pub subscribe : ℤ → Registry → Registry × ℕ
subscribe buffer r =
    let id = (r.next_sub_id + 1) % 2 ^ 64 in
    (record r { next_sub_id = id; subscribers = insert id channel r.subscribers }, id)
  where
    capacity : ℤ → ℕ
    capacity (pos zero) = 16
    capacity (pos (suc n)) = suc n
    capacity (negsuc _) = 16

    channel : Subscriber
    channel = record { buffer = capacity buffer; queue = [] }

-- The function that `Subscribe` returns.
unfoldable pub cancel : ℕ → Registry → Registry
cancel id r = record r { subscribers = delete id r.subscribers }

-- `ensureDiagnosticsLocked`: an empty record where there is none.
abbrev pub ensure_diagnostics : Text → Registry → ProviderDiagnostics
ensure_diagnostics key r = elim (lookup key r.diagnostics) [ none ↦ no_diagnostics | some d ↦ d ]

unfoldable pub update_diagnostics :
    Text → (ProviderDiagnostics → ProviderDiagnostics) → Registry → Registry
update_diagnostics key f r = record r {
  diagnostics = insert key (f (ensure_diagnostics key r)) r.diagnostics;
}

unfoldable pub stop_cooldown_timer : Text → Registry → Registry
stop_cooldown_timer key r = record r { cooldown_timers = delete key r.cooldown_timers }

unfoldable pub replace_cooldown_timer : Text → Text → ℕ → Registry → Registry
replace_cooldown_timer key id until r =
    let stopped = delete key r.cooldown_timers in
    record r {
      cooldown_timers =
          if until == 0
          then stopped
          else insert key (record { provider_id = id; until = until }) stopped;
    }

-- A cooling provider with no deadline, which is not allowed, becomes active again.
unfoldable pub reset_provider : Text → Map Text RuntimeProvider → Map Text RuntimeProvider
reset_provider key m = elim (lookup key m) [
  | none ↦ m
  | some p ↦ insert key (record p { state = active; cooldown_until = 0 }) m
]

unfoldable pub sync_cooldown_timer : Text → Text → ProviderState → ℕ → Registry → Registry
unfolding stop_cooldown_timer replace_cooldown_timer reset_provider
sync_cooldown_timer key id state until r =
    if is_cooling state
    then (if until == 0
        then stop_cooldown_timer key (record r { providers = reset_provider key r.providers })
        else replace_cooldown_timer key id until r)
    else stop_cooldown_timer key r
