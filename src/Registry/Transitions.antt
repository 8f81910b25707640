-- ===== src/Registry/Transitions.antt =====
-- internal/provider/registry/registry.go: what changes or reads a registered provider.
use aistudio_gemini_gateway.Base.{
  ℕ, Bool, not, ◌||◌, Option, none, some, List, [], ◌∷◌, ◌++◌, map, Text, Map, Result, ok, ◌>>◌,
  require, nat_eq, text_eq, bytes, trim_space, to_lower, is_empty, lookup, insert, length, ltb,
  ltb_ℤ, ℤ_eq, text_ltb, sort_stable, ◌==◌, if◌then◌else◌,
}
use aistudio_gemini_gateway.Service.Provider.{
  ProviderState, active, cooling, disabled, RuntimeProvider, state_changed, ProviderEvent, text,
  time, is_valid_state, is_cooling, state_text, state_eq,
}
use aistudio_gemini_gateway.Registry.State.{
  Registry, provider_map_key, publish, publish_if, update_diagnostics, stop_cooldown_timer,
  replace_cooldown_timer,
}
use aistudio_gemini_gateway.Registry.{
  RegistryError, id_empty, state_invalid, use_set_cooldown, first_non_empty, matches_connection,
}

unfoldable pub put : Text → RuntimeProvider → Registry → Registry
put key p r = record r { providers = insert key p r.providers }

unfoldable pub touch : ℕ → Text → Text → ℕ → Registry → Registry × Option RuntimeProvider
unfolding put
touch now provider_id connection_id at r =
    if is_empty (trim_space provider_id) then (r, none) else elim (lookup key r.providers) [
      | none ↦ (r, none)
      | some p ↦
          if matches_connection p (trim_space connection_id)
          then (put key (seen p) r, some (seen p))
          else (r, none)
    ]
  where
    key : Text
    key = provider_map_key provider_id

    seen : RuntimeProvider → RuntimeProvider
    seen p = record p { last_seen_at = if at == 0 then now else at }

-- The event of a state change, if the state or the deadline did change.
unfoldable pub change_event : ℕ → RuntimeProvider → RuntimeProvider → Text → Option ProviderEvent
change_event now old p message =
    if not (old.state == p.state) || not (old.cooldown_until == p.cooldown_until)
    then some (record {
      type = state_changed;
      provider = p;
      at = now;
      message = message;
      metadata =
          (bytes "from", text (state_text old.state))
          ∷ (bytes "to", text (state_text p.state))
          ∷ (bytes "old_cooldown_until", time old.cooldown_until)
          ∷ (bytes "cooldown_until", time p.cooldown_until)
          ∷ [];
    })
    else none

-- What `SetState` and `SetCooldown` note in the diagnostics.
unfoldable pub note_state :
    ℕ → Text → RuntimeProvider → RuntimeProvider → Text → Registry → Registry
note_state now key old p reason = update_diagnostics key (λ d. record d {
  last_state_change = state_text old.state ++ bytes " -> " ++ state_text p.state;
  last_state_reason = reason;
  last_state_at = now;
})

-- `SetState` on a provider that is there, `state` already checked.
unfoldable pub change_state :
    ℕ → Text → RuntimeProvider → ProviderState → Text → Registry → Registry
unfolding put note_state
change_state now key old state message r =
    let p = record old { state = state; cooldown_until = 0; last_seen_at = now } in
    publish_if (change_event now old p (first_non_empty message (bytes "provider state changed"))) (
      note_state now key old p (first_non_empty message (bytes "state changed"))
        (stop_cooldown_timer key (put key p r)))

-- A disconnected provider is kept as a disabled one.
abbrev pub stored_state : ProviderState → ProviderState
stored_state ProviderState.disconnected = disabled
stored_state s = s

unfoldable pub set_state :
    ℕ
    → Text
    → ProviderState
    → Text
    → Registry
    → Result RegistryError (Registry × Option RuntimeProvider)
unfolding change_state
set_state now provider_id state message r = do
  require (not (is_empty (trim_space provider_id))) id_empty
  require (is_valid_state state) state_invalid
  require (not (is_cooling state)) use_set_cooldown
  let key = provider_map_key provider_id
  let changed = λ (old : RuntimeProvider). change_state now key old (stored_state state) message r
  ok (elim (lookup key r.providers) [
    | none ↦ (r, none)
    | some old ↦ (changed old, lookup key (changed old).providers)
  ])

-- `SetCooldown` on a provider that is there: a deadline that has passed ends the cooldown.
unfoldable pub change_cooldown : ℕ → Text → Text → RuntimeProvider → ℕ → Text → Registry → Registry
unfolding put note_state
change_cooldown now key id old until message r =
    let over = until == 0 || not (ltb now until) in
    let p = record old {
      state = if over then active else cooling;
      cooldown_until = if over then 0 else until;
      last_seen_at = now;
    } in
    let timed = if over then stop_cooldown_timer key r else replace_cooldown_timer key id until r in
    publish_if
      (change_event now old p (first_non_empty message (bytes "provider cooldown updated")))
      (note_state now key old p (first_non_empty message (bytes "cooldown updated"))
        (put key p timed))

unfoldable pub set_cooldown : ℕ → Text → ℕ → Text → Registry → Registry × Option RuntimeProvider
unfolding change_cooldown
set_cooldown now provider_id until message r =
    if is_empty (trim_space provider_id) then (r, none) else elim (lookup key r.providers) [
      | none ↦ (r, none)
      | some old ↦ (changed old, lookup key (changed old).providers)
    ]
  where
    key : Text
    key = provider_map_key provider_id

    changed : RuntimeProvider → Registry
    changed old = change_cooldown now key (trim_space provider_id) old until message r

unfoldable pub clear_cooldown : ℕ → Text → Text → Registry → Registry × Option RuntimeProvider
clear_cooldown now provider_id message =
    set_cooldown now provider_id 0 (first_non_empty message (bytes "provider cooldown cleared"))

-- The callback of a cooldown timer. It recovers the provider only if the deadline is still the one
-- that the timer was set for, and has passed.
unfoldable pub handle_cooldown_timer : ℕ → Text → ℕ → Registry → Registry
unfolding put
handle_cooldown_timer now provider_id expected_until r = elim (lookup key r.providers) [
  | none ↦ r
  | some p ↦
      if not (is_cooling p.state) || not (p.cooldown_until == expected_until)
      then r
      else if ltb now p.cooldown_until
      then r
      else publish (event (recovered p)) (stop_cooldown_timer key (put key (recovered p) r))
]
  where
    key : Text
    key = provider_map_key provider_id

    recovered : RuntimeProvider → RuntimeProvider
    recovered p = record p { state = active; cooldown_until = 0; last_seen_at = now }

    event : RuntimeProvider → ProviderEvent
    event p = record {
      type = state_changed;
      provider = p;
      at = now;
      message = bytes "provider cooldown expired";
      metadata = (bytes "from", text (bytes "cooling")) ∷ (bytes "to", text (bytes "active")) ∷ [];
    }

unfoldable pub get : Text → Registry → Option RuntimeProvider
get provider_id r =
    if is_empty (trim_space provider_id)
    then none
    else lookup (provider_map_key provider_id) r.providers

-- The order of `List`: the highest priority first, then by the lower-cased id.
unfoldable pub listed_before : RuntimeProvider → RuntimeProvider → Bool
listed_before p q =
    if not (p.priority == q.priority)
    then ltb_ℤ q.priority p.priority
    else text_ltb (to_lower p.id) (to_lower q.id)

abbrev pub values : Map Text RuntimeProvider → List RuntimeProvider
values = map λ e. e.1

unfoldable pub list : Registry → List RuntimeProvider
list r = sort_stable listed_before (values r.providers)

unfoldable pub count : Registry → ℕ
count r = length r.providers

unfoldable pub record_provider_error : ℕ → Text → Text → Registry → Registry
record_provider_error now provider_id message =
    update_diagnostics (provider_map_key provider_id)
      (λ d. record d { last_error = message; last_error_at = now })
