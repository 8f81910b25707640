-- ===== src/Selector/Events.antt =====
-- What the events of the registry do to the bindings of sessions.
use aistudio_gemini_gateway.Base.{
  ◌≡◌, inl, inr, refl, Bool, true, false, Text, text_eq, trim_space, is_empty, lookup,
  HasUniqueKeys, unless, Bool-cases, if◌then◌else◌,
}
use aistudio_gemini_gateway.Service.Provider.{
  ProviderEvent, ProviderEventType, replaced, state_changed, ProviderState, active, cooling,
  disabled, other,
}
use aistudio_gemini_gateway.Cache.{is_bound_to}
use aistudio_gemini_gateway.Cache.Laws.{invalidate_provider-lookup}
use aistudio_gemini_gateway.Selector.{SessionAffinity, must_invalidate, handle_provider_event}

-- The events after which a provider serves no more: it is disconnected or replaced, or its state has
-- become cooling, disabled or disconnected.
abbrev pub takes_away : ProviderEventType → ProviderState → Bool
takes_away ProviderEventType.connected s = false
takes_away ProviderEventType.disconnected s = true
takes_away replaced s = true
takes_away state_changed active = false
takes_away state_changed cooling = true
takes_away state_changed disabled = true
takes_away state_changed ProviderState.disconnected = true
takes_away state_changed (other _) = false

must_invalidate-takes_away :
    (t : ProviderEventType) (s : ProviderState) → must_invalidate t s ≡ takes_away t s
must_invalidate-takes_away ProviderEventType.connected s = refl
must_invalidate-takes_away ProviderEventType.disconnected s = refl
must_invalidate-takes_away replaced s = refl
must_invalidate-takes_away state_changed active = refl
must_invalidate-takes_away state_changed cooling = refl
must_invalidate-takes_away state_changed disabled = refl
must_invalidate-takes_away state_changed ProviderState.disconnected = refl
must_invalidate-takes_away state_changed (other _) = refl

-- A disconnection, a replacement and a change of state to cooling, disabled or disconnected delete exactly
-- the bindings to that provider, by its id up to case, and any other event leaves all bindings. The id
-- is not blank.
pub handle_provider_event-lookup :
    (e : ProviderEvent) (s : SessionAffinity) (key : Text)
    → HasUniqueKeys s.cache.entries
    → is_empty (trim_space e.provider.id) ≡ false
    → lookup key (handle_provider_event e s).cache.entries ≡ (
        if takes_away e.type e.provider.state
        then unless (is_bound_to (trim_space e.provider.id)) (lookup key s.cache.entries)
        else lookup key s.cache.entries)
unfolding handle_provider_event
handle_provider_event-lookup e s key u given =
    rw (← must_invalidate-takes_away e.type e.provider.state)
      (elim (Bool-cases (must_invalidate e.type e.provider.state)) [
        | inl gone ↦
            rw (handle_provider_event, gone)
              (invalidate_provider-lookup key e.provider.id s.cache u given)
        | inr stays ↦ rw (handle_provider_event, stays) refl
      ])
