-- ===== src/Pipeline/Attempts/Cooled.antt =====
-- What a failure leaves of the registered providers: they keep their ids, and only the one that failed
-- changes.
use aistudio_gemini_gateway.Base.{
  ℕ, ◌≡◌, ◌≢◌, ◌∙◌, refl, inl, inr, not, ◌||◌, Option, none, some, Text, Map, is_empty, lookup,
  insert, lookup-insert_ne, Option-cases, if-intro, text_eq, trim_space, nat_eq, ltb, ◌==◌,
}
use aistudio_gemini_gateway.Service.Provider.{RuntimeProvider, ProviderEvent}
use aistudio_gemini_gateway.Service.Errors.{GatewayError}
use aistudio_gemini_gateway.Registry.State.{
  Registry, provider_map_key, publish, publish_if, update_diagnostics, stop_cooldown_timer,
  replace_cooldown_timer,
}
use aistudio_gemini_gateway.Registry.Transitions.{
  record_provider_error, set_cooldown, change_cooldown, note_state, put,
}
use aistudio_gemini_gateway.Pipeline.{apply_provider_cooldown}

publish_if-providers :
    (e : Option ProviderEvent) (r : Registry) → (publish_if e r).providers ≡ r.providers
unfolding publish
publish_if-providers none r = refl
publish_if-providers (some e) r = refl

-- A property of the registered providers that a new copy of one of them, with its id, keeps.
module _ (Holds : Map Text RuntimeProvider → Type 0) (id : Text)
    (replaces : (m : Map Text RuntimeProvider) (old p : RuntimeProvider)
      → lookup (provider_map_key id) m ≡ some old
      → p.id ≡ old.id
      → Holds m
      → Holds (insert (provider_map_key id) p m)) where
  change_cooldown-Holds :
      (now : ℕ) (named : Text) (old : RuntimeProvider) (until : ℕ) (message : Text) (r : Registry)
      → lookup (provider_map_key id) r.providers ≡ some old
      → Holds r.providers
      → Holds (change_cooldown now (provider_map_key id) named old until message r).providers
  unfolding change_cooldown put note_state update_diagnostics stop_cooldown_timer
      replace_cooldown_timer
  change_cooldown-Holds now named old until message r e h = rw (publish_if-providers) (
      let same =
        if-intro
          (λ (s : Registry).
            (lookup (provider_map_key id) s.providers ≡ some old) × Holds s.providers)
          (until == 0 || not (ltb now until)) (λ _. (e, h)) (λ _. (e, h)) in
      replaces _ old _ same.0 refl same.1)

  set_cooldown-Holds :
      (now : ℕ) (until : ℕ) (message : Text) (r : Registry)
      → Holds r.providers
      → Holds (set_cooldown now id until message r).0.providers
  unfolding set_cooldown
  set_cooldown-Holds now until message r h =
      if-intro (λ (s : Registry × Option RuntimeProvider). Holds s.0.providers)
        (is_empty (trim_space id)) (λ _. h)
        (λ _. elim (Option-cases (lookup (provider_map_key id) r.providers)) [
          | inl e ↦ rw (e, set_cooldown) h
          | inr (old, e) ↦
              rw (e, set_cooldown)
                (change_cooldown-Holds now (trim_space id) old until message r e h)
        ])

pub apply_provider_cooldown-Holds :
    (Holds : Map Text RuntimeProvider → Type 0) (configured now : ℕ) (p : RuntimeProvider)
    (e : GatewayError) (r : Registry)
    → ((m : Map Text RuntimeProvider) (old q : RuntimeProvider)
        → lookup (provider_map_key p.id) m ≡ some old
        → q.id ≡ old.id
        → Holds m
        → Holds (insert (provider_map_key p.id) q m))
    → Holds r.providers
    → Holds (apply_provider_cooldown configured now p e r).providers
unfolding apply_provider_cooldown record_provider_error update_diagnostics
apply_provider_cooldown-Holds Holds configured now p e r replaces h =
    if-intro (λ (s : Registry). Holds s.providers) e.cooldown
      (λ _. set_cooldown-Holds Holds p.id replaces now _ _ _ h) (λ _. h)

-- The other providers stay as they are.
pub apply_provider_cooldown-others :
    (configured now : ℕ) (p : RuntimeProvider) (e : GatewayError) (r : Registry) (key : Text)
    → provider_map_key p.id ≢ key
    → lookup key (apply_provider_cooldown configured now p e r).providers ≡ lookup key r.providers
apply_provider_cooldown-others configured now p e r key other =
    apply_provider_cooldown-Holds (λ m. lookup key m ≡ lookup key r.providers) configured now p e r
      (λ m old q at same h. lookup-insert_ne (provider_map_key p.id) key q m other ∙ h) refl
