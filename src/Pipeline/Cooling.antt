-- ===== src/Pipeline/Cooling.antt =====
-- A provider that failed is passed over until its cooldown ends.
use aistudio_gemini_gateway.Base.{
  ℕ, ◌+◌, ◌≤◌, ◌<◌, ◌≡◌, ◌∙◌, ap, refl, Bool, true, false, ◌&&◌, Option, none, some, List, Text,
  nat_eq, text_eq, lookup, lookup-insert_self, ltb, ◌==◌, is_empty, trim_space, arith,
}
use aistudio_gemini_gateway.Service.Provider.{RuntimeProvider, ProviderEvent, cooling}
use aistudio_gemini_gateway.Service.Errors.{GatewayError}
use aistudio_gemini_gateway.Registry.State.{
  Registry, provider_map_key, update_diagnostics, publish, publish_if,
}
use aistudio_gemini_gateway.Registry.Transitions.{
  record_provider_error, set_cooldown, change_cooldown, put, note_state,
}
use aistudio_gemini_gateway.Selector.Candidates.{effective_provider_state}
use aistudio_gemini_gateway.Selector.Eligible.{is_ready, is_active}
use aistudio_gemini_gateway.Pipeline.{apply_provider_cooldown, cooldown_for}

-- The deadline that a failure sets.
abbrev pub deadline : ℕ → ℕ → GatewayError → ℕ
deadline configured now e = now + cooldown_for configured e.retry_after

publish_if-providers :
    (o : Option ProviderEvent) (r : Registry) → (publish_if o r).providers ≡ r.providers
unfolding publish
publish_if-providers none r = refl
publish_if-providers (some e) r = refl

abbrev pub cooled : ℕ → ℕ → RuntimeProvider → RuntimeProvider
cooled now until old = record old { state = cooling; cooldown_until = until; last_seen_at = now }

change_cooldown-lookup :
    (now : ℕ) (key id : Text) (old : RuntimeProvider) (until : ℕ) (message : Text) (r : Registry)
    → now < until
    → lookup key (change_cooldown now key id old until message r).providers
      ≡ some (cooled now until old)
unfolding change_cooldown put note_state update_diagnostics
change_cooldown-lookup now key id old until message r later =
    ap (λ m. lookup key m) (publish_if-providers _ _)
    ∙ lookup-insert_self key _ _
    ∙ rw (nonzero, ahead) refl
  where
    nonzero : (until == 0) ≡ false
    nonzero = ground arith

    ahead : ltb now until ≡ true
    ahead = ground arith

set_cooldown-lookup :
    (now until : ℕ) (id message : Text) (old : RuntimeProvider) (r : Registry)
    → is_empty (trim_space id) ≡ false
    → lookup (provider_map_key id) r.providers ≡ some old
    → now < until
    → lookup (provider_map_key id) (set_cooldown now id until message r).0.providers
      ≡ some (cooled now until old)
unfolding set_cooldown
set_cooldown-lookup now until id message old r given e later =
    rw (set_cooldown, given, e)
      (change_cooldown-lookup now (provider_map_key id) (trim_space id) old until message r later)

cooldown_for-pos : (configured retry_after : ℕ) → 1 ≤ cooldown_for configured retry_after
cooldown_for-pos configured retry_after = ground arith

and_false : (a : Bool) {b : Bool} → b ≡ false → (a && b) ≡ false
and_false true e = e
and_false false e = refl

cooled-not_ready :
    (now later until : ℕ) (tried : List Text) (old : RuntimeProvider)
    → later < until
    → is_ready later tried (cooled now until old) ≡ false
unfolding effective_provider_state
cooled-not_ready now later until tried old early =
    let waits : is_active (effective_provider_state (cooled now until old) later).0 ≡ false =
      rw (nonzero, ahead) refl in
    and_false _ waits
  where
    nonzero : (until == 0) ≡ false
    nonzero = ground arith

    ahead : ltb later until ≡ true
    ahead = ground arith

-- A failure that asks for a cooldown leaves the provider cooling, for the longer of the configured time
-- and the time that the upstream asked for, and before that deadline the provider is not ready for any
-- choice.
pub apply_provider_cooldown-not_ready :
    (configured now later : ℕ) (p old : RuntimeProvider) (e : GatewayError) (r : Registry)
    (tried : List Text)
    → is_empty (trim_space p.id) ≡ false
    → lookup (provider_map_key p.id) r.providers ≡ some old
    → e.cooldown ≡ true
    → later < deadline configured now e
    → (q : RuntimeProvider) × (lookup
          (provider_map_key p.id)
          (apply_provider_cooldown configured now p e r).providers
        ≡ some q)
      × (q.cooldown_until ≡ deadline configured now e)
      × (now + configured ≤ q.cooldown_until)
      × (now + e.retry_after ≤ q.cooldown_until)
      × (is_ready later tried q ≡ false)
unfolding apply_provider_cooldown record_provider_error update_diagnostics
apply_provider_cooldown-not_ready configured now later p old e r tried given there c early = rw c (
  cooled now until old,
  set_cooldown-lookup now until p.id _ old _ given there ahead,
  refl,
  longest.0,
  longest.1,
  cooled-not_ready now later until tried old early,
)
  where
    until : ℕ
    until = deadline configured now e

    ahead : now < until
    ahead = omega (arith, cooldown_for-pos configured e.retry_after)

    longest : (now + configured ≤ until) × (now + e.retry_after ≤ until)
    longest = (ground arith, ground arith)
