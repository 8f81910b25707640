-- ===== src/Pipeline/Attempts/Wired.antt =====
-- The loop on the gateway's own registry, selector and cooldowns: `selectProvider` and
-- `applyProviderCooldown` of internal/pipeline/pipeline.go. The executor's answers are a parameter.
use aistudio_gemini_gateway.Base.{
  subst, sym, ℕ, ◌≡◌, false, [], ◌∷◌, Text, Map, Result, is_empty, All, All-insert, All-lookup,
  All-sort_stable, All-of_mem, text_eq, nat_eq,
}
use aistudio_gemini_gateway.Service.Provider.{RuntimeProvider}
use aistudio_gemini_gateway.Service.Errors.{GatewayError}
use aistudio_gemini_gateway.Registry.State.{Registry, provider_map_key}
use aistudio_gemini_gateway.Registry.Transitions.{list, listed_before, values}
use aistudio_gemini_gateway.Selector.Candidates.{normalize_id}
use aistudio_gemini_gateway.Selector.{Request, SessionAffinity, session_affinity_select}
use aistudio_gemini_gateway.Selector.Untried.{session_affinity_select-untried}
use aistudio_gemini_gateway.Selector.Strategies.{session_affinity_select-IsBest}
use aistudio_gemini_gateway.Pipeline.{RequestContext, apply_provider_cooldown}
use aistudio_gemini_gateway.Pipeline.Attempts.{Environment}
use aistudio_gemini_gateway.Pipeline.Attempts.Cooled.{apply_provider_cooldown-Holds}
use aistudio_gemini_gateway.Pipeline.Attempts.Reach.{Respects}

pub record World : Type 0 where
  pub registry : Registry
  pub affinity : SessionAffinity

-- The configured cooldown, the clock, what the selector is told of the request, and what the executor answers for a provider.
abbrev pub wired :
    {R : Type 0} → ℕ → ℕ → Request → (RuntimeProvider → Result GatewayError R) → Environment World R
wired configured now req answer = record {
  list_selectable = λ w. list w.registry;
  select = λ w ps tried. (
    record w { affinity = (session_affinity_select now req ps tried w.affinity).0 },
    (session_affinity_select now req ps tried w.affinity).1,
  );
  execute = λ w p. (w, answer p);
  cool_down =
      λ w p e. record w { registry = apply_provider_cooldown configured now p e w.registry };
  is_done = λ w. false;
}

abbrev pub IsNamed : Text × RuntimeProvider → Type 0
IsNamed entry = is_empty (normalize_id entry.1.id) ≡ false

-- Every registered provider has an id that is not blank.
abbrev pub AreNamed : World → Type 0
AreNamed w = All IsNamed w.registry.providers

values-named :
    (m : Map Text RuntimeProvider)
    → All IsNamed m
    → All (λ p. is_empty (normalize_id p.id) ≡ false) (values m)
values-named [] h = tt
values-named (entry ∷ m) (p, h) = (p, values-named m h)

list-named :
    (r : Registry)
    → All IsNamed r.providers
    → All (λ p. is_empty (normalize_id p.id) ≡ false) (list r)
unfolding list
list-named r h =
    All-sort_stable listed_before (λ p. is_empty (normalize_id p.id) ≡ false) (values r.providers)
      (values-named r.providers h)

-- The cooldown of a provider leaves a property of the ids of all providers.
pub apply_provider_cooldown-All :
    (P : Text → Type 0) (configured now : ℕ) (p : RuntimeProvider) (e : GatewayError) (r : Registry)
    → All (λ entry. P entry.1.id) r.providers
    → All (λ entry. P entry.1.id) (apply_provider_cooldown configured now p e r).providers
apply_provider_cooldown-All P configured now p e r h =
    apply_provider_cooldown-Holds (All Has) configured now p e r
      (λ m old q at same all.
        All-insert Has (provider_map_key p.id) q m all
          (subst P (sym same) (All-lookup Has (provider_map_key p.id) old m all at)))
      h
  where
    Has : Text × RuntimeProvider → Type 0
    Has entry = P entry.1.id

-- As long as no registered provider has a blank id, session affinity over the registry gives nobody who
-- was tried, and the cooldowns leave the ids as they are.
pub wired-Respects :
    {R : Type 0} (configured now : ℕ) (c : RequestContext) (req : Request)
    (answer : RuntimeProvider → Result GatewayError R)
    → Respects (wired configured now req answer) c AreNamed
wired-Respects configured now c req answer = record {
  untried = λ w tried p good chosen.
      session_affinity_select-untried now req (list w.registry) tried w.affinity p
        (All-of_mem (λ q. is_empty (normalize_id q.id)) false p (list w.registry)
          (session_affinity_select-IsBest now req (list w.registry) tried w.affinity p
            chosen).listed
          (list-named w.registry good))
        chosen;
  selects = λ w tried good. good;
  executes = λ w p good. good;
  cools = λ w p e good.
      apply_provider_cooldown-All (λ id. is_empty (normalize_id id) ≡ false) configured now p e
        w.registry good;
}
