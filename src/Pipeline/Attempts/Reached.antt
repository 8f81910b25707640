-- ===== src/Pipeline/Attempts/Reached.antt =====
-- With round robin over the registry, no failure of other providers keeps the loop from one that serves.
use aistudio_gemini_gateway.Base.{
  ℕ, zero, suc, ◌≤◌, ◌≡◌, ◌≢◌, ◌∙◌, refl, sym, ap, subst, inl, inr, true, false, Option, none, some,
  List, [], ◌∷◌, Text, Result, ok, err, Result-cases, List-cases, All, All-lookup, All-of_mem,
  is_empty, lookup, length, text_eq, nat_eq, ==_iff, arith,
}
use aistudio_gemini_gateway.Service.Provider.{RuntimeProvider}
use aistudio_gemini_gateway.Service.Errors.{GatewayError}
use aistudio_gemini_gateway.Registry.State.{Registry, provider_map_key}
use aistudio_gemini_gateway.Registry.Transitions.{list}
use aistudio_gemini_gateway.Selector.Candidates.{
  normalize_id, normalize_tried, is_member, contains_tried, effective_provider_state,
}
use aistudio_gemini_gateway.Selector.Eligible.{is_active, is_ready}
use aistudio_gemini_gateway.Selector.{Request, round_robin_select}
use aistudio_gemini_gateway.Selector.Failure.{round_robin_select-Fails}
use aistudio_gemini_gateway.Selector.Strategies.{round_robin_select-IsBest}
use aistudio_gemini_gateway.Selector.Untried.{IsBest-untried, normalize_id_idempotent}
use aistudio_gemini_gateway.Pipeline.{
  RequestContext, apply_provider_cooldown, can_retry, max_attempts,
}
use aistudio_gemini_gateway.Pipeline.Attempts.{
  Served, select_provider, retry_loop, execute_with_retry,
}
use aistudio_gemini_gateway.Pipeline.Attempts.Cooled.{apply_provider_cooldown-others}
use aistudio_gemini_gateway.Pipeline.Attempts.Wired.{apply_provider_cooldown-All}
use aistudio_gemini_gateway.Pipeline.Attempts.Rotating.{
  Rotating, rotating, left_of, left_of-lt, left_of-all, is_member-normalized, All-list, All-of_list,
  names_of, is_member-names, length-names,
}

can_retry-true :
    (e : GatewayError) (n : ℕ) → e.retryable ≡ true → 1 ≤ n → can_retry false e n ≡ true
unfolding can_retry
can_retry-true e zero r h = absurd (omega (arith, h))
can_retry-true e (suc n) r h = rw r refl

module _ {R : Type 0} (configured now : ℕ) (req : Request)
    (answer : RuntimeProvider → Result GatewayError R) (c : RequestContext) (key : Text)
    (names : List Text) where
  -- What the loop keeps while the provider under the key is untried: each id is one of the names and not
  -- blank, and the provider is active.
  pub record Awaits (r : Registry) : Type 0 where
    pub known : All (λ entry. is_member (normalize_id entry.1.id) names ≡ true) r.providers
    pub named : All (λ entry. is_empty (normalize_id entry.1.id) ≡ false) r.providers
    pub waiting :
        (p : RuntimeProvider) × (lookup key r.providers ≡ some p)
        × (normalize_id p.id ≡ key)
        × (is_active (effective_provider_state p now).0 ≡ true)

  cool-Awaits :
      (q : RuntimeProvider) (e : GatewayError) (r : Registry)
      → normalize_id q.id ≢ key
      → Awaits r
      → Awaits (apply_provider_cooldown configured now q e r)
  unfolding normalize_id provider_map_key
  cool-Awaits q e r other h =
      let (p, at, same, up) = h.waiting in
      record {
        known =
            apply_provider_cooldown-All (λ id. is_member (normalize_id id) names ≡ true) configured
              now q e r h.known;
        named =
            apply_provider_cooldown-All (λ id. is_empty (normalize_id id) ≡ false) configured now q
              e r h.named;
        waiting = (p, apply_provider_cooldown-others configured now q e r key other ∙ at, same, up);
      }

  ready_there :
      (tried : List Text) (p : RuntimeProvider)
      → All (λ t. normalize_id t ≡ t) tried
      → is_member key tried ≡ false
      → normalize_id p.id ≡ key
      → is_active (effective_provider_state p now).0 ≡ true
      → is_ready now (normalize_tried tried) p ≡ true
  unfolding contains_tried
  ready_there tried p normal fresh same up =
      rw (same, is_member-normalized key tried normal fresh, up) refl

  -- While the provider is untried, somebody untried is chosen, and is one of the names.
  chosen_one :
      (w : Rotating) (tried : List Text)
      → Awaits w.registry
      → All (λ t. normalize_id t ≡ t) tried
      → is_member key tried ≡ false
      → (q : RuntimeProvider) × ((round_robin_select now req (list w.registry) tried w.turns).1
          ≡ ok q)
        × (is_member (normalize_id q.id) tried ≡ false)
        × (is_member (normalize_id q.id) names ≡ true)
  chosen_one w tried h normal fresh =
      elim (Result-cases (round_robin_select now req (list w.registry) tried w.turns).1) [
        | inl (e, failed) ↦
            let f = round_robin_select-Fails now req (list w.registry) tried w.turns e failed in
            let (p, at, same, up) = h.waiting in
            let idle =
              All-lookup (λ entry. is_ready now (normalize_tried tried) entry.1 ≡ false) key p
                w.registry.providers
                (All-of_list (λ q. is_ready now (normalize_tried tried) q ≡ false) w.registry
                  f.nobody)
                at in
            absurd
              (let k : true ≡ false = sym (ready_there tried p normal fresh same up) ∙ idle in (cc))
        | inr (q, picked) ↦
            let best = round_robin_select-IsBest now req (list w.registry) tried w.turns q picked in
            (
              q,
              picked,
              IsBest-untried now tried (list w.registry) q
                  (All-of_mem (λ p. is_empty (normalize_id p.id)) false q (list w.registry)
                    best.listed
                    (All-list (λ p. is_empty (normalize_id p.id) ≡ false) w.registry h.named))
                  best,
              All-of_mem (λ p. is_member (normalize_id p.id) names) true q (list w.registry)
                  best.listed
                  (All-list (λ p. is_member (normalize_id p.id) names ≡ true) w.registry h.known),
            )
      ]

  list-given :
      (w : Rotating)
      → Awaits w.registry
      → (x : RuntimeProvider) × (rest : List RuntimeProvider) × (list w.registry ≡ x ∷ rest)
  list-given w h = elim (List-cases (list w.registry)) [
    | inr found ↦ found
    | inl none' ↦
        let (p, at, same, up) = h.waiting in
        absurd (
          All-lookup (λ entry. ⊥) key p w.registry.providers
            (All-of_list (λ q. ⊥) w.registry (rw none' tt)) at)
  ]

  select_provider_eq :
      (w : Rotating) (tried : List Text)
      → Awaits w.registry
      → select_provider (rotating configured now req answer) c w tried
        ≡ (rotating configured now req answer).select w (list w.registry) tried
  unfolding select_provider
  select_provider_eq w tried h = let (x, rest, e) = list-given w h in rw (select_provider, e) refl

  module _
      (serves : (q : RuntimeProvider)
        → normalize_id q.id ≡ key
        → (response : R) × (answer q ≡ ok response))
      (retries : (q : RuntimeProvider) (e : GatewayError)
        → answer q ≡ err e
        → e.retryable ≡ true) where
    abbrev pub IsServed : Served Rotating R → Type 0
    IsServed s = (response : R) × (s.result ≡ ok response)

    refused-other :
        (q : RuntimeProvider) (e : GatewayError) → answer q ≡ err e → normalize_id q.id ≢ key
    refused-other q e refused same = let (response, served) = serves q same in cc

    still_untried :
        (tried : List Text) (q : RuntimeProvider)
        → normalize_id q.id ≢ key
        → is_member key tried ≡ false
        → is_member key (normalize_id q.id ∷ tried) ≡ false
    still_untried tried q other fresh = ground (arith, fresh, ==_iff (normalize_id q.id) key, other)

    retry_loop-IsServed :
        (n : ℕ) (w : Rotating) (tried : List Text) (last : Option GatewayError)
        → Awaits w.registry
        → All (λ t. normalize_id t ≡ t) tried
        → is_member key tried ≡ false
        → is_member key names ≡ true
        → left_of tried names ≤ n
        → IsServed (retry_loop (rotating configured now req answer) c n w tried last)
    unfolding retry_loop
    retry_loop-IsServed zero w tried last h normal fresh among enough =
        absurd (omega (arith, enough, left_of-lt key tried names among fresh))
    retry_loop-IsServed (suc n) w tried last h normal fresh among enough =
        let (q, picked, new, of_names) = chosen_one w tried h normal fresh in
        let chosen : (select_provider (rotating configured now req answer) c w tried).1 ≡ ok q =
          ap (λ x. x.1) (select_provider_eq w tried h) ∙ picked in
        let same_world = ap (λ x. x.0.registry) (select_provider_eq w tried h) in
        elim (Result-cases (answer q)) [
          | inr (response, served) ↦ rw (retry_loop, chosen, served) (response, refl)
          | inl (e, refused) ↦
              let other = refused-other q e refused in
              let still = still_untried tried q other fresh in
              let fewer = left_of-lt (normalize_id q.id) tried names of_names new in
              let more = left_of-lt key (normalize_id q.id ∷ tried) names among still in
              rw
                (
                  retry_loop,
                  chosen,
                  refused,
                  can_retry-true e n (retries q e refused) (omega (arith, fewer, more, enough)),
                )
                (retry_loop-IsServed n _ (normalize_id q.id ∷ tried) (some e)
                  (cool-Awaits q e _ other (subst Awaits (sym same_world) h))
                  (normalize_id_idempotent q.id, normal) still among (omega (arith, fewer, enough)))
        ]

-- With round robin over a registry in which no id is blank, if a provider is active and its executor
-- serves the request, and every failure of another one may be retried, then the request is served,
-- whatever the other providers answer and whatever their cooldowns do to them: the attempts suffice to
-- reach that provider. The caller waits for as long.
pub execute_with_retry-IsServed :
    {R : Type 0} (configured now : ℕ) (req : Request)
    (answer : RuntimeProvider → Result GatewayError R) (c : RequestContext) (w : Rotating)
    (p : RuntimeProvider)
    → All (λ entry. is_empty (normalize_id entry.1.id) ≡ false) w.registry.providers
    → lookup (normalize_id p.id) w.registry.providers ≡ some p
    → is_active (effective_provider_state p now).0 ≡ true
    → ((q : RuntimeProvider)
        → normalize_id q.id ≡ normalize_id p.id
        → (response : R) × (answer q ≡ ok response))
    → ((q : RuntimeProvider) (e : GatewayError) → answer q ≡ err e → e.retryable ≡ true)
    → (response : R) × ((execute_with_retry (rotating configured now req answer) c w).result
        ≡ ok response)
unfolding execute_with_retry max_attempts
execute_with_retry-IsServed configured now req answer c w p named at up serves retries =
    let (x, rest, e) = list-given configured now req answer c (normalize_id p.id) names w awaits in
    rw (execute_with_retry, e)
      (retry_loop-IsServed configured now req answer c (normalize_id p.id) names serves retries
        (suc (length rest)) w [] none awaits tt refl among
        (let whole : length (list w.registry) ≡ suc (length rest) = rw e in
          omega (arith, left_of-all names, length-names (list w.registry), whole)))
  where
    names : List Text
    names = names_of (list w.registry)

    known : All (λ entry. is_member (normalize_id entry.1.id) names ≡ true) w.registry.providers
    known =
        All-of_list (λ q. is_member (normalize_id q.id) names ≡ true) w.registry
          (is_member-names (list w.registry))

    among : is_member (normalize_id p.id) names ≡ true
    among =
        All-lookup (λ entry. is_member (normalize_id entry.1.id) names ≡ true) (normalize_id p.id) p
          w.registry.providers known at

    awaits : Awaits configured now req answer c (normalize_id p.id) names w.registry
    awaits = record { known = known; named = named; waiting = (p, at, refl, up) }
