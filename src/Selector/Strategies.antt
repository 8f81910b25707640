-- ===== src/Selector/Strategies.antt =====
-- Every strategy chooses a best candidate whenever there is one.
use aistudio_gemini_gateway.Base.{
  ℕ, zero, suc, ◌≡◌, inl, inr, Bool, true, some, List, [], ◌∷◌, Text, nat_eq, text_eq, ℤ_eq, ◌==◌,
  Result, ok, err, All, All-keep_if, All-map, All-sort_stable, keep_if, sort_stable, List-cases,
  Option-cases, Bool-cases, equal_fold, trim_space, is_empty, if◌then◌else◌, ok-injective,
  Result-cases, subst,
}
use aistudio_gemini_gateway.Service.Provider.{RuntimeProvider}
use aistudio_gemini_gateway.Service.Errors.{GatewayError}
use aistudio_gemini_gateway.Cache.{build_binding_key, get_and_refresh}
use aistudio_gemini_gateway.Selector.Candidates.{
  best_tier, collect_ready_providers, normalize_tried, no_summary, ready_before,
}
use aistudio_gemini_gateway.Selector.Eligible.{is_ready, examine-ready}
use aistudio_gemini_gateway.Selector.Choice.{IsBest, collect-IsBest}
use aistudio_gemini_gateway.Selector.{
  Request, RoundRobin, SessionAffinity, element_or, find_bound, round_robin_select,
  fill_first_select, fallback_select, bound_select, session_affinity_select,
}

-- What holds of all candidates holds of those that are collected.
collect-All :
    (P : RuntimeProvider → Type 0) (model : Text) (ps : List RuntimeProvider) (tried : List Text)
    (now : ℕ)
    → All P ps
    → All P (collect_ready_providers model ps tried now).0
unfolding collect_ready_providers best_tier
collect-All P model ps tried now h =
    rw (examine-ready now (normalize_tried tried) ps ([], no_summary)) (
      best_tier-All (sort_stable ready_before ready) (
        All-sort_stable ready_before P ready
          (All-map (λ p. P p × (test p ≡ true)) P (λ p k. k.0) ready (All-keep_if P test ps h))))
  where
    test : RuntimeProvider → Bool
    test = is_ready now (normalize_tried tried)

    ready : List RuntimeProvider
    ready = keep_if test ps

    best_tier-All : (qs : List RuntimeProvider) → All P qs → All P (best_tier qs)
    best_tier-All [] k = tt
    best_tier-All (q ∷ qs) k =
        All-map (λ p. P p × ((p.priority == q.priority) ≡ true)) P (λ p r. r.0) _
          (All-keep_if P (λ p. p.priority == q.priority) (q ∷ qs) k)

All-element_or :
    (P : RuntimeProvider → Type 0) (d : RuntimeProvider) (xs : List RuntimeProvider) (i : ℕ)
    → P d
    → All P xs
    → P (element_or d xs i)
All-element_or P d [] i p h = p
All-element_or P d (x ∷ xs) zero p h = h.0
All-element_or P d (x ∷ xs) (suc i) p h = All-element_or P d xs i p h.1

module _ (P : RuntimeProvider → Type 0) where
  abbrev Chosen : Result GatewayError RuntimeProvider → Type 0
  Chosen (ok p) = P p
  Chosen (err _) = Unit

  round_robin_select-Chosen :
      (now : ℕ) (req : Request) (ps : List RuntimeProvider) (tried : List Text) (s : RoundRobin)
      → All P (collect_ready_providers req.model ps tried now).0
      → Chosen (round_robin_select now req ps tried s).1
  unfolding round_robin_select
  round_robin_select-Chosen now req ps tried s =
      elim (List-cases (collect_ready_providers req.model ps tried now).0) [
        | inl e ↦ rw (e, round_robin_select) (λ _. tt)
        | inr (x, rest, e) ↦ rw (e, round_robin_select) (λ h. All-element_or P x (x ∷ rest) _ h.0 h)
      ]

  fill_first_select-Chosen :
      (now : ℕ) (req : Request) (ps : List RuntimeProvider) (tried : List Text)
      → All P (collect_ready_providers req.model ps tried now).0
      → Chosen (fill_first_select now req ps tried)
  unfolding fill_first_select
  fill_first_select-Chosen now req ps tried =
      elim (List-cases (collect_ready_providers req.model ps tried now).0) [
        | inl e ↦ rw (e, fill_first_select) (λ _. tt)
        | inr (x, rest, e) ↦ rw (e, fill_first_select) (λ h. h.0)
      ]

  fallback_select-Chosen :
      (now : ℕ) (req : Request) (ready : List RuntimeProvider) (key : Text) (s : SessionAffinity)
      → All P ready
      → Chosen (fallback_select now req ready key s).1
  unfolding fallback_select
  fallback_select-Chosen now req ready key s h =
      elim (Result-cases (round_robin_select now req ready [] s.fallback).1) [
        | inl (e, failed) ↦ rw (failed, fallback_select) tt
        | inr (p, chosen) ↦
            rw (chosen, fallback_select)
              (rw chosen at (
                round_robin_select-Chosen now req ready [] s.fallback
                  (collect-All P req.model ready [] now h)))
      ]

  find_bound-Chosen :
      (id : Text) (ready : List RuntimeProvider) (p : RuntimeProvider)
      → All P ready
      → find_bound id ready ≡ some p
      → P p
  find_bound-Chosen id [] p h = λ e. cc
  find_bound-Chosen id (q ∷ qs) p h = elim (Bool-cases (equal_fold q.id id)) [
    | inl same ↦ rw same (λ e. subst P (same_of e) h.0)
    | inr other ↦ rw other (λ e. find_bound-Chosen id qs p h.1 e)
  ]
    where
      same_of : some q ≡ some p → q ≡ p
      same_of e = cc

  bound_select-Chosen :
      (now : ℕ) (req : Request) (ready : List RuntimeProvider) (key : Text) (s : SessionAffinity)
      → All P ready
      → Chosen (bound_select now req ready key s).1
  unfolding bound_select
  bound_select-Chosen now req ready key s h =
      elim (Option-cases (get_and_refresh now key s.cache).1) [
        | inl miss ↦ rw (miss, bound_select) (fallback_select-Chosen now req ready key _ h)
        | inr (id, hit) ↦ elim (Option-cases (find_bound id ready)) [
          | inl gone ↦ rw (hit, bound_select, gone) (fallback_select-Chosen now req ready key _ h)
          | inr (p, found) ↦ rw (hit, bound_select, found) (find_bound-Chosen id ready p h found)
        ]
      ]

  session_affinity_select-Chosen :
      (now : ℕ) (req : Request) (ps : List RuntimeProvider) (tried : List Text)
      (s : SessionAffinity)
      → All P (collect_ready_providers req.model ps tried now).0
      → Chosen (session_affinity_select now req ps tried s).1
  unfolding session_affinity_select
  session_affinity_select-Chosen now req ps tried s h =
      elim (Bool-cases (is_empty (trim_space req.session_id))) [
        | inl alone ↦ rw alone (round_robin_select-Chosen now req ps tried s.fallback h)
        | inr given ↦ elim (List-cases (collect_ready_providers req.model ps tried now).0) [
          | inl e ↦ rw (given, e) tt
          | inr (x, rest, e) ↦ rw (given, e) (keyed (x ∷ rest) (rw e at h))
        ]
      ]
    where
      key : Text
      key = build_binding_key req.model (trim_space req.session_id)

      keyed :
          (ready : List RuntimeProvider)
          → All P ready
          → Chosen
              (if is_empty key
                then fallback_select now req ready key s
                else bound_select now req ready key s).1
      keyed ready k = elim (Bool-cases (is_empty key)) [
        | inl none' ↦ rw none' (fallback_select-Chosen now req ready key s k)
        | inr some' ↦ rw some' (bound_select-Chosen now req ready key s k)
      ]

  of_Chosen :
      (r : Result GatewayError RuntimeProvider) {p : RuntimeProvider} → Chosen r → r ≡ ok p → P p
  of_Chosen (ok q) c e = subst P (ok-injective e) c
  of_Chosen (err x) c e = cc

-- Round robin chooses a candidate that was not tried, is active, and has no ready candidate of a
-- higher priority over it.
pub round_robin_select-IsBest :
    (now : ℕ) (req : Request) (ps : List RuntimeProvider) (tried : List Text) (s : RoundRobin)
    (p : RuntimeProvider)
    → (round_robin_select now req ps tried s).1 ≡ ok p
    → IsBest now tried ps p
round_robin_select-IsBest now req ps tried s p e =
    of_Chosen (IsBest now tried ps) _
      (round_robin_select-Chosen (IsBest now tried ps) now req ps tried s
        (collect-IsBest req.model ps tried now))
      e

-- So does the strategy that fills the first provider.
pub fill_first_select-IsBest :
    (now : ℕ) (req : Request) (ps : List RuntimeProvider) (tried : List Text) (p : RuntimeProvider)
    → fill_first_select now req ps tried ≡ ok p
    → IsBest now tried ps p
fill_first_select-IsBest now req ps tried p e =
    of_Chosen (IsBest now tried ps) _
      (fill_first_select-Chosen (IsBest now tried ps) now req ps tried
        (collect-IsBest req.model ps tried now))
      e

-- So does session affinity, whether it follows a binding, makes one, or serves a request without a
-- session.
pub session_affinity_select-IsBest :
    (now : ℕ) (req : Request) (ps : List RuntimeProvider) (tried : List Text) (s : SessionAffinity)
    (p : RuntimeProvider)
    → (session_affinity_select now req ps tried s).1 ≡ ok p
    → IsBest now tried ps p
session_affinity_select-IsBest now req ps tried s p e =
    of_Chosen (IsBest now tried ps) _
      (session_affinity_select-Chosen (IsBest now tried ps) now req ps tried s
        (collect-IsBest req.model ps tried now))
      e
