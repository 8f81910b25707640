-- ===== src/Selector/Affinity.antt =====
-- A session stays with its provider.
use aistudio_gemini_gateway.Base.{
  ℕ, ◌+◌, ◌≤◌, ◌≡◌, zero, suc, get_elem?, refl, sym, subst, ap, ◌∙◌, inl, inr, true, false, none,
  some, List, [], ◌∷◌, Text, nat_eq, text_eq, ==_iff, Result, ok, err, List-cases, Option-cases,
  Bool-cases, Result-cases, equal_fold, equal_fold_refl, to_lower, trim_space,
  trim_space_idempotent, trim_space-solid, is_space, bytes, is_empty, if◌then◌else◌, arith, lookup,
  ok-injective,
}
use aistudio_gemini_gateway.Service.Provider.{RuntimeProvider}
use aistudio_gemini_gateway.Service.Errors.{GatewayError}
use aistudio_gemini_gateway.Cache.{build_binding_key, get_and_refresh, invalidate, set}
use aistudio_gemini_gateway.Cache.Laws.{
  lookup-set, refresh-lookup, get_and_refresh-hit, get_and_refresh-ttl, invalidate-ttl,
}
use aistudio_gemini_gateway.Selector.Candidates.{collect_ready_providers, selection_error}
use aistudio_gemini_gateway.Selector.{
  Request, SessionAffinity, find_bound, round_robin_select, fallback_select, bound_select,
  session_affinity_select,
}

-- The entry that binds a key, with its end.
HasBinding : Text → Text → ℕ → SessionAffinity → Type 0
HasBinding key id until s =
    lookup (trim_space key) s.cache.entries ≡ some (record { provider_id = id; expires_at = until })

equal_fold_both :
    (a b c : Text) → equal_fold a b ≡ true → equal_fold c b ≡ true → equal_fold a c ≡ true
unfolding equal_fold
equal_fold_both a b c h k = ground (
  arith,
  ==_iff (to_lower a) (to_lower b),
  ==_iff (to_lower c) (to_lower b),
  ==_iff (to_lower a) (to_lower c),
)

find_bound-same :
    (id : Text) (ready : List RuntimeProvider) (p : RuntimeProvider)
    → find_bound id ready ≡ some p
    → equal_fold p.id id ≡ true
find_bound-same id [] p = λ e. cc
find_bound-same id (q ∷ qs) p = elim (Bool-cases (equal_fold q.id id)) [
  | inl same ↦ rw same (λ e. let f : q ≡ p = cc in rw (sym f) same)
  | inr other ↦ rw other (λ e. find_bound-same id qs p e)
]

find_bound-total :
    (id : Text) (ready : List RuntimeProvider) (i : ℕ) (p : RuntimeProvider)
    → get_elem? ready i ≡ some p
    → equal_fold p.id id ≡ true
    → (q : RuntimeProvider) × (find_bound id ready ≡ some q)
find_bound-total id [] i p m h = absurd cc
find_bound-total id (q ∷ qs) zero p m h = (q, let f : q ≡ p = cc in rw (rw (sym f) at h) refl)
find_bound-total id (q ∷ qs) (suc i) p m h = elim (Bool-cases (equal_fold q.id id)) [
  | inl same ↦ rw same (q, refl)
  | inr other ↦ rw other (find_bound-total id qs i p m h)
]

nonblank : (t : Text) → is_empty (trim_space t) ≡ false → is_empty t ≡ false
unfolding trim_space
nonblank [] h = h
nonblank (c ∷ t) h = refl

module _ (now : ℕ) (req : Request) (key : Text) (k : is_empty (trim_space key) ≡ false) where
  -- A binding that is live and whose provider is ready decides, and lives on.
  bound_select-follows :
      (until : ℕ) (ready : List RuntimeProvider) (id : Text) (s : SessionAffinity)
      (p : RuntimeProvider)
      → HasBinding key id until s
      → now ≤ until
      → find_bound id ready ≡ some p
      → (bound_select now req ready key s).1 ≡ ok p
  unfolding bound_select HasBinding
  bound_select-follows until ready id s p b live e =
      let (hit, kept) = (refresh-lookup now key _ s.cache k b).0 live in
      rw (bound_select, hit, e) refl

  -- The binding that a choice leaves: to the provider's id up to case, from now on.
  Binds : ℕ → RuntimeProvider → SessionAffinity → Type 0
  Binds ttl p t = (id : Text) × HasBinding key id (now + ttl) t × (equal_fold p.id id ≡ true)

  set-Binds :
      (s : SessionAffinity) (q p : RuntimeProvider)
      → trim_space p.id ≡ p.id
      → is_empty p.id ≡ false
      → q ≡ p
      → (id : Text) × (lookup (trim_space key) (set now key q.id s.cache).entries
          ≡ some (record { provider_id = id; expires_at = now + s.cache.ttl }))
        × (equal_fold p.id id ≡ true)
  set-Binds s q p trimmed given e = rw e (
    trim_space p.id,
    lookup-set now key p.id s.cache k (rw trimmed given),
    rw trimmed (equal_fold_refl p.id),
  )

  fallback_select-Binds :
      (ready : List RuntimeProvider) (s : SessionAffinity) (p : RuntimeProvider)
      → trim_space p.id ≡ p.id
      → is_empty p.id ≡ false
      → (fallback_select now req ready key s).1 ≡ ok p
      → Binds s.cache.ttl p (fallback_select now req ready key s).0
  unfolding fallback_select HasBinding Binds
  fallback_select-Binds ready s p trimmed given =
      elim (Result-cases (round_robin_select now req ready [] s.fallback).1) [
        | inl (e, failed) ↦ rw (failed, fallback_select) (λ h. cc)
        | inr (q, chosen) ↦
            rw (chosen, fallback_select, nonblank key k)
              (λ h. set-Binds s q p trimmed given (ok-injective h))
      ]

  bound_select-Binds :
      (ready : List RuntimeProvider) (s : SessionAffinity) (p : RuntimeProvider)
      → trim_space p.id ≡ p.id
      → is_empty p.id ≡ false
      → (bound_select now req ready key s).1 ≡ ok p
      → Binds s.cache.ttl p (bound_select now req ready key s).0
  unfolding bound_select HasBinding Binds
  bound_select-Binds ready s p trimmed given =
      elim (Option-cases (get_and_refresh now key s.cache).1) [
        | inl miss ↦
            rw (miss, bound_select)
              (λ h.
                rw (get_and_refresh-ttl now key s.cache) at
                  (fallback_select-Binds ready _ p trimmed given h))
        | inr (id, hit) ↦ elim (Option-cases (find_bound id ready)) [
          | inl gone ↦
              rw (hit, bound_select, gone)
                (λ h.
                  let t : SessionAffinity = record s {
                    cache = invalidate key (get_and_refresh now key s.cache).0;
                  } in
                  subst (λ n. Binds n p (fallback_select now req ready key t).0)
                    (invalidate-ttl key (get_and_refresh now key s.cache).0
                      ∙ get_and_refresh-ttl now key s.cache)
                    (fallback_select-Binds ready t p trimmed given h))
          | inr (q, found) ↦
              rw (hit, bound_select, found)
                (λ h. (
                  id,
                  (get_and_refresh-hit now key id s.cache hit).1,
                  rw (sym (ok-injective h)) (find_bound-same id ready q found),
                ))
        ]
      ]

  -- What a request of a session goes through.
  select_keyed :
      (ps : List RuntimeProvider) (tried : List Text) (s : SessionAffinity)
      → is_empty (trim_space req.session_id) ≡ false
      → build_binding_key req.model (trim_space req.session_id) ≡ key
      → (x : RuntimeProvider) (rest : List RuntimeProvider)
      → (collect_ready_providers req.model ps tried now).0 ≡ x ∷ rest
      → session_affinity_select now req ps tried s ≡ bound_select now req (x ∷ rest) key s
  unfolding session_affinity_select
  select_keyed ps tried s given built x rest e =
      rw (given, session_affinity_select, e, built, nonblank key k) refl

select_nobody :
    (now : ℕ) (req : Request) (ps : List RuntimeProvider) (tried : List Text) (s : SessionAffinity)
    → is_empty (trim_space req.session_id) ≡ false
    → (collect_ready_providers req.model ps tried now).0 ≡ []
    → session_affinity_select now req ps tried s
      ≡ (s, err (selection_error req.model (collect_ready_providers req.model ps tried now).1 now))
unfolding session_affinity_select
select_nobody now req ps tried s given e = rw (given, session_affinity_select, e) refl

key_of : Request → Text
key_of req = build_binding_key req.model (trim_space req.session_id)

key_of-nonblank :
    (req : Request)
    → is_empty (trim_space req.session_id) ≡ false
    → is_empty (trim_space (key_of req)) ≡ false
unfolding key_of build_binding_key is_space
key_of-nonblank req given =
    rw (trim_space_idempotent req.session_id, given)
      (trim_space-solid
        (if is_empty (to_lower (trim_space req.model))
          then bytes "*"
          else to_lower (trim_space req.model))
        (bytes "::") (trim_space req.session_id) refl)

-- Once a session was given a provider, a later request of the session, before the time to live of the
-- binding has passed, gets a provider of the same id, up to case, if that one is among the ready
-- candidates of the best priority. The id is one that the registry gives: trimmed, and not empty.
pub session_affinity_select-sticky :
    (now later : ℕ) (req : Request) (ps ps' : List RuntimeProvider) (tried tried' : List Text)
    (s : SessionAffinity) (p p' : RuntimeProvider) (i : ℕ)
    → is_empty (trim_space req.session_id) ≡ false
    → trim_space p.id ≡ p.id
    → is_empty p.id ≡ false
    → (session_affinity_select now req ps tried s).1 ≡ ok p
    → later ≤ now + s.cache.ttl
    → get_elem? (collect_ready_providers req.model ps' tried' later).0 i ≡ some p'
    → p'.id ≡ p.id
    → (q : RuntimeProvider) × ((session_affinity_select later req ps' tried'
          (session_affinity_select now req ps tried s).0).1
        ≡ ok q)
      × (equal_fold q.id p.id ≡ true)
unfolding key_of Binds
session_affinity_select-sticky now later req ps ps' tried tried' s p p' i given trimmed named chosen
      early at same =
    elim (List-cases (collect_ready_providers req.model ps tried now).0) [
      | inl none' ↦ absurd (cc_of (ap (λ r. r.1) (sym (nobody_fails none')) ∙ chosen))
      | inr (x, rest, some') ↦ later_follows (
          subst (λ r. Binds now req (key_of req) nonblank_key s.cache.ttl p r.0)
            (sym
              (select_keyed now req (key_of req) nonblank_key ps tried s given refl x rest some'))
            (bound_select-Binds now req (key_of req) nonblank_key (x ∷ rest) s p trimmed named (
              ap (λ r. r.1)
                (sym (
                  select_keyed now req (key_of req) nonblank_key ps tried s given refl x rest
                    some'))
              ∙ chosen)))
    ]
  where
    nonblank_key : is_empty (trim_space (key_of req)) ≡ false
    nonblank_key = key_of-nonblank req given

    t : SessionAffinity
    t = (session_affinity_select now req ps tried s).0

    nobody_fails :
        (collect_ready_providers req.model ps tried now).0 ≡ []
        → session_affinity_select now req ps tried s ≡ (
          s,
          err (selection_error req.model (collect_ready_providers req.model ps tried now).1 now),
        )
    nobody_fails e = select_nobody now req ps tried s given e

    cc_of : {e : GatewayError} → ◌≡◌ {A = Result GatewayError RuntimeProvider} (err e) (ok p) → ⊥
    cc_of h = cc

    later_follows :
        Binds now req (key_of req) nonblank_key s.cache.ttl p t
        → (q : RuntimeProvider) × ((session_affinity_select later req ps' tried' t).1 ≡ ok q)
          × (equal_fold q.id p.id ≡ true)
    later_follows (id, b, e) =
        elim (List-cases (collect_ready_providers req.model ps' tried' later).0) [
          | inl none' ↦ absurd (let k : none ≡ some p' = rw none' at at in cc)
          | inr (x, rest, some') ↦
              let (q, found) = find_bound-total id (x ∷ rest) i p' (rw some' at at) (rw same e) in
              (
                q,
                ap (λ r. r.1)
                      (select_keyed later req (key_of req) nonblank_key ps' tried' t given refl x
                        rest some')
                    ∙ bound_select-follows later req (key_of req) nonblank_key (now + s.cache.ttl)
                        (x ∷ rest) id t q b early found,
                equal_fold_both q.id id p.id (find_bound-same id (x ∷ rest) q found) e,
              )
        ]
