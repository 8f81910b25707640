-- ===== src/Selector.antt =====
-- internal/provider/selector (helpers.go and types.go): which provider a request goes to. The
-- candidates are the registry's list, which has no nil entries; the set of tried ids is a list.
pub mod Candidates
pub mod Eligible
pub mod Choice
pub mod Strategies
pub mod Rotation
pub mod Affinity
pub mod Events
pub mod Untried
pub mod Failure
use aistudio_gemini_gateway.Base.{
  ℕ, zero, suc, ◌+◌, ◌-◌, ◌%◌, ◌^◌, Bool, true, false, not, ◌&&◌, ◌||◌, Option, none, some, List,
  [], ◌∷◌, ◌++◌, map, Text, Map, Result, ok, err, ℤ, pos, negsuc, nat_eq, text_eq, ℤ_eq, bytes,
  trim_space, to_lower, is_empty, equal_fold, lookup, insert, length, ltb, leb, ltb_ℤ, text_ltb,
  sort_stable, keep_if, ◌==◌, if◌then◌else◌,
}
use aistudio_gemini_gateway.Service.Provider.{
  ProviderState, cooling, disabled, RuntimeProvider, ProviderEvent, ProviderEventType, replaced,
  state_changed, connected,
}
use aistudio_gemini_gateway.Service.Errors.{GatewayError}
use aistudio_gemini_gateway.Cache.{
  Cache, get_and_refresh, set, invalidate, invalidate_provider, build_binding_key,
}
use Candidates.{Summary, collect_ready_providers, selection_error}

pub record Request : Type 0 where
  pub model : Text
  pub session_id : Text

unfoldable pub cursor_key_for_model : Text → Text
cursor_key_for_model model =
    let key = to_lower (trim_space model) in if is_empty key then bytes "*" else key

-- `ready[index]`, for an index below the length.
abbrev pub element_or : RuntimeProvider → List RuntimeProvider → ℕ → RuntimeProvider
element_or d [] i = d
element_or d (x ∷ xs) zero = x
element_or d (x ∷ xs) (suc i) = element_or d xs i

pub record RoundRobin : Type 0 where
  pub max_keys : ℕ
  pub cursors : Map Text ℕ

pub new_round_robin : ℤ → RoundRobin
new_round_robin limit = record { max_keys = positive limit; cursors = [] }
  where
    positive : ℤ → ℕ
    positive (pos zero) = 4096
    positive (pos (suc n)) = suc n
    positive (negsuc _) = 4096

abbrev pub cursor_wrap : ℕ
cursor_wrap = 2_147_483_640

-- A full table of cursors is emptied before a new key enters.
abbrev pub make_room : Text → RoundRobin → Map Text ℕ
make_room key s = elim (lookup key s.cursors) [
  | some _ ↦ s.cursors
  | none ↦ if leb s.max_keys (length s.cursors) then [] else s.cursors
]

abbrev pub cursor_at : Text → Map Text ℕ → ℕ
cursor_at key m = elim (lookup key m) [ none ↦ 0 | some i ↦ if leb cursor_wrap i then 0 else i ]

-- The step of the cursor: the index that is used, and the selector after it.
unfoldable pub advance : Text → RoundRobin → ℕ × RoundRobin
advance key s =
    let cursors = make_room key s in
    let index = cursor_at key cursors in
    (index, record s { cursors = insert key (index + 1) cursors })

unfoldable pub round_robin_select :
    ℕ
    → Request
    → List RuntimeProvider
    → List Text
    → RoundRobin
    → RoundRobin × Result GatewayError RuntimeProvider
unfolding advance cursor_key_for_model
round_robin_select now req providers tried s =
    let (ready, summary) = collect_ready_providers req.model providers tried now in
    elim ready [
      | [] ↦ (s, err (selection_error req.model summary now))
      | first ∷ rest ↦
          let (index, s') = advance (cursor_key_for_model req.model) s in
          (s', ok (element_or first (first ∷ rest) (index % length (first ∷ rest))))
    ]

unfoldable pub fill_first_select :
    ℕ → Request → List RuntimeProvider → List Text → Result GatewayError RuntimeProvider
fill_first_select now req providers tried =
    let (ready, summary) = collect_ready_providers req.model providers tried now in
    elim ready [ [] ↦ err (selection_error req.model summary now) | first ∷ rest ↦ ok first ]

pub record SessionAffinity : Type 0 where
  pub cache : Cache
  pub fallback : RoundRobin

abbrev pub find_bound : Text → List RuntimeProvider → Option RuntimeProvider
find_bound id [] = none
find_bound id (p ∷ ps) = if equal_fold p.id id then some p else find_bound id ps

-- The fallback chooses among the ready providers, and its choice is bound to the session.
unfoldable pub fallback_select :
    ℕ
    → Request
    → List RuntimeProvider
    → Text
    → SessionAffinity
    → SessionAffinity × Result GatewayError RuntimeProvider
unfolding round_robin_select
fallback_select now req ready key s =
    let (fallback, chosen) = round_robin_select now req ready [] s.fallback in
    elim chosen [
      | err e ↦ (record s { fallback = fallback }, err e)
      | ok p ↦ (
        record s {
          fallback = fallback;
          cache = if is_empty key then s.cache else set now key p.id s.cache;
        },
        ok p,
      )
    ]

-- The bound provider, if the cache has one and it is ready; a binding to one that is not ready goes.
unfoldable pub bound_select :
    ℕ
    → Request
    → List RuntimeProvider
    → Text
    → SessionAffinity
    → SessionAffinity × Result GatewayError RuntimeProvider
unfolding fallback_select
bound_select now req ready key s =
    let (cache, hit) = get_and_refresh now key s.cache in
    elim hit [
      | none ↦ fallback_select now req ready key (record s { cache = cache })
      | some id ↦ elim (find_bound id ready) [
        | some p ↦ (record s { cache = cache }, ok p)
        | none ↦ fallback_select now req ready key (record s { cache = invalidate key cache })
      ]
    ]

unfoldable pub session_affinity_select :
    ℕ
    → Request
    → List RuntimeProvider
    → List Text
    → SessionAffinity
    → SessionAffinity × Result GatewayError RuntimeProvider
unfolding bound_select
session_affinity_select now req providers tried s =
    if is_empty (trim_space req.session_id)
    then (let (fallback, chosen) = round_robin_select now req providers tried s.fallback in
        (record s { fallback = fallback }, chosen))
    else (let (ready, summary) = collect_ready_providers req.model providers tried now in
        elim ready [
          | [] ↦ (s, err (selection_error req.model summary now))
          | first ∷ rest ↦
              let key = build_binding_key req.model (trim_space req.session_id) in
              if is_empty key
              then fallback_select now req (first ∷ rest) key s
              else bound_select now req (first ∷ rest) key s
        ])

abbrev pub out_of_service : ProviderState → Bool
out_of_service cooling = true
out_of_service disabled = true
out_of_service ProviderState.disconnected = true
out_of_service _ = false

abbrev pub must_invalidate : ProviderEventType → ProviderState → Bool
must_invalidate ProviderEventType.disconnected s = true
must_invalidate replaced s = true
must_invalidate state_changed s = out_of_service s
must_invalidate connected s = false

unfoldable pub handle_provider_event : ProviderEvent → SessionAffinity → SessionAffinity
handle_provider_event e s =
    if must_invalidate e.type e.provider.state
    then record s { cache = invalidate_provider e.provider.id s.cache }
    else s
