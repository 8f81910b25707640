-- ===== src/Examples/SelectorRuns.antt =====
-- The strategies of the selector.
use aistudio_gemini_gateway.Base.{
  unless, ◌≡◌, refl, true, false, List, [], ◌∷◌, bytes, text_eq, nat_eq, ℤ_eq, lookup, insert,
  Result, ok, err, arith, equal_fold, to_lower, lower_byte, trim_space, trim_left, trim_right,
  is_space, sort_stable, insert_stable, text_ltb,
}
use aistudio_gemini_gateway.Service.Provider.{
  RuntimeProvider, cooling, ProviderEvent, ProviderEventType,
}
use aistudio_gemini_gateway.Service.Errors.{GatewayError}
use aistudio_gemini_gateway.Cache.{is_bound_to, get_and_refresh, build_binding_key}
use aistudio_gemini_gateway.Selector.Candidates.{
  is_member, collect_ready_providers, normalize_tried, examine, best_tier, ready_before,
  contains_tried, normalize_id, effective_provider_state, selection_error,
}
use aistudio_gemini_gateway.Selector.{
  Request, RoundRobin, SessionAffinity, advance, cursor_key_for_model, round_robin_select,
  fill_first_select, fallback_select, bound_select, session_affinity_select, handle_provider_event,
}
use aistudio_gemini_gateway.Selector.Choice.{IsBest}
use aistudio_gemini_gateway.Selector.Strategies.{
  round_robin_select-IsBest, fill_first_select-IsBest, session_affinity_select-IsBest,
}
use aistudio_gemini_gateway.Selector.Failure.{Fails, round_robin_select-Fails}
use aistudio_gemini_gateway.Selector.Events.{handle_provider_event-lookup}
use aistudio_gemini_gateway.Selector.Untried.{session_affinity_select-untried}
use aistudio_gemini_gateway.Selector.Affinity.{session_affinity_select-sticky}
use aistudio_gemini_gateway.Examples.Samples.{studio, backup}

abbrev candidates : List RuntimeProvider
candidates = studio ∷ backup ∷ []

abbrev chat : Request
chat = record { model = bytes "m"; session_id = bytes "s" }

abbrev turns : RoundRobin
turns = record { max_keys = 4; cursors = (bytes "m", 3) ∷ [] }

abbrev affinity : SessionAffinity
affinity = record { cache = record { entries = []; ttl = 100; stopped = false }; fallback = turns }

round_robin_select-IsBest_example : IsBest 7 [] candidates backup
unfolding round_robin_select advance cursor_key_for_model collect_ready_providers examine best_tier
    ready_before contains_tried normalize_id effective_provider_state lookup insert to_lower
    lower_byte trim_space trim_left trim_right is_space sort_stable insert_stable text_ltb
round_robin_select-IsBest_example = round_robin_select-IsBest 7 chat candidates [] turns backup refl

fill_first_select-IsBest_example : IsBest 7 [] candidates studio
unfolding fill_first_select collect_ready_providers examine best_tier ready_before contains_tried
    normalize_id effective_provider_state to_lower lower_byte trim_space trim_left trim_right
    is_space sort_stable insert_stable text_ltb
fill_first_select-IsBest_example = fill_first_select-IsBest 7 chat candidates [] studio refl

session_affinity_select-IsBest_example : IsBest 7 [] candidates backup
unfolding session_affinity_select bound_select fallback_select round_robin_select advance
    cursor_key_for_model get_and_refresh build_binding_key collect_ready_providers examine best_tier
    ready_before contains_tried normalize_id effective_provider_state lookup insert to_lower
    lower_byte trim_space trim_left trim_right is_space sort_stable insert_stable text_ltb
session_affinity_select-IsBest_example =
    session_affinity_select-IsBest 7 chat candidates [] affinity backup refl

abbrev failure_of : Result GatewayError RuntimeProvider → GatewayError
failure_of (err e) = e
failure_of (ok _) =
    selection_error [] (record { total_eligible = 0; cooling_count = 0; earliest_cooldown = 0 }) 0

-- Until 50 the only candidate is cooling.
abbrev waiting : List RuntimeProvider
waiting = record studio { state = cooling; cooldown_until = 50 } ∷ []

round_robin_select-Fails_example :
    Fails 7 (normalize_tried []) waiting (failure_of (round_robin_select 7 chat waiting [] turns).1)
unfolding round_robin_select collect_ready_providers examine best_tier contains_tried normalize_id
    effective_provider_state to_lower lower_byte trim_space trim_left trim_right is_space
    sort_stable insert_stable
round_robin_select-Fails_example =
    round_robin_select-Fails 7 chat waiting [] turns
      (failure_of (round_robin_select 7 chat waiting [] turns).1) refl

session_affinity_select-sticky_example :
    (q : RuntimeProvider) × ((session_affinity_select 50 chat candidates []
        (session_affinity_select 7 chat candidates [] affinity).0).1
      ≡ ok q)
    × (equal_fold q.id (bytes "b") ≡ true)
unfolding session_affinity_select bound_select fallback_select round_robin_select advance
    cursor_key_for_model get_and_refresh build_binding_key collect_ready_providers examine best_tier
    ready_before contains_tried normalize_id effective_provider_state lookup insert to_lower
    lower_byte trim_space trim_left trim_right is_space sort_stable insert_stable text_ltb
session_affinity_select-sticky_example =
    session_affinity_select-sticky 7 50 chat candidates candidates [] [] affinity backup backup 1
      refl refl refl refl (omega arith) refl refl

abbrev bound_affinity : SessionAffinity
bound_affinity = record affinity {
  cache = record {
    entries = (bytes "k", record { provider_id = bytes "a"; expires_at = 90 }) ∷ [];
    ttl = 100;
    stopped = false;
  };
}

abbrev went_away : ProviderEvent
went_away = record {
  type = ProviderEventType.disconnected;
  provider = studio;
  at = 9;
  message = [];
  metadata = [];
}

handle_provider_event-lookup_example :
    lookup (bytes "k") (handle_provider_event went_away bound_affinity).cache.entries
    ≡ unless
        (is_bound_to (trim_space (bytes "a")))
        (lookup (bytes "k") bound_affinity.cache.entries)
unfolding lookup trim_space trim_left trim_right is_space
handle_provider_event-lookup_example =
    handle_provider_event-lookup went_away bound_affinity (bytes "k") (refl, tt) refl

session_affinity_select-untried_example :
    is_member (normalize_id (bytes "b")) (bytes "a" ∷ []) ≡ false
unfolding session_affinity_select bound_select fallback_select round_robin_select advance
    cursor_key_for_model get_and_refresh build_binding_key collect_ready_providers examine best_tier
    ready_before contains_tried normalize_id effective_provider_state lookup insert to_lower
    lower_byte trim_space trim_left trim_right is_space sort_stable insert_stable text_ltb
session_affinity_select-untried_example =
    session_affinity_select-untried 7 chat candidates (bytes "a" ∷ []) affinity backup refl refl
