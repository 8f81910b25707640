-- ===== src/Selector/Candidates.antt =====
-- internal/provider/selector/helpers.go: the ready providers, and why there are none.
use aistudio_gemini_gateway.Base.{
  ℕ, ◌+◌, ◌-◌, Bool, true, false, not, ◌&&◌, ◌||◌, none, List, [], ◌∷◌, ◌++◌, Text, nat_eq, text_eq,
  ℤ_eq, bytes, trim_space, to_lower, is_empty, ltb, ltb_ℤ, text_ltb, sort_stable, keep_if, ◌==◌,
  if◌then◌else◌,
}
use aistudio_gemini_gateway.Service.Provider.{
  ProviderState, active, cooling, disabled, other, RuntimeProvider,
}
use aistudio_gemini_gateway.Service.Errors.{
  GatewayError, provider_cooldown, provider_unavailable, new_error, with_model, with_retryable,
  with_retry_after, with_public_message,
}

pub record Summary : Type 0 where
  pub total_eligible : ℕ
  pub cooling_count : ℕ
  pub earliest_cooldown : ℕ

-- The state that the selector sees, with its deadline: a cooldown that is over counts as active,
-- though the registry may not have ended it yet.
abbrev pub effective_state : ProviderState → ℕ → ℕ → ProviderState × ℕ
effective_state (other []) until now = (active, 0)
effective_state (other (_ ∷ _)) until now = (ProviderState.disconnected, 0)
effective_state active until now = (active, 0)
effective_state cooling until now =
    if until == 0 || not (ltb now until) then (active, 0) else (cooling, until)
effective_state disabled until now = (disabled, 0)
effective_state ProviderState.disconnected until now = (ProviderState.disconnected, 0)

unfoldable pub effective_provider_state : RuntimeProvider → ℕ → ProviderState × ℕ
effective_provider_state p now = effective_state p.state p.cooldown_until now

unfoldable pub normalize_id : Text → Text
normalize_id id = to_lower (trim_space id)

abbrev pub normalize_tried : List Text → List Text
normalize_tried [] = []
normalize_tried (id ∷ ids) =
    let rest = normalize_tried ids in
    if is_empty (normalize_id id) then rest else normalize_id id ∷ rest

abbrev pub is_member : Text → List Text → Bool
is_member id [] = false
is_member id (t ∷ ts) = t == id || is_member id ts

unfoldable pub contains_tried : List Text → Text → Bool
contains_tried tried id = is_member (normalize_id id) tried

-- The earlier of the deadline so far, 0 for none, and another one.
abbrev pub earlier : ℕ → ℕ → ℕ
earlier so_far until =
    if not (until == 0) && (so_far == 0 || ltb until so_far) then until else so_far

abbrev pub count_in :
    ProviderState × ℕ
    → RuntimeProvider
    → List RuntimeProvider × Summary
    → List RuntimeProvider × Summary
count_in (active, _) p (ready, s) =
    (ready ++ p ∷ [], record s { total_eligible = s.total_eligible + 1 })
count_in (cooling, until) p (ready, s) = (
  ready,
  record s {
    total_eligible = s.total_eligible + 1;
    cooling_count = s.cooling_count + 1;
    earliest_cooldown = earlier s.earliest_cooldown until;
  },
)
count_in (_, _) p (ready, s) = (ready, record s { total_eligible = s.total_eligible + 1 })

-- The loop over the candidates.
unfoldable pub examine :
    ℕ
    → List Text
    → List RuntimeProvider
    → List RuntimeProvider × Summary
    → List RuntimeProvider × Summary
examine now tried [] acc = acc
examine now tried (p ∷ ps) acc =
    examine now tried ps
      (if contains_tried tried p.id then acc else count_in (effective_provider_state p now) p acc)

-- The order of the ready providers: priority, then the longest connected, then the id.
unfoldable pub ready_before : RuntimeProvider → RuntimeProvider → Bool
ready_before p q =
    if not (p.priority == q.priority)
    then ltb_ℤ q.priority p.priority
    else if not (p.connected_at == q.connected_at)
    then ltb p.connected_at q.connected_at
    else text_ltb (to_lower p.id) (to_lower q.id)

-- Only the highest priority that is ready takes part.
unfoldable pub best_tier : List RuntimeProvider → List RuntimeProvider
best_tier [] = []
best_tier (p ∷ ps) = keep_if (λ q. q.priority == p.priority) (p ∷ ps)

abbrev pub no_summary : Summary
no_summary = record { total_eligible = 0; cooling_count = 0; earliest_cooldown = 0 }

unfoldable pub collect_ready_providers :
    Text → List RuntimeProvider → List Text → ℕ → List RuntimeProvider × Summary
collect_ready_providers model providers tried now =
    let (ready, summary) = examine now (normalize_tried tried) providers ([], no_summary) in
    (best_tier (sort_stable ready_before ready), summary)

-- Whether all that could serve the request are cooling, and until when is known.
unfoldable pub all_cooling : Summary → Bool
all_cooling s =
    ltb 0 s.total_eligible && s.cooling_count == s.total_eligible && not (s.earliest_cooldown == 0)

-- `earliest - now` is cut at 0 by the source as well.
unfoldable pub selection_error : Text → Summary → ℕ → GatewayError
unfolding all_cooling
selection_error model s now =
    if all_cooling s
    then new_error provider_cooldown (bytes "all eligible providers are cooling down") none (
        with_model (trim_space model)
        ∷ with_retryable true
        ∷ with_retry_after (s.earliest_cooldown - now)
        ∷ with_public_message (bytes "所有可用 Provider 当前均处于冷却中")
        ∷ [])
    else new_error provider_unavailable (bytes "no eligible provider available") none
        (with_model (trim_space model) ∷ with_public_message (bytes "当前没有可用的执行通道") ∷ [])
