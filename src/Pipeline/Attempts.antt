-- ===== src/Pipeline/Attempts.antt =====
-- `executeNonStreamWithRetry`: the loop over the providers.
pub mod Reach
pub mod Cooled
pub mod Rotating
pub mod Reached
pub mod Wired
use aistudio_gemini_gateway.Base.{
  ℕ, zero, suc, ◌+◌, ◌≡◌, ◌≢◌, Bool, true, false, Option, none, some, List, [], ◌∷◌, Text, Result,
  ok, err, bytes, length, if◌then◌else◌, is_empty,
}
use aistudio_gemini_gateway.Service.Provider.{RuntimeProvider}
use aistudio_gemini_gateway.Service.Errors.{
  GatewayError, new_error, provider_unavailable, with_model, with_action, with_public_message,
}
use aistudio_gemini_gateway.Selector.Candidates.{normalize_id}
use aistudio_gemini_gateway.Pipeline.{RequestContext, can_retry, max_attempts}

-- What the loop works with: the registry, the selector, the executor and the cooldowns, over a world
-- that other goroutines may change meanwhile. `execute` is `execute_once` of the executor's outcome.
pub record Environment (W R : Type 0) : Type 0 where
  pub list_selectable : W → List RuntimeProvider
  pub select : W → List RuntimeProvider → List Text → W × Result GatewayError RuntimeProvider
  pub execute : W → RuntimeProvider → W × Result GatewayError R
  pub cool_down : W → RuntimeProvider → GatewayError → W
  pub is_done : W → Bool

-- What is left of a request: the world, the ids that were tried, the last one first, and the result.
pub record Served (W R : Type 0) : Type 0 where
  pub world : W
  pub tried : List Text
  pub result : Result GatewayError R

abbrev pub not_connected : RequestContext → GatewayError
not_connected c = new_error provider_unavailable (bytes "no provider connected") none (
    with_model c.resolved_model
    ∷ with_action c.action
    ∷ with_public_message (bytes "当前没有可用的 Provider")
    ∷ [])

abbrev pub none_after_retries : RequestContext → GatewayError
none_after_retries c =
    new_error provider_unavailable (bytes "no provider available after retries") none (
      with_model c.resolved_model
      ∷ with_action c.action
      ∷ with_public_message (bytes "当前没有可用的 Provider")
      ∷ [])

module _ {W R : Type 0} (env : Environment W R) (c : RequestContext) where
  unfoldable pub select_provider : W → List Text → W × Result GatewayError RuntimeProvider
  select_provider w tried = elim (env.list_selectable w) [
    | [] ↦ (w, err (not_connected c))
    | p ∷ ps ↦ env.select w (p ∷ ps) tried
  ]

  -- The loop, with the number of attempts that are left and the error of the last one.
  unfoldable pub retry_loop : ℕ → W → List Text → Option GatewayError → Served W R
  unfolding select_provider
  retry_loop zero w tried last = record {
    world = w;
    tried = tried;
    result = elim last [ none ↦ err (none_after_retries c) | some e ↦ err e ];
  }
  retry_loop (suc n) w tried last =
      let (w₁, chosen) = select_provider w tried in
      elim chosen [
        | err e ↦ record {
          world = w₁;
          tried = tried;
          result = elim last [ none ↦ err e | some before ↦ err before ];
        }
        | ok p ↦
            let now_tried = normalize_id p.id ∷ tried in
            let (w₂, r) = env.execute w₁ p in
            elim r [
              | ok response ↦ record { world = w₂; tried = now_tried; result = ok response }
              | err e ↦
                  let w₃ = env.cool_down w₂ p e in
                  let rest = retry_loop n w₃ now_tried (some e) in
                  if can_retry (env.is_done w₃) e n
                  then rest
                  else record { world = w₃; tried = now_tried; result = err e }
            ]
      ]

  unfoldable pub execute_with_retry : W → Served W R
  unfolding retry_loop
  execute_with_retry w = elim (env.list_selectable w) [
    | [] ↦ record { world = w; tried = []; result = err (not_connected c) }
    | p ∷ ps ↦ retry_loop (max_attempts (length (p ∷ ps))) w [] none
  ]
