-- ===== src/Examples/PipelineRuns.antt =====
-- The attempts of a request.
use aistudio_gemini_gateway.Base.{
  Bool-cases, inl, inr, sym, Result, ok, err, ◌+◌, ◌≤◌, ◌≡◌, refl, true, false, none, some, [], ◌∷◌,
  Text, bytes, text_eq, nat_eq, ◌==◌, if◌then◌else◌, lookup, arith, pos, to_lower, lower_byte,
  trim_space, trim_left, trim_right, is_space,
}
use aistudio_gemini_gateway.Service.Provider.{RuntimeProvider, generate_content}
use aistudio_gemini_gateway.Service.Errors.{
  GatewayError, new_error, upstream_http, with_retryable, with_cooldown,
}
use aistudio_gemini_gateway.Registry.State.{Registry, new, provider_map_key}
use aistudio_gemini_gateway.Cache
use aistudio_gemini_gateway.Selector.{new_round_robin}
use aistudio_gemini_gateway.Selector.Candidates.{effective_provider_state, normalize_id}
use aistudio_gemini_gateway.Selector.Eligible.{is_ready}
use aistudio_gemini_gateway.Pipeline.{
  RequestContext, TransportError, Executor, responded, nothing, failed, execute_once,
  apply_provider_cooldown,
}
use aistudio_gemini_gateway.Pipeline.Attempts.{Environment, execute_with_retry}
use aistudio_gemini_gateway.Pipeline.Attempts.Rotating.{Rotating, rotating}
use aistudio_gemini_gateway.Pipeline.Attempts.Reached.{execute_with_retry-IsServed}
use aistudio_gemini_gateway.Pipeline.Attempts.Wired.{World, wired}
use aistudio_gemini_gateway.Pipeline.Cooling.{apply_provider_cooldown-not_ready}
use aistudio_gemini_gateway.Examples.Samples.{studio, backup}

abbrev context : RequestContext
context = record { resolved_model = bytes "m"; action = generate_content; session_id = [] }

abbrev overloaded : TransportError
overloaded = record {
  shown = bytes "overloaded";
  gateway = none;
  canceled = false;
  deadline_exceeded = false;
  relay = some (record { message = bytes "quota"; status = pos 429 });
}

abbrev refused : GatewayError
refused =
    new_error upstream_http (bytes "down") none (with_retryable true ∷ with_cooldown true ∷ [])

-- Only the second provider serves; for the first one the relay answers that it is overloaded.
abbrev executor : Executor Text
executor = record {
  execute = λ p.
      if normalize_id p.id == bytes "b"
      then responded 200 0 [] (bytes "done")
      else failed overloaded;
  count_tokens = λ p. nothing;
}

abbrev both : World
both = record {
  registry = record new { providers = (bytes "a", studio) ∷ (bytes "b", backup) ∷ [] };
  affinity = record { cache = Cache.new (pos 100); fallback = new_round_robin (pos 0) };
}

abbrev gateway_loop : Environment World Text
gateway_loop =
    wired 30 10 (record { model = bytes "m"; session_id = bytes "s" })
      (execute_once (λ b. none) (λ n. []) executor context)

abbrev online : Registry
online = record new { providers = (bytes "a", studio) ∷ [] }

apply_provider_cooldown-not_ready_example :
    (q : RuntimeProvider) × (lookup
        (bytes "a")
        (apply_provider_cooldown 30 10 studio refused online).providers
      ≡ some q)
    × (q.cooldown_until ≡ 40)
    × (10 + 30 ≤ q.cooldown_until)
    × (10 + 0 ≤ q.cooldown_until)
    × (is_ready 39 [] q ≡ false)
unfolding lookup provider_map_key to_lower lower_byte trim_space trim_left trim_right is_space
apply_provider_cooldown-not_ready_example =
    apply_provider_cooldown-not_ready 30 10 39 studio studio refused online [] refl refl refl
      (omega arith)

abbrev taking_turns : Rotating
taking_turns = record { registry = both.registry; turns = new_round_robin (pos 0) }

-- An executor that serves by the second provider only.
abbrev second_serves : RuntimeProvider → Result GatewayError Text
second_serves p = if normalize_id p.id == bytes "b" then ok (bytes "done") else err refused

second_serves-ok :
    (q : RuntimeProvider) → normalize_id q.id ≡ bytes "b" → second_serves q ≡ ok (bytes "done")
second_serves-ok q same = rw same refl

second_serves-refused :
    (q : RuntimeProvider) (e : GatewayError) → second_serves q ≡ err e → e.retryable ≡ true
second_serves-refused q e = elim (Bool-cases (normalize_id q.id == bytes "b")) [
  | inl same ↦ rw same (λ h. cc)
  | inr other ↦ rw other (λ h. let k : refused ≡ e = cc in rw (sym k) refl)
]

execute_with_retry-IsServed_example :
    (response : Text) × ((execute_with_retry
        (rotating 30 10 (record { model = bytes "m"; session_id = [] }) second_serves)
        context
        taking_turns).result
      ≡ ok response)
unfolding normalize_id lookup effective_provider_state to_lower lower_byte trim_space trim_left
    trim_right is_space
execute_with_retry-IsServed_example =
    execute_with_retry-IsServed 30 10 (record { model = bytes "m"; session_id = [] }) second_serves
      context taking_turns backup (refl, (refl, tt)) refl refl
      (λ q same. (bytes "done", second_serves-ok q same)) second_serves-refused
