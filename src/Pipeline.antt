-- ===== src/Pipeline.antt =====
-- internal/pipeline/pipeline.go: how a request is tried on one provider after another. The executor,
-- the JSON library and the parser of `Retry-After` dates are parameters; their results are arguments.
pub mod Cooling
pub mod Attempts
pub mod StreamAdapter
pub mod Prepare
use aistudio_gemini_gateway.Base.{
  ℕ, zero, suc, ◌+◌, ◌-◌, ◌*◌, ◌^◌, Bool, true, false, not, ◌&&◌, ◌||◌, Option, none, some, List,
  [], ◌∷◌, ◌++◌, Text, ℤ, pos, negsuc, nat_eq, text_eq, bytes, trim_space, to_lower, is_empty,
  contains, has_prefix, length, take, ltb, leb, Result, ok, err, if◌then◌else◌, ◌==◌,
}
use aistudio_gemini_gateway.Service.Provider.{
  Action, generate_content, stream_generate_content, count_tokens, RuntimeProvider,
}
use aistudio_gemini_gateway.Relay.Response.{RelayError}
use aistudio_gemini_gateway.Service.Errors.{
  ErrorCode, GatewayError, new_error, error_text, internal, request, upstream_protocol,
  upstream_http, stream_bootstrap, provider_unavailable, with_model, with_action, with_provider_id,
  with_retryable, with_cooldown, with_retry_after, with_public_message, with_status_code,
  with_raw_body,
}
use aistudio_gemini_gateway.Registry.State.{Registry}
use aistudio_gemini_gateway.Registry.Transitions.{record_provider_error, set_cooldown}

-- The parts of the request's context that errors carry.
pub record RequestContext : Type 0 where
  pub resolved_model : Text
  pub action : Action
  pub session_id : Text

-- An error of the executor: its text, and what `errors.As` and `errors.Is` find in its chain.
pub record TransportError : Type 0 where
  pub shown : Text
  pub gateway : Option GatewayError
  pub canceled : Bool
  pub deadline_exceeded : Bool
  pub relay : Option RelayError

abbrev pub hints : List Text
hints =
    bytes "rate limit"
    ∷ bytes "quota"
    ∷ bytes "resource exhausted"
    ∷ bytes "temporarily unavailable"
    ∷ bytes "temporary unavailable"
    ∷ bytes "too many requests"
    ∷ bytes "try again later"
    ∷ []

abbrev pub contains_any : Text → List Text → Bool
contains_any message [] = false
contains_any message (hint ∷ rest) = contains message hint || contains_any message rest

unfoldable pub contains_temporary_hint : Text → Bool
contains_temporary_hint message = contains_any (to_lower (trim_space message)) hints

abbrev pub first_non_blank : List Text → Text
first_non_blank [] = []
first_non_blank (v ∷ vs) = if is_empty (trim_space v) then first_non_blank vs else trim_space v

-- `fields` is what the JSON library finds at `error.message`, `message` and `error`, if the body is JSON.
unfoldable pub extract_error_message : Option (List Text) → Text → Text
extract_error_message fields body =
    let found : Text = elim fields [ none ↦ [] | some values ↦ first_non_blank values ] in
    if is_empty body then [] else if is_empty found then take 512 (trim_space body) else found

-- The codes that are the provider's own trouble.
abbrev pub is_provider_fault : ℕ → Bool
is_provider_fault status =
    status == 401
    || status == 403
    || status == 429
    || status == 500
    || status == 502
    || status == 503
    || status == 504

abbrev pub public_prefix : ℕ → Text
public_prefix status =
    if status == 400
    then bytes "上游请求参数错误: "
    else if status == 401
    then bytes "上游认证失败: "
    else if status == 403
    then bytes "上游权限不足: "
    else if status == 404
    then bytes "上游模型不存在: "
    else if status == 429
    then bytes "上游限流或配额不足: "
    else if status == 500
    then bytes "上游内部错误: "
    else if status == 502
    then bytes "上游网关错误: "
    else if status == 503
    then bytes "上游服务暂时不可用: "
    else if status == 504
    then bytes "上游网关超时: "
    else []

abbrev pub labels : RequestContext → RuntimeProvider → List (GatewayError → GatewayError)
labels c p =
    with_model c.resolved_model ∷ with_action c.action ∷ with_provider_id (trim_space p.id) ∷ []

abbrev pub transport_failure : Text → RequestContext → RuntimeProvider → GatewayError
transport_failure why c p =
    let message = trim_space why in
    new_error upstream_protocol
      (if is_empty message then bytes "upstream transport error" else message) (some why)
      (labels c p
        ++ with_retryable true ∷ with_cooldown true ∷ with_public_message (bytes "上游连接失败") ∷ [])

abbrev pub deadline_failure : Text → RequestContext → RuntimeProvider → GatewayError
deadline_failure why c p =
    let first_packet = contains (to_lower why) (bytes "bootstrap timeout") in
    new_error upstream_protocol
      (if first_packet
        then bytes "bootstrap timeout waiting for first upstream packet"
        else bytes "request deadline exceeded")
      (some why)
      (labels c p
        ++ with_retryable true
          ∷ with_cooldown true
          ∷ with_public_message (if first_packet then bytes "启动首包超时" else bytes "上游请求超时")
          ∷ [])

-- The message and the status of a relay error with a positive status.
abbrev pub positive_status : Option RelayError → Option (Text × ℕ)
positive_status none = none
positive_status (some e) = status_above e.status
  where
    status_above : ℤ → Option (Text × ℕ)
    status_above (pos zero) = none
    status_above (pos (suc n)) = some (e.message, suc n)
    status_above (negsuc _) = none

module _ (json_fields : Text → Option (List Text)) (status_text : ℕ → Text) where
  abbrev pub error_message : ℕ → Text → Text
  error_message status body =
      let extracted = extract_error_message (json_fields body) body in
      if not (is_empty extracted)
      then extracted
      else if is_empty (status_text status)
      then bytes "upstream http error"
      else status_text status

  -- `retry_after` is what the header `Retry-After` says, 0 for nothing.
  unfoldable pub classify_http_status :
      ℕ → ℕ → Text → RequestContext → RuntimeProvider → GatewayError
  unfolding contains_temporary_hint extract_error_message
  classify_http_status status retry_after body c p =
      let message = error_message status body in
      new_error upstream_http message none (
        with_status_code status
          ∷ with_retryable true
          ∷ with_cooldown (is_provider_fault status || contains_temporary_hint (to_lower message))
          ∷ with_retry_after retry_after
          ∷ labels c p
        ++ with_public_message (public_prefix status ++ message) ∷ with_raw_body body ∷ [])

  abbrev pub unclassified : TransportError → RequestContext → RuntimeProvider → GatewayError
  unclassified e c p = elim (positive_status e.relay) [
    | some found ↦ classify_http_status found.1 0 found.0 c p
    | none ↦ transport_failure e.shown c p
  ]

  unfoldable pub classify_transport_error :
      Option TransportError → RequestContext → RuntimeProvider → GatewayError
  unfolding classify_http_status
  classify_transport_error none c p =
      new_error internal (bytes "unknown transport error") none (labels c p)
  classify_transport_error (some e) c p = elim e.gateway [
    | some own ↦ own
    | none ↦
        if e.canceled
        then new_error internal (bytes "request canceled") (some e.shown)
            (labels c p ++ with_public_message (bytes "请求已取消") ∷ [])
        else if e.deadline_exceeded
        then deadline_failure e.shown c p
        else unclassified e c p
  ]

-- What the executor gives: a response, nothing, or an error.
pub data Outcome (R : Type 0) : Type 0 where
  responded : ℕ → ℕ → Text → R → Outcome R
  nothing : Outcome R
  failed : TransportError → Outcome R

abbrev pub is_success : ℕ → Bool
is_success status = leb 200 status && ltb status 300

-- What `executeOnce` makes of what the executor gave.
unfoldable pub result_of :
    (Text → Option (List Text))
    → (ℕ → Text)
    → {R : Type 0} → RequestContext
    → RuntimeProvider
    → Outcome R
    → Result GatewayError R
unfolding classify_http_status classify_transport_error
result_of json_fields status_text c p (failed e) =
    err (classify_transport_error json_fields status_text (some e) c p)
result_of json_fields status_text c p nothing = err (
    new_error upstream_protocol (bytes "executor returned nil upstream response") none
      (labels c p ++ with_retryable true ∷ with_cooldown true ∷ []))
result_of json_fields status_text c p (responded status retry_after body r) =
    if is_success status
    then ok r
    else err (classify_http_status json_fields status_text status retry_after body c p)

-- The executor's methods `Execute` and `CountTokens`, on the prepared request.
pub record Executor (R : Type 0) : Type 0 where
  pub execute : RuntimeProvider → Outcome R
  pub count_tokens : RuntimeProvider → Outcome R

unfoldable pub execute_once :
    (Text → Option (List Text))
    → (ℕ → Text)
    → {R : Type 0} → Executor R
    → RequestContext
    → RuntimeProvider
    → Result GatewayError R
unfolding result_of
execute_once json_fields status_text {R} executor c p = by_action c.action
  where
    by_action : Action → Result GatewayError R
    by_action generate_content = result_of json_fields status_text c p (executor.execute p)
    by_action count_tokens = result_of json_fields status_text c p (executor.count_tokens p)
    by_action stream_generate_content = err (
        new_error request (bytes "unsupported non-stream action") none
          (with_model c.resolved_model ∷ with_action c.action ∷ []))

-- Whether another provider may be tried: `left` attempts are left after this one.
unfoldable pub can_retry : Bool → GatewayError → ℕ → Bool
can_retry done e zero = false
can_retry done e (suc _) = not done && e.retryable

unfoldable pub max_attempts : ℕ → ℕ
max_attempts zero = 1
max_attempts (suc n) = suc n

-- In nanoseconds.
abbrev pub default_cooldown : ℕ
default_cooldown = 300 * 10 ^ 9

abbrev pub cooldown_for : ℕ → ℕ → ℕ
cooldown_for configured retry_after =
    let longest = if ltb configured retry_after then retry_after else configured in
    if longest == 0 then default_cooldown else longest

abbrev pub shown_message : GatewayError → Text
shown_message e = if is_empty (trim_space e.public) then error_text e else trim_space e.public

-- The failure is noted, and the provider cools down if the error says so.
unfoldable pub apply_provider_cooldown :
    ℕ → ℕ → RuntimeProvider → GatewayError → Registry → Registry
apply_provider_cooldown configured now p e r =
    let noted = record_provider_error now p.id (shown_message e) r in
    if e.cooldown
    then (set_cooldown now p.id (now + cooldown_for configured e.retry_after)
        (bytes "provider cooled down: " ++ shown_message e) noted).0
    else noted
