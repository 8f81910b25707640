-- ===== src/Pipeline/Prepare.antt =====
-- internal/pipeline/pipeline.go: the checks of a request before it is tried on providers. The resolver of
-- models, the extractor of sessions and the drawing of ids are parameters.
pub mod Checked
use aistudio_gemini_gateway.Base.{
  ℕ, Bool, true, false, not, ◌&&◌, ◌||◌, Option, none, some, List, [], ◌∷◌, Text, bytes, text_eq,
  nat_eq, ◌==◌, is_empty, trim_space, to_lower, has_prefix, drop, if◌then◌else◌, Result, ok, err,
}
use aistudio_gemini_gateway.Service.Provider.{
  Action, generate_content, stream_generate_content, count_tokens,
}
use aistudio_gemini_gateway.Service.Errors.{
  GatewayError, ErrorOption, new_error, request, internal, with_public_message, with_status_code,
  with_model, with_action,
}
use aistudio_gemini_gateway.Thinking.Suffix.{split_last, ends_with}

abbrev pub same_action : Action → Action → Bool
same_action generate_content generate_content = true
same_action stream_generate_content stream_generate_content = true
same_action count_tokens count_tokens = true
same_action _ _ = false

-- service.ModelInfo, as far as the checks read it.
pub record StaticModel : Type 0 where
  pub name : Text
  pub base_name : Text
  pub supported_actions : List Action

abbrev pub is_listed_action : List Action → Action → Bool
is_listed_action [] action = false
is_listed_action (item ∷ items) action = same_action item action || is_listed_action items action

unfoldable pub model_supports_action : StaticModel → Action → Bool
model_supports_action info action =
    no_actions info.supported_actions || is_listed_action info.supported_actions action
  where
    no_actions : List Action → Bool
    no_actions [] = true
    no_actions (_ ∷ _) = false

abbrev pub before_suffix : Option (Text × Text) → Text → Text
before_suffix none model = model
before_suffix (some (before, after)) model = if is_empty before then model else before

unfoldable pub without_suffix : Text → Text
without_suffix model =
    if ends_with b')' model then before_suffix (split_last b'(' model) model else model

unfoldable pub without_prefix : Text → Text
without_prefix model = if has_prefix (to_lower model) (bytes "models/") then drop 7 model else model

unfoldable pub normalize_model_name : Text → Text
normalize_model_name model =
    if is_empty (trim_space model)
    then []
    else trim_space (without_suffix (without_prefix (trim_space model)))

unfoldable pub first_non_empty_name : List Text → Text
first_non_empty_name [] = []
first_non_empty_name (value ∷ values) =
    if is_empty (trim_space value) then first_non_empty_name values else trim_space value

-- What the resolver of models knows a name as.
abbrev pub Resolver : Type 0
Resolver = Text → Option (Text × StaticModel)

abbrev pub or_normalized :
    Resolver → Text → Option (Text × StaticModel) → Option (Text × StaticModel)
or_normalized resolve model (some found) = some found
or_normalized resolve model none =
    let normalized = normalize_model_name model in
    if not (is_empty normalized) && not (normalized == trim_space model)
    then resolve normalized
    else none

abbrev pub canonical_of : Text → Option (Text × StaticModel) → Option (Text × StaticModel)
canonical_of model none = none
canonical_of model (some (resolved, info)) =
    let canonical =
      normalize_model_name
        (first_non_empty_name (resolved ∷ info.base_name ∷ info.name ∷ model ∷ [])) in
    if is_empty canonical then none else some (canonical, info)

unfoldable pub resolve_static_model : Resolver → Text → Option (Text × StaticModel)
resolve_static_model resolve model =
    canonical_of model (or_normalized resolve model (resolve model))

pub record GatewayRequest : Type 0 where
  pub request_id : Text
  pub model : Text
  pub action : Option Action
  pub alt : Text
  pub session_id : Text
  pub requested_at : ℕ

pub record PreparedContext : Type 0 where
  pub request_id : Text
  pub requested_model : Text
  pub normalized_requested_model : Text
  pub resolved_model : Text
  pub action : Action
  pub alt : Text
  pub streaming : Bool
  pub session_id : Text
  pub requested_at : ℕ
  pub model_info : StaticModel

abbrev pub is_streaming : Action → Bool
is_streaming stream_generate_content = true
is_streaming _ = false

abbrev pub is_other : Option Action → Action → Bool
is_other none action = false
is_other (some given) action = not (same_action given action)

unfoldable pub session_for : Option (GatewayRequest → Text) → GatewayRequest → Text
session_for none req = trim_space req.session_id
session_for (some extract) req =
    if is_empty (trim_space req.session_id)
    then trim_space (extract req)
    else trim_space req.session_id

abbrev pub refuse : Text → List ErrorOption → Result GatewayError PreparedContext
refuse message options =
    err (new_error request message none (with_public_message message ∷ options))

abbrev pub prepared :
    Text
    → ℕ
    → Option (GatewayRequest → Text)
    → GatewayRequest
    → Action
    → Text
    → StaticModel
    → PreparedContext
prepared drawn_id now extractor req action resolved info = record {
  request_id = if is_empty (trim_space req.request_id) then drawn_id else trim_space req.request_id;
  requested_model = trim_space req.model;
  normalized_requested_model = normalize_model_name (trim_space req.model);
  resolved_model = resolved;
  action = action;
  alt = trim_space req.alt;
  streaming = is_streaming action;
  session_id = session_for extractor req;
  requested_at = if req.requested_at == 0 then now else req.requested_at;
  model_info = info;
}

abbrev pub with_resolved :
    Text
    → ℕ
    → Option (GatewayRequest → Text)
    → GatewayRequest
    → Action
    → Option (Text × StaticModel)
    → Result GatewayError PreparedContext
with_resolved drawn_id now extractor req action none = err (
    new_error request (bytes "model not found") none (
      with_status_code 404
      ∷ with_public_message (bytes "请求的模型不存在")
      ∷ with_model (trim_space req.model)
      ∷ with_action action
      ∷ []))
with_resolved drawn_id now extractor req action (some (resolved, info)) =
    if model_supports_action info action
    then ok (prepared drawn_id now extractor req action resolved info)
    else err (
        new_error request (bytes "模型不支持当前操作") none (
          with_status_code 400
          ∷ with_public_message (bytes "模型不支持当前操作")
          ∷ with_model resolved
          ∷ with_action action
          ∷ []))

abbrev pub resolve_with :
    Option Resolver
    → Text
    → ℕ
    → Option (GatewayRequest → Text)
    → GatewayRequest
    → Action
    → Result GatewayError PreparedContext
resolve_with none drawn_id now extractor req action = err (
    new_error internal (bytes "model resolver is not configured") none
      (with_model (trim_space req.model) ∷ with_action action ∷ []))
resolve_with (some resolve) drawn_id now extractor req action =
    with_resolved drawn_id now extractor req action
      (resolve_static_model resolve (trim_space req.model))

-- The id of the context, the clock, the resolver and the extractor, which may be nil, and the request.
unfoldable pub prepare_base_request :
    Text
    → ℕ
    → Option Resolver
    → Option (GatewayRequest → Text)
    → Option GatewayRequest
    → Action
    → Result GatewayError PreparedContext
prepare_base_request drawn_id now resolver extractor none action =
    refuse (bytes "请求不能为空") (with_action action ∷ [])
prepare_base_request drawn_id now resolver extractor (some req) action =
    if is_other req.action action
    then refuse (bytes "请求 action 与调用方法不匹配") (with_action action ∷ [])
    else if is_empty (trim_space req.model)
    then refuse (bytes "模型名称不能为空") (with_action action ∷ [])
    else if is_empty (normalize_model_name (trim_space req.model))
    then refuse (bytes "模型名称非法") (with_model (trim_space req.model) ∷ with_action action ∷ [])
    else resolve_with resolver drawn_id now extractor req action
