-- ===== src/Service/Errors.antt =====
-- service/errors.go: the error that all layers share, its codes, constructors and options.
use aistudio_gemini_gateway.Base.{
  ℕ, Bool, false, Option, none, some, List, [], ◌∷◌, ◌++◌, Text, bytes, trim_space, is_empty, ltb,
  if◌then◌else◌,
}
use aistudio_gemini_gateway.Service.Provider.{Action}

pub data ErrorCode : Type 0 where
  request access provider_unavailable provider_cooldown upstream_http : ErrorCode
  upstream_protocol stream_bootstrap config internal : ErrorCode

unfoldable pub default_status : ErrorCode → ℕ
default_status request = 400
default_status access = 401
default_status provider_unavailable = 503
default_status provider_cooldown = 429
default_status upstream_http = 502
default_status upstream_protocol = 502
default_status stream_bootstrap = 502
default_status config = 500
default_status internal = 500

unfoldable pub default_public_message : ErrorCode → Text
default_public_message request = bytes "请求参数不合法"
default_public_message access = bytes "认证失败"
default_public_message provider_unavailable = bytes "当前没有可用的执行通道"
default_public_message provider_cooldown = bytes "执行通道处于冷却中"
default_public_message upstream_http = bytes "上游服务返回错误"
default_public_message upstream_protocol = bytes "上游协议错误"
default_public_message stream_bootstrap = bytes "流式请求初始化失败"
default_public_message config = bytes "服务配置错误"
default_public_message internal = bytes "内部服务错误"

-- `cause` is the text of the wrapped error; the metadata, which only logs show, is left out.
pub record GatewayError : Type 0 where
  pub code : ErrorCode
  pub message : Text
  pub public : Text
  pub status_code : ℕ
  pub retryable : Bool
  pub cooldown : Bool
  pub retry_after : ℕ
  pub provider_id : Text
  pub model : Text
  pub action : Option Action
  pub raw_body : Text
  pub cause : Option Text

abbrev pub ErrorOption : Type 0
ErrorOption = GatewayError → GatewayError

abbrev pub with_public_message : Text → ErrorOption
with_public_message msg e = record e { public = trim_space msg }

abbrev pub with_status_code : ℕ → ErrorOption
with_status_code n e = if ltb 0 n then record e { status_code = n } else e

abbrev pub with_retryable : Bool → ErrorOption
with_retryable b e = record e { retryable = b }

abbrev pub with_cooldown : Bool → ErrorOption
with_cooldown b e = record e { cooldown = b }

abbrev pub with_retry_after : ℕ → ErrorOption
with_retry_after d e = if ltb 0 d then record e { retry_after = d } else e

abbrev pub with_provider_id : Text → ErrorOption
with_provider_id s e = record e { provider_id = trim_space s }

abbrev pub with_model : Text → ErrorOption
with_model s e = record e { model = trim_space s }

abbrev pub with_action : Action → ErrorOption
with_action a e = record e { action = some a }

abbrev pub with_raw_body : Text → ErrorOption
with_raw_body b e = if is_empty b then e else record e { raw_body = b }

abbrev pub apply_options : List ErrorOption → GatewayError → GatewayError
apply_options [] e = e
apply_options (o ∷ os) e = apply_options os (o e)

abbrev pub new_error : ErrorCode → Text → Option Text → List ErrorOption → GatewayError
new_error c msg why os = apply_options os (record {
  code = c;
  message = trim_space msg;
  public = default_public_message c;
  status_code = default_status c;
  retryable = false;
  cooldown = false;
  retry_after = 0;
  provider_id = [];
  model = [];
  action = none;
  raw_body = [];
  cause = why;
})

-- What `Error()` prints.
unfoldable pub error_text : GatewayError → Text
unfolding default_public_message
error_text e =
    let msg = trim_space e.message in
    let shown = if is_empty msg then default_public_message e.code else msg in
    elim e.cause [ none ↦ shown | some why ↦ shown ++ bytes ": " ++ why ]
