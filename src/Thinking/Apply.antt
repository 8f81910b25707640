-- ===== src/Thinking/Apply.antt =====
-- thinking.Apply: the configuration of the suffix or the body, checked and written into the body.
pub mod Suffixed
use aistudio_gemini_gateway.Base.{
  Bool, true, false, not, ◌&&◌, ◌||◌, Option, none, some, [], ◌∷◌, Text, bytes, text_eq, is_empty,
  trim_space, equal_fold, if◌then◌else◌, ℤ_eq, Result, ok, err,
}
use aistudio_gemini_gateway.Service.Errors.{
  GatewayError, new_error, request, with_public_message, with_model,
}
use aistudio_gemini_gateway.Thinking.{ThinkingConfig, ModelInfo}
use aistudio_gemini_gateway.Thinking.Suffix.{parse_suffix, parse_suffix_to_config}
use aistudio_gemini_gateway.Thinking.Validate.{validate_config}
use aistudio_gemini_gateway.Thinking.Body.{
  has_thinking_config, extract_config, strip_thinking_config, apply_gemini, Json,
}

-- config.GeminiThinkingConfig
pub record GeminiThinkingConfig : Type 0 where
  pub mode : Text
  pub strict_validation : Bool

module _ {Value : Type 0} (json : Json Value) where
  unfoldable pub request_error : Text → Text → Text → GatewayError
  request_error message shown model =
      new_error request message none
        (with_public_message shown ∷ with_model (trim_space model) ∷ [])

  -- The configuration of the suffix, or else of the body.
  unfoldable pub requested : Text → Text → Result GatewayError ThinkingConfig
  requested body model =
      if (parse_suffix model).has_suffix
      then parse_suffix_to_config (parse_suffix model).raw_suffix (parse_suffix model).model_name
      else ok (extract_config json body)

  -- The body, and an error if there is one.
  abbrev pub Applied : Type 0
  Applied = Text × Option GatewayError

  abbrev pub write_validated : Text → ModelInfo → Result GatewayError ThinkingConfig → Applied
  write_validated body info (err e) = (body, some e)
  write_validated body info (ok validated) = (apply_gemini json body validated info, none)

  abbrev pub is_some {ℓ} : {A : Type ℓ} → Option A → Bool
  is_some none = false
  is_some (some _) = true

  unfoldable pub apply_config :
      (Text → Text) → Text → Text → Option ModelInfo → Bool → ThinkingConfig → Applied
  apply_config quoted body model info strict_validation config =
      if not (has_thinking_config config)
      then (body, none)
      else if is_empty body || not (json.is_valid body)
      then (
        body,
        some (request_error (bytes "thinking 处理要求请求体必须是合法 JSON") (bytes "请求 JSON 非法") model),
      )
      else elim info [
        | none ↦ (
          body,
          some
              (request_error (bytes "未知模型不允许使用 thinking 配置") (bytes "未知模型不允许使用 thinking 配置") model),
        )
        | some i ↦
            if is_some i.thinking && i.supports_thinking
            then write_validated body i (
                validate_config quoted config (some i) strict_validation
                  (parse_suffix model).has_suffix)
            else (strip_thinking_config json body, none)
      ]

  abbrev pub apply_requested :
      (Text → Text)
      → Text
      → Text
      → Option ModelInfo
      → Bool
      → Result GatewayError ThinkingConfig
      → Applied
  apply_requested quoted body model info strict_validation (err e) = (body, some e)
  apply_requested quoted body model info strict_validation (ok config) =
      apply_config quoted body model info strict_validation config

  unfoldable pub apply :
      (Text → Text) → Text → Text → Option ModelInfo → GeminiThinkingConfig → Applied
  apply quoted body model info cfg =
      if equal_fold (trim_space cfg.mode) (bytes "off")
      then (body, none)
      else apply_requested quoted body model info cfg.strict_validation (requested body model)
