-- ===== src/Thinking/Limits.antt =====
-- The modes of thinking, what a model is capable of, and budgets within its limits.
use aistudio_gemini_gateway.Base.{
  Bool, true, false, not, ◌&&◌, ◌||◌, Option, none, some, List, [], ◌∷◌, Text, bytes, nat_eq,
  text_eq, ◌==◌, is_empty, trim_space, if◌then◌else◌, ℤ, pos, negsuc, ltb_ℤ, ℤ_eq, ◌+ℤ◌, wrap_int64,
  half,
}
use aistudio_gemini_gateway.Service.Errors.{
  GatewayError, new_error, request, with_public_message, with_model,
}
use aistudio_gemini_gateway.Thinking.{
  ThinkingMode, mode_budget, mode_level, mode_none, mode_auto, level_medium, ThinkingConfig,
  ThinkingSupport, ModelInfo,
}

abbrev pub is_level_mode : ThinkingMode → Bool
is_level_mode mode_level = true
is_level_mode _ = false

abbrev pub is_budget_mode : ThinkingMode → Bool
is_budget_mode mode_budget = true
is_budget_mode _ = false

abbrev pub is_none_mode : ThinkingMode → Bool
is_none_mode mode_none = true
is_none_mode _ = false

abbrev pub is_auto_mode : ThinkingMode → Bool
is_auto_mode mode_auto = true
is_auto_mode _ = false

unfoldable pub first_given : List Text → Text
first_given [] = []
first_given (value ∷ values) =
    if is_empty (trim_space value) then first_given values else trim_space value

abbrev pub model_of : Option ModelInfo → Text
model_of none = bytes "unknown"
model_of (some info) = first_given (info.base_name ∷ info.name ∷ [])

unfoldable pub new_thinking_error : Option ModelInfo → Text → GatewayError
new_thinking_error info message =
    new_error request message none (with_public_message message ∷ with_model (model_of info) ∷ [])

pub data ModelCapability : Type 0 where
  capability_unknown capability_none capability_budget_only capability_level_only : ModelCapability
  capability_hybrid : ModelCapability

unfoldable pub capability_of : ThinkingSupport → ModelCapability
capability_of support =
    let has_budget = ltb_ℤ (pos 0) support.min || ltb_ℤ (pos 0) support.max in
    let has_levels = not (no_levels support.levels) in
    if has_budget && has_levels
    then capability_hybrid
    else if has_budget
    then capability_budget_only
    else if has_levels
    then capability_level_only
    else capability_none
  where
    no_levels : List Text → Bool
    no_levels [] = true
    no_levels (_ ∷ _) = false

abbrev pub has_any : List Text → Bool
has_any [] = false
has_any (_ ∷ _) = true

abbrev pub capability_for : Option ThinkingSupport → ModelCapability
capability_for none = capability_none
capability_for (some support) = capability_of support

unfoldable pub detect_model_capability : Option ModelInfo → ModelCapability
detect_model_capability none = capability_unknown
detect_model_capability (some info) = capability_for info.thinking

-- int64: the sum wraps around.
unfoldable pub middle : ThinkingSupport → ℤ
middle support = half (wrap_int64 (support.min +ℤ support.max))

unfoldable pub convert_auto_to_mid_range : ThinkingConfig → ThinkingSupport → ThinkingConfig
convert_auto_to_mid_range config support =
    if has_any support.levels && support.min == pos 0 && support.max == pos 0
    then record { mode = mode_level; budget = pos 0; level = level_medium }
    else if not (ltb_ℤ (pos 0) (middle support)) && support.zero_allowed
    then record config { mode = mode_none; budget = pos 0 }
    else if not (ltb_ℤ (pos 0) (middle support))
    then record config { mode = mode_budget; budget = support.min }
    else record config { mode = mode_budget; budget = middle support }

unfoldable pub clamp_budget : ℤ → ThinkingSupport → ℤ
clamp_budget value support =
    if value == negsuc 0
    then value
    else if value == pos 0 && not support.zero_allowed
    then (if ltb_ℤ (pos 0) support.min then support.min else value)
    else if support.min == pos 0 && support.max == pos 0
    then value
    else if ltb_ℤ value support.min
    then (if value == pos 0 && support.zero_allowed then pos 0 else support.min)
    else if ltb_ℤ support.max value
    then support.max
    else value
