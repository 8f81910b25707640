-- ===== src/Thinking/Validate.antt =====
-- The check of a thinking configuration against what a model supports.
pub mod Supported
pub mod Bounds
pub mod Middle
use aistudio_gemini_gateway.Base.{
  ◌>>=◌, ◌>>◌, Bool, true, false, not, ◌&&◌, ◌||◌, Option, none, some, List, [], ◌∷◌, ◌++◌, Text,
  bytes, nat_eq, text_eq, ◌==◌, is_empty, trim_space, to_lower, if◌then◌else◌, ℤ, pos, negsuc,
  ltb_ℤ, ℤ_eq, decimal_ℤ, Result, ok, err, require,
}
use aistudio_gemini_gateway.Service.Errors.{GatewayError}
use aistudio_gemini_gateway.Thinking.{
  mode_budget, mode_level, mode_none, mode_auto, ThinkingLevel, level_none, level_auto,
  ThinkingConfig, ThinkingSupport, ModelInfo,
}
use aistudio_gemini_gateway.Thinking.Levels.{
  has_level, clamp_level, normalize_levels, convert_level_to_budget, convert_budget_to_level,
}
use aistudio_gemini_gateway.Thinking.Limits.{
  is_level_mode, is_budget_mode, is_none_mode, is_auto_mode, new_thinking_error, has_any,
  detect_model_capability, convert_auto_to_mid_range, clamp_budget, ModelCapability,
  capability_budget_only, capability_level_only,
}

-- strings.Join(levels, ", ")
unfoldable pub join : List Text → Text
join [] = []
join (level ∷ []) = level
join (level ∷ next ∷ levels) = level ++ (bytes ", " ++ join (next ∷ levels))

-- A configuration, and whether its budget stands for a level.
pub record Adapted : Type 0 where
  pub config : ThinkingConfig
  pub budget_derived_from_level : Bool

unfoldable pub level_to_budget : Option ModelInfo → ThinkingConfig → Result GatewayError Adapted
level_to_budget info config =
    if config.level == level_auto
    then ok record { config = config; budget_derived_from_level = false }
    else elim (convert_level_to_budget config.level) [
      | none ↦ err (new_thinking_error info (bytes "未知 thinking level: " ++ config.level))
      | some budget ↦ ok record {
        config = record { mode = mode_budget; budget = budget; level = [] };
        budget_derived_from_level = true;
      }
    ]

unfoldable pub budget_to_level :
    Option ModelInfo → ThinkingSupport → ThinkingConfig → Result GatewayError Adapted
budget_to_level info support config = elim (convert_budget_to_level config.budget) [
  | none ↦ err (
      new_thinking_error info
        (bytes "thinking budget " ++ decimal_ℤ config.budget ++ bytes " 无法转换为有效 level"))
  | some level ↦ ok record {
    config = record { mode = mode_level; budget = pos 0; level = clamp_level level support.levels };
    budget_derived_from_level = false;
  }
]

-- A model that knows only one of the two gets the other one translated.
unfoldable pub adapt :
    ModelCapability
    → Option ModelInfo
    → ThinkingSupport
    → ThinkingConfig
    → Result GatewayError Adapted
adapt capability_budget_only info support config =
    if is_level_mode config.mode
    then level_to_budget info config
    else ok record { config = config; budget_derived_from_level = false }
adapt capability_level_only info support config =
    if is_budget_mode config.mode
    then budget_to_level info support config
    else ok record { config = config; budget_derived_from_level = false }
adapt _ info support config = ok record { config = config; budget_derived_from_level = false }

unfoldable pub tidy_none : ThinkingConfig → ThinkingConfig
tidy_none config =
    if is_level_mode config.mode && config.level == level_none
    then record { mode = mode_none; budget = pos 0; level = [] }
    else config

unfoldable pub tidy_auto : ThinkingConfig → ThinkingConfig
tidy_auto config =
    if is_level_mode config.mode && config.level == level_auto
    then record { mode = mode_auto; budget = negsuc 0; level = [] }
    else config

unfoldable pub tidy_zero : ThinkingConfig → ThinkingConfig
tidy_zero config =
    if is_budget_mode config.mode && config.budget == pos 0
    then record { mode = mode_none; budget = config.budget; level = [] }
    else config

-- Levels and budgets that mean "none" or "auto" become these modes.
unfoldable pub tidy : ThinkingConfig → ThinkingConfig
tidy config = tidy_zero (tidy_auto (tidy_none config))

abbrev pub is_out_of_range : ThinkingSupport → ℤ → Bool
is_out_of_range support budget =
    not (support.min == pos 0 && support.max == pos 0)
    && (ltb_ℤ budget support.min
        || ltb_ℤ support.max budget
        || budget == pos 0 && not support.zero_allowed)

unfoldable pub check_budget :
    Bool → Option ModelInfo → ThinkingSupport → Adapted → Result GatewayError (Unit {0})
check_budget strict_budget info support a =
    require
      (not (
        strict_budget
        && is_budget_mode a.config.mode
        && not a.budget_derived_from_level
        && is_out_of_range support a.config.budget))
      (new_thinking_error info (
        bytes "thinking budget "
        ++ decimal_ℤ a.config.budget
        ++ bytes " 超出允许范围 ["
        ++ decimal_ℤ support.min
        ++ bytes ", "
        ++ decimal_ℤ support.max
        ++ bytes "]"))

unfoldable pub resolve_auto : ThinkingSupport → ThinkingConfig → ThinkingConfig
resolve_auto support config =
    if is_auto_mode config.mode && not support.dynamic_allowed
    then convert_auto_to_mid_range config support
    else config

unfoldable pub clamp_config : ThinkingSupport → ThinkingConfig → ThinkingConfig
clamp_config support config =
    if is_level_mode config.mode
    then config
    else record config { budget = clamp_budget config.budget support }

-- A model with levels that is not to think gets its first level.
unfoldable pub lowest_level : List Text → ThinkingConfig → ThinkingConfig
lowest_level [] config = config
lowest_level (first ∷ _) config =
    if is_none_mode config.mode && is_empty config.level
    then record config { level = to_lower (trim_space first) }
    else config

unfoldable pub finish : ThinkingSupport → ThinkingConfig → ThinkingConfig
finish support config =
    lowest_level support.levels (clamp_config support (resolve_auto support config))

abbrev pub thinking_of : Option ModelInfo → Option ThinkingSupport
thinking_of none = none
thinking_of (some info) = info.thinking

-- `quoted` is fmt's verb %q.
module _ (quoted : Text → Text) where
  unfoldable pub check_level :
      Bool → Option ModelInfo → List Text → ThinkingConfig → Result GatewayError ThinkingConfig
  check_level allow_clamp info levels config =
      if has_any levels && is_level_mode config.mode && not (has_level levels config.level)
      then (let level : ThinkingLevel =
            if allow_clamp then clamp_level config.level levels else config.level in
          if has_level levels level
          then ok record config { level = level }
          else err (
              new_thinking_error info (
                bytes "thinking level "
                ++ quoted level
                ++ bytes " 不被该模型支持，允许值："
                ++ join (normalize_levels levels))))
      else ok config

  unfoldable pub validate_supported :
      Option ModelInfo
      → ThinkingSupport
      → ThinkingConfig
      → Bool
      → Bool
      → Result GatewayError ThinkingConfig
  validate_supported info support config strict_validation from_suffix = do
    adapted ← adapt (detect_model_capability info) info support config
    checked ←
        check_level (not strict_validation || from_suffix) info support.levels (tidy adapted.config)
    check_budget (strict_validation && not from_suffix) info support
        (record adapted { config = checked })
    ok (finish support checked)

  unfoldable pub validate_for :
      Option ModelInfo
      → Option ThinkingSupport
      → ThinkingConfig
      → Bool
      → Bool
      → Result GatewayError ThinkingConfig
  validate_for info none config strict_validation from_suffix =
      if is_none_mode config.mode
      then ok config
      else err (new_thinking_error info (bytes "该模型不支持 thinking"))
  validate_for info (some support) config strict_validation from_suffix =
      validate_supported info support config strict_validation from_suffix

  unfoldable pub validate_config :
      ThinkingConfig → Option ModelInfo → Bool → Bool → Result GatewayError ThinkingConfig
  validate_config config info strict_validation from_suffix =
      validate_for info (thinking_of info) config strict_validation from_suffix
