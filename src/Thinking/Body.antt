-- ===== src/Thinking/Body.antt =====
-- Thinking in the JSON body of a request: reading, writing and removing it. The third-party packages
-- gjson and sjson are a parameter.
pub mod Fields
pub mod WrittenBack
use aistudio_gemini_gateway.Base.{
  Bool, true, false, not, ◌&&◌, ◌||◌, Option, none, some, [], Text, bytes, text_eq, ◌==◌, is_empty,
  trim_space, to_lower, if◌then◌else◌, ℤ, pos, negsuc, ltb_ℤ, ℤ_eq,
}
use aistudio_gemini_gateway.Thinking.{
  mode_budget, mode_level, mode_none, mode_auto, ThinkingConfig, no_config, ThinkingSupport,
  ModelInfo,
}
use aistudio_gemini_gateway.Thinking.Levels.{thinking_level_to_api_enum}
use aistudio_gemini_gateway.Thinking.Limits.{
  is_level_mode, is_budget_mode, is_none_mode, is_auto_mode, has_any,
}

-- The fields of a thinking configuration, in both spellings.
pub data Field : Type 0 where
  thinking_level thinking_level_snake thinking_budget thinking_budget_snake : Field
  include_thoughts include_thoughts_snake : Field

abbrev pub section_path : Text
section_path = bytes "generationConfig.thinkingConfig"

unfoldable pub path : Field → Text
path thinking_level = bytes "generationConfig.thinkingConfig.thinkingLevel"
path thinking_level_snake = bytes "generationConfig.thinkingConfig.thinking_level"
path thinking_budget = bytes "generationConfig.thinkingConfig.thinkingBudget"
path thinking_budget_snake = bytes "generationConfig.thinkingConfig.thinking_budget"
path include_thoughts = bytes "generationConfig.thinkingConfig.includeThoughts"
path include_thoughts_snake = bytes "generationConfig.thinkingConfig.include_thoughts"

-- gjson and sjson over bodies, with their values. An edit that fails gives what the package returns
-- next to its error, which the code ignores.
pub record Json (Value : Type 0) : Type 0 where
  pub is_valid : Text → Bool
  pub get : Text → Text → Option Value
  pub set : Text → Text → Value → Text
  pub remove : Text → Text → Text
  pub as_string : Value → Text
  pub as_int : Value → ℤ
  pub as_bool : Value → Bool
  pub of_string : Text → Value
  pub of_int : ℤ → Value
  pub of_bool : Bool → Value

abbrev pub first_of {ℓ} : {A : Type ℓ} → Option A → Option A → Option A
first_of none other = other
first_of (some a) other = some a

-- The configuration that a level in a body stands for.
unfoldable pub config_of_level : Text → ThinkingConfig
config_of_level value =
    if value == bytes "none"
    then record { mode = mode_none; budget = pos 0; level = [] }
    else if value == bytes "auto"
    then record { mode = mode_auto; budget = negsuc 0; level = [] }
    else if is_empty value
    then no_config
    else record { mode = mode_level; budget = pos 0; level = value }

unfoldable pub config_of_budget : ℤ → ThinkingConfig
config_of_budget value =
    if value == pos 0
    then record { mode = mode_none; budget = pos 0; level = [] }
    else if value == negsuc 0
    then record { mode = mode_auto; budget = negsuc 0; level = [] }
    else record { mode = mode_budget; budget = value; level = [] }

unfoldable pub has_thinking_config : ThinkingConfig → Bool
has_thinking_config config =
    not (is_budget_mode config.mode) || not (config.budget == pos 0) || not (is_empty config.level)

module _ {Value : Type 0} (json : Json Value) where
  unfoldable pub extract_fields : Option Value → Option Value → ThinkingConfig
  extract_fields (some level) budget =
      config_of_level (to_lower (trim_space (json.as_string level)))
  extract_fields none (some budget) = config_of_budget (json.as_int budget)
  extract_fields none none = no_config

  unfoldable pub extract_config : Text → ThinkingConfig
  extract_config body =
      if is_empty body || not (json.is_valid body)
      then no_config
      else extract_fields
          (first_of (json.get body (path thinking_level))
            (json.get body (path thinking_level_snake)))
          (first_of (json.get body (path thinking_budget))
            (json.get body (path thinking_budget_snake)))

  unfoldable pub strip_thinking_config : Text → Text
  strip_thinking_config body =
      if is_empty body || not (json.is_valid body) then body else json.remove body section_path

  unfoldable pub extract_include_thoughts_with_presence : Text → Option Bool
  extract_include_thoughts_with_presence body =
      if is_empty body || not (json.is_valid body)
      then none
      else presence (
          first_of (json.get body (path include_thoughts))
            (json.get body (path include_thoughts_snake)))
    where
      presence : Option Value → Option Bool
      presence none = none
      presence (some item) = some (json.as_bool item)

  abbrev pub or_default : Option Bool → Bool → Bool
  or_default none value = value
  or_default (some b) value = b

  unfoldable pub extract_include_thoughts : Text → Bool → Bool
  extract_include_thoughts body default_value =
      or_default (extract_include_thoughts_with_presence body) default_value

  unfoldable pub apply_level_format : Text → ThinkingConfig → Text
  apply_level_format body config =
      let cleared =
        json.remove
          (json.remove
            (json.remove (json.remove body (path thinking_budget)) (path thinking_budget_snake))
            (path thinking_level_snake))
          (path include_thoughts_snake) in
      let level = json.of_string (thinking_level_to_api_enum config.level) in
      let silent = json.set cleared (path include_thoughts) (json.of_bool false) in
      if is_none_mode config.mode
      then (if is_empty config.level then silent else json.set silent (path thinking_level) level)
      else if is_level_mode config.mode
      then json.set (json.set cleared (path thinking_level) level) (path include_thoughts)
          (json.of_bool (extract_include_thoughts body true))
      else cleared

  unfoldable pub apply_budget_format : Text → ThinkingConfig → Text
  apply_budget_format body config =
      let cleared =
        json.remove
          (json.remove
            (json.remove (json.remove body (path thinking_level)) (path thinking_level_snake))
            (path thinking_budget_snake))
          (path include_thoughts_snake) in
      let budgeted = json.set cleared (path thinking_budget) (json.of_int config.budget) in
      json.set budgeted (path include_thoughts) (
        json.of_bool (
          if is_none_mode config.mode
          then false
          else or_default (extract_include_thoughts_with_presence body)
              (if is_auto_mode config.mode then true else ltb_ℤ (pos 0) config.budget)))

  abbrev pub body_or_empty : Text → Text
  body_or_empty body = if is_empty body || not (json.is_valid body) then bytes "{}" else body

  unfoldable pub apply_compatible : Text → ThinkingConfig → Text
  apply_compatible body config =
      let given = body_or_empty body in
      if is_auto_mode config.mode
      then apply_budget_format given config
      else if is_level_mode config.mode || is_none_mode config.mode && not (is_empty config.level)
      then apply_level_format given config
      else apply_budget_format given config

  -- Whether a level is written rather than a budget.
  abbrev pub writes_level : ThinkingSupport → ThinkingConfig → Bool
  writes_level support config =
      is_level_mode config.mode || is_none_mode config.mode && has_any support.levels

  abbrev pub apply_supported : Text → ThinkingConfig → Option ThinkingSupport → Text
  apply_supported body config none = apply_compatible body config
  apply_supported body config (some support) =
      if writes_level support config
      then apply_level_format body config
      else apply_budget_format body config

  unfoldable pub apply_gemini : Text → ThinkingConfig → ModelInfo → Text
  apply_gemini body config info = apply_supported (body_or_empty body) config info.thinking
