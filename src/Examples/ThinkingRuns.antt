-- ===== src/Examples/ThinkingRuns.antt =====
-- Thinking on concrete models and requests.
use aistudio_gemini_gateway.Base.{
  ℕ, ◌≤◌, ◌≡◌, ◌⊎◌, refl, true, false, none, some, List, [], ◌∷◌, Text, bytes, text_eq, nat_eq, pos,
  ℤ_eq, All, decimal, ok, arith, trim_space, trim_left, trim_right, is_space, to_lower, lower_byte,
  equal_fold,
}
use aistudio_gemini_gateway.Thinking.{ThinkingConfig, ThinkingSupport, ModelInfo, mode_budget}
use aistudio_gemini_gateway.Thinking.Suffix.{parse_suffix, parse_suffix_to_config}
use aistudio_gemini_gateway.Thinking.Suffix.RoundTrip.{
  with_suffix, config_of_number, parse_suffix-decimal,
}
use aistudio_gemini_gateway.Thinking.Levels.{
  level_index, find_level, has_level, has_lowered, clamp_level, convert_budget_to_level,
  convert_level_to_budget, budget_of_word,
}
use aistudio_gemini_gateway.Thinking.Levels.Nearest.{IsStandard, Beats, clamp_level-nearest}
use aistudio_gemini_gateway.Thinking.Levels.Budgets.{convert_budget_to_level-least}
use aistudio_gemini_gateway.Thinking.Limits.{detect_model_capability, capability_of, clamp_budget}
use aistudio_gemini_gateway.Thinking.Validate.{
  validate_config, validate_for, validate_supported, adapt, tidy, tidy_none, tidy_auto, tidy_zero,
  check_level, check_budget, finish, resolve_auto, clamp_config, lowest_level,
}
use aistudio_gemini_gateway.Thinking.Validate.Supported.{is_supported, validate_config-is_supported}
use aistudio_gemini_gateway.Thinking.Validate.Middle.{
  auto_config, medium_config, validate_config-medium,
}
use aistudio_gemini_gateway.Thinking.Apply.{apply, GeminiThinkingConfig}
use aistudio_gemini_gateway.Thinking.Body.{extract_config}
use aistudio_gemini_gateway.Thinking.Apply.Suffixed.{budget_config, budget_model, apply-suffix}
use aistudio_gemini_gateway.Examples.FlatJson.{flat_json, flat_laws, table_text}

parse_suffix-decimal_example :
    (parse_suffix (with_suffix (bytes "gemini") (decimal 8192))
      ≡ record { model_name = bytes "gemini"; has_suffix = true; raw_suffix = decimal 8192 })
    × (parse_suffix_to_config (decimal 8192) (bytes "gemini") ≡ ok (config_of_number 8192))
unfolding trim_space trim_left trim_right is_space
parse_suffix-decimal_example = parse_suffix-decimal (bytes "gemini") 8192 refl (omega arith)

-- A model with the levels "low" and "high".
abbrev two_levels : List Text
two_levels = bytes "low" ∷ bytes "HIGH" ∷ []

clamp_level-nearest_example :
    ((clamp_level (bytes "max") two_levels ≡ bytes "max")
      × All (λ item. level_index item ≡ none) two_levels)
    ⊎ ((q : ℕ) × IsStandard q (clamp_level (bytes "max") two_levels)
        × (has_level two_levels (clamp_level (bytes "max") two_levels) ≡ true)
        × All (λ item. Beats 5 q (level_index item)) two_levels)
unfolding has_level has_lowered level_index find_level equal_fold to_lower lower_byte trim_space
    trim_left trim_right is_space
clamp_level-nearest_example = clamp_level-nearest (bytes "max") two_levels 5 refl refl

convert_budget_to_level-least_example :
    (level : Text) × (n : ℕ) × (convert_budget_to_level (pos 700) ≡ some level)
    × (convert_level_to_budget level ≡ some (pos n))
    × (convert_budget_to_level (pos n) ≡ some level)
    × (700 ≤ n)
    × (n ≤ 8192)
unfolding convert_level_to_budget budget_of_word to_lower lower_byte trim_space trim_left trim_right
    is_space
convert_budget_to_level-least_example =
    convert_budget_to_level-least 700 8192 (bytes "Medium") (omega arith) refl (omega arith)

abbrev hybrid : ThinkingSupport
hybrid = record {
  min = pos 128;
  max = pos 32768;
  zero_allowed = false;
  dynamic_allowed = true;
  levels = two_levels;
}

abbrev levels_only : ThinkingSupport
levels_only = record {
  min = pos 0;
  max = pos 0;
  zero_allowed = false;
  dynamic_allowed = false;
  levels = two_levels;
}

abbrev model_with : ThinkingSupport → ModelInfo
model_with support = record {
  name = bytes "models/gemini";
  base_name = bytes "gemini";
  supports_thinking = true;
  thinking = some support;
}

abbrev large_budget : ThinkingConfig
large_budget = record { mode = mode_budget; budget = pos 99999; level = [] }

abbrev capped : ThinkingConfig
capped = record { mode = mode_budget; budget = pos 32768; level = [] }

validate_config-is_supported_example : is_supported hybrid capped ≡ true
unfolding validate_config validate_for validate_supported detect_model_capability capability_of
    adapt tidy tidy_none tidy_auto tidy_zero check_level check_budget finish resolve_auto
    clamp_config clamp_budget lowest_level
validate_config-is_supported_example =
    validate_config-is_supported (λ s. s) large_budget capped (model_with hybrid) hybrid false false
      refl refl refl refl

validate_config-medium_example :
    validate_config (λ s. s) auto_config (some (model_with levels_only)) true false
    ≡ ok medium_config
validate_config-medium_example =
    validate_config-medium (λ s. s) (model_with levels_only) levels_only true false refl refl refl
      refl refl

abbrev empty_body : Text
empty_body = table_text []

abbrev budget_only : ModelInfo
budget_only = model_with (budget_model (pos 128) (pos 32768) false true 8192)

abbrev settings : GeminiThinkingConfig
settings = record { mode = bytes "auto"; strict_validation = true }

apply-suffix_example :
    ((apply flat_json
        (λ s. s)
        empty_body
        (with_suffix (bytes "gemini") (decimal 8192))
        (some budget_only)
        settings).1
      ≡ none)
    × (extract_config flat_json
          (apply flat_json
            (λ s. s)
            empty_body
            (with_suffix (bytes "gemini") (decimal 8192))
            (some budget_only)
            settings).0
        ≡ budget_config 8192)
unfolding equal_fold to_lower lower_byte trim_space trim_left trim_right is_space
apply-suffix_example =
    apply-suffix (pos 128) (pos 32768) false true 8192 (omega arith) refl refl flat_json flat_laws
      (λ s. s) empty_body (bytes "gemini") budget_only settings ([], refl) refl (omega arith) refl
      refl refl
