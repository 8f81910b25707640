-- ===== src/Thinking/Validate/Middle.antt =====
-- The automatic mode on a model that does not allow it.
use aistudio_gemini_gateway.Base.{
  ◌≡◌, refl, sym, subst, ==_iff, Bool, true, false, not, ◌&&◌, ◌||◌, Option, some, List, [], ◌∷◌,
  Text, text_eq, nat_eq, pos, negsuc, ℤ_eq, ok, arith,
}
use aistudio_gemini_gateway.Thinking.{
  mode_level, mode_auto, ThinkingConfig, ThinkingSupport, ModelInfo, level_medium,
}
use aistudio_gemini_gateway.Thinking.Limits.{
  ModelCapability, capability_unknown, capability_none, capability_budget_only,
  capability_level_only, capability_hybrid, has_any, detect_model_capability,
  convert_auto_to_mid_range,
}
use aistudio_gemini_gateway.Thinking.Validate.{
  adapt, tidy, tidy_none, tidy_auto, tidy_zero, check_level, check_budget, resolve_auto,
  clamp_config, lowest_level, finish, validate_supported, validate_for, validate_config,
}

-- The request for automatic thinking.
abbrev pub auto_config : ThinkingConfig
auto_config = record { mode = mode_auto; budget = negsuc 0; level = [] }

abbrev pub medium_config : ThinkingConfig
medium_config = record { mode = mode_level; budget = pos 0; level = level_medium }

adapt-auto :
    (capability : ModelCapability) (info : Option ModelInfo) (support : ThinkingSupport)
    → adapt capability info support auto_config
      ≡ ok record { config = auto_config; budget_derived_from_level = false }
unfolding adapt
adapt-auto capability_unknown info support = refl
adapt-auto capability_none info support = refl
adapt-auto capability_budget_only info support = refl
adapt-auto capability_level_only info support = refl
adapt-auto capability_hybrid info support = refl

tidy-auto : tidy auto_config ≡ auto_config
unfolding tidy tidy_none tidy_auto tidy_zero
tidy-auto = refl

check_level-auto :
    (quoted : Text → Text) (allow : Bool) (info : Option ModelInfo) (levels : List Text)
    → check_level quoted allow info levels auto_config ≡ ok auto_config
unfolding check_level
check_level-auto quoted allow info [] = refl
check_level-auto quoted allow info (_ ∷ _) = refl

check_budget-auto :
    (strict : Bool) (info : Option ModelInfo) (support : ThinkingSupport) (derived : Bool)
    → check_budget strict info support
        record { config = auto_config; budget_derived_from_level = derived }
      ≡ ok tt
unfolding check_budget
check_budget-auto true info support derived = refl
check_budget-auto false info support derived = refl

resolve_auto-medium :
    (support : ThinkingSupport)
    → has_any support.levels ≡ true
    → support.min ≡ pos 0
    → support.max ≡ pos 0
    → support.dynamic_allowed ≡ false
    → resolve_auto support auto_config ≡ medium_config
unfolding resolve_auto convert_auto_to_mid_range
resolve_auto-medium support lists no_min no_max not_dynamic =
    ground (arith, ==_iff support.min (pos 0), ==_iff support.max (pos 0))

lowest_level-medium : (levels : List Text) → lowest_level levels medium_config ≡ medium_config
unfolding lowest_level
lowest_level-medium [] = refl
lowest_level-medium (_ ∷ _) = refl

clamp_config-medium :
    (support : ThinkingSupport) → clamp_config support medium_config ≡ medium_config
unfolding clamp_config
clamp_config-medium support = refl

-- On a model that lists levels, has neither bound and does not allow the automatic mode, a request for
-- that mode passes validation, strict or not, and becomes the level "medium", whether the model supports
-- it or not.
pub validate_config-medium :
    (quoted : Text → Text) (info : ModelInfo) (support : ThinkingSupport)
    (strict from_suffix : Bool)
    → info.thinking ≡ some support
    → has_any support.levels ≡ true
    → support.min ≡ pos 0
    → support.max ≡ pos 0
    → support.dynamic_allowed ≡ false
    → validate_config quoted auto_config (some info) strict from_suffix ≡ ok medium_config
unfolding validate_config validate_for validate_supported finish
validate_config-medium quoted info support strict from_suffix supports lists no_min no_max
      not_dynamic =
    subst (λ o. validate_for quoted (some info) o auto_config strict from_suffix ≡ ok medium_config)
      (sym supports)
      (rw
        (
          adapt-auto (detect_model_capability (some info)) (some info) support,
          tidy-auto,
          check_level-auto quoted (not strict || from_suffix) (some info) support.levels,
          check_budget-auto (strict && not from_suffix) (some info) support false,
          resolve_auto-medium support lists no_min no_max not_dynamic,
          clamp_config-medium support,
          lowest_level-medium support.levels,
        )
        refl)
