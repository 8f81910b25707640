-- ===== src/Thinking/Validate/Supported.antt =====
-- What validation lets through is within what the model supports.
use aistudio_gemini_gateway.Base.{
  ◌≡◌, refl, subst, Bool, true, false, not, ◌&&◌, ◌||◌, Option, some, List, [], ◌∷◌, Text, text_eq,
  nat_eq, ◌==◌, is_empty, if-intro, pos, ltb_ℤ, ℤ_eq, ok, >>=-eq-ok, ok-injective, arith,
}
use aistudio_gemini_gateway.Thinking.{
  ThinkingMode, mode_budget, mode_level, mode_none, mode_auto, ThinkingConfig, ThinkingSupport,
  ModelInfo, level_medium,
}
use aistudio_gemini_gateway.Thinking.Levels.{has_level}
use aistudio_gemini_gateway.Thinking.Limits.{
  is_level_mode, is_none_mode, is_auto_mode, has_any, detect_model_capability,
  convert_auto_to_mid_range, middle,
}
use aistudio_gemini_gateway.Thinking.Validate.{
  adapt, tidy, check_level, check_budget, resolve_auto, clamp_config, lowest_level, finish,
  validate_supported, validate_for, validate_config,
}
use aistudio_gemini_gateway.Thinking.Validate.Bounds.{fits_budget, clamp_budget-fits}

-- A level is one of the model's, if it lists any.
abbrev pub fits_level : List Text → ThinkingConfig → Bool
fits_level levels config =
    not (has_any levels && is_level_mode config.mode) || has_level levels config.level

-- What a model supports: one of its levels, a budget in its range, or dynamic thinking.
abbrev pub is_supported : ThinkingSupport → ThinkingConfig → Bool
is_supported support config =
    fits_level support.levels config
    && (is_level_mode config.mode || fits_budget support config.budget)
    && (not (is_auto_mode config.mode) || support.dynamic_allowed)

module _ (quoted : Text → Text) where
  check_level-fits :
      (allow : Bool) (info : Option ModelInfo) (levels : List Text) (config result : ThinkingConfig)
      → check_level quoted allow info levels config ≡ ok result
      → fits_level levels result ≡ true
  unfolding check_level
  check_level-fits allow info levels config result =
      if-intro (λ r. r ≡ ok result → fits_level levels result ≡ true)
        (has_any levels && is_level_mode config.mode && not (has_level levels config.level))
        (λ on.
          if-intro (λ r. r ≡ ok result → fits_level levels result ≡ true) (has_level levels _)
            (λ has h.
              subst (λ c. fits_level levels c ≡ true) (ok-injective h) (ground (arith, has)))
            (λ no_level h. absurd (cc)))
        (λ off h. subst (λ c. fits_level levels c ≡ true) (ok-injective h) (ground (arith, off)))

module _ (support : ThinkingSupport)
    (fallback : (support.dynamic_allowed || has_level support.levels level_medium) ≡ true) where
  resolve_auto-fits :
      (config : ThinkingConfig)
      → fits_level support.levels config ≡ true
      → (fits_level support.levels (resolve_auto support config)
          && (not (is_auto_mode (resolve_auto support config).mode) || support.dynamic_allowed))
        ≡ true
  unfolding resolve_auto convert_auto_to_mid_range
  resolve_auto-fits config h =
      if-intro Fine (is_auto_mode config.mode && not support.dynamic_allowed)
        (λ on.
          if-intro Fine (has_any support.levels && support.min == pos 0 && support.max == pos 0)
            (λ level_only. ground (arith, fallback, on, level_only))
            (λ ranged.
              if-intro Fine (not (ltb_ℤ (pos 0) (middle support)) && support.zero_allowed)
                (λ _. ground arith)
                (λ _.
                  if-intro Fine (not (ltb_ℤ (pos 0) (middle support))) (λ _. ground arith)
                    (λ _. ground arith))))
        (λ off. ground (arith, h, off))
    where
      Fine : ThinkingConfig → Type 0
      Fine c =
          (fits_level support.levels c && (not (is_auto_mode c.mode) || support.dynamic_allowed))
          ≡ true

clamp_config-fits :
    (support : ThinkingSupport) (config : ThinkingConfig)
    → ltb_ℤ support.max support.min ≡ false
    → (is_level_mode (clamp_config support config).mode
        || fits_budget support (clamp_config support config).budget)
      ≡ true
unfolding clamp_config
clamp_config-fits support config h =
    if-intro (λ (c : ThinkingConfig). (is_level_mode c.mode || fits_budget support c.budget) ≡ true)
      (is_level_mode config.mode) (λ level. ground (arith, level))
      (λ other. ground (arith, clamp_budget-fits config.budget support h))

clamp_config-keeps :
    (support : ThinkingSupport) (config : ThinkingConfig)
    → (fits_level support.levels config
        && (not (is_auto_mode config.mode) || support.dynamic_allowed))
      ≡ true
    → (fits_level support.levels (clamp_config support config)
        && (not (is_auto_mode (clamp_config support config).mode) || support.dynamic_allowed))
      ≡ true
unfolding clamp_config
clamp_config-keeps support config h =
    if-intro
      (λ (c : ThinkingConfig).
        (fits_level support.levels c && (not (is_auto_mode c.mode) || support.dynamic_allowed))
        ≡ true)
      (is_level_mode config.mode) (λ _. h) (λ _. h)

-- A mode that is none asks for no level.
lowest_level-keeps :
    (support : ThinkingSupport) (levels : List Text) (config : ThinkingConfig)
    → is_supported support config ≡ true
    → is_supported support (lowest_level levels config) ≡ true
unfolding lowest_level
lowest_level-keeps support [] config h = h
lowest_level-keeps support (first ∷ levels) config h =
    if-intro (λ (c : ThinkingConfig). is_supported support c ≡ true)
      (is_none_mode config.mode && is_empty config.level)
      (λ off.
        let still : is_level_mode config.mode ≡ false = not_level config.mode off in
        ground (arith, h, still))
      (λ _. h)
  where
    not_level :
        (m : ThinkingMode)
        → (is_none_mode m && is_empty config.level) ≡ true
        → is_level_mode m ≡ false
    not_level mode_none e = refl
    not_level mode_budget e = refl
    not_level mode_level e = cc
    not_level mode_auto e = refl

finish-is_supported :
    (support : ThinkingSupport) (config : ThinkingConfig)
    → ltb_ℤ support.max support.min ≡ false
    → (support.dynamic_allowed || has_level support.levels level_medium) ≡ true
    → fits_level support.levels config ≡ true
    → is_supported support (finish support config) ≡ true
unfolding finish
finish-is_supported support config bounds fallback h = lowest_level-keeps support support.levels _ (
    join_facts _ _ _ (clamp_config-keeps support _ (resolve_auto-fits support fallback config h))
      (clamp_config-fits support (resolve_auto support config) bounds))
  where
    join_facts : (a b c : Bool) → (a && c) ≡ true → b ≡ true → (a && b && c) ≡ true
    join_facts a b c e f = ground arith

-- If validation lets a configuration for a model through, then the result asks for one of the model's
-- levels, if the model lists any and the mode is a level; for a budget that is -1 or 0 or within the
-- model's range, if it is not; and for the automatic mode only if the model allows that. This is for
-- models whose bounds are in order, and that allow the automatic mode or support the level "medium".
pub validate_config-is_supported :
    (quoted : Text → Text) (config result : ThinkingConfig) (info : ModelInfo)
    (support : ThinkingSupport) (strict_validation from_suffix : Bool)
    → info.thinking ≡ some support
    → ltb_ℤ support.max support.min ≡ false
    → (support.dynamic_allowed || has_level support.levels level_medium) ≡ true
    → validate_config quoted config (some info) strict_validation from_suffix ≡ ok result
    → is_supported support result ≡ true
unfolding validate_config validate_for validate_supported
validate_config-is_supported quoted config result info support strict_validation from_suffix
      supports bounds fallback h =
    let run : validate_supported quoted (some info) support config strict_validation from_suffix
        ≡ ok result =
      subst
        (λ o. validate_for quoted (some info) o config strict_validation from_suffix ≡ ok result)
        supports h in
    let (adapted, _, checking) =
      >>=-eq-ok (adapt (detect_model_capability (some info)) (some info) support config) _ run in
    let (checked, fits, rest) =
      >>=-eq-ok
        (check_level quoted (not strict_validation || from_suffix) (some info) support.levels
          (tidy adapted.config))
        _ checking in
    let (_, _, done) =
      >>=-eq-ok
        (check_budget (strict_validation && not from_suffix) (some info) support
          (record adapted { config = checked }))
        _ rest in
    subst (λ c. is_supported support c ≡ true) (ok-injective done)
      (finish-is_supported support checked bounds fallback
        (check_level-fits quoted _ (some info) support.levels (tidy adapted.config) checked fits))
