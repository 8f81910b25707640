-- ===== src/Thinking/Body/WrittenBack.antt =====
-- A configuration that is written into a body is read back from it.
use aistudio_gemini_gateway.Base.{
  ◌≡◌, ◌∙◌, refl, sym, ap, subst, true, false, ◌&&◌, ◌||◌, some, List, [], ◌∷◌, Text, text_eq,
  is_empty, trim_space, to_lower, if◌then◌else◌, Bool-cases, ℤ_eq, arith, inl, inr,
}
use aistudio_gemini_gateway.Thinking.{
  ThinkingMode, mode_budget, mode_level, mode_none, mode_auto, ThinkingConfig, ThinkingSupport,
  ModelInfo,
}
use aistudio_gemini_gateway.Thinking.Levels.{thinking_level_to_api_enum}
use aistudio_gemini_gateway.Thinking.Limits.{is_level_mode, is_none_mode, has_any}
use aistudio_gemini_gateway.Thinking.Body.{
  thinking_level, thinking_level_snake, thinking_budget, thinking_budget_snake, include_thoughts,
  include_thoughts_snake, path, Json, config_of_level, config_of_budget, extract_fields,
  extract_config, apply_level_format, apply_budget_format, apply_gemini, apply_supported,
  writes_level, first_of, extract_include_thoughts,
}
use aistudio_gemini_gateway.Thinking.Body.Fields.{
  JsonLaws, Edit, put, drop_field, edited, left_in, edited-Editable, get-edited,
}

module _ {Value : Type 0} (json : Json Value) {Editable : Text → Type 0}
    (laws : JsonLaws json Editable) (body : Text) (editable : Editable body) where
  extract-edited :
      (edits : List (Edit Value))
      → extract_config json (edited json edits body)
        ≡ extract_fields json
            (first_of
              (left_in json thinking_level edits (json.get body (path thinking_level)))
              (left_in json thinking_level_snake edits (json.get body (path thinking_level_snake))))
            (first_of (left_in json thinking_budget edits (json.get body (path thinking_budget))) (
              left_in json thinking_budget_snake edits
                (json.get body (path thinking_budget_snake))))
  unfolding extract_config
  extract-edited edits =
      rw
        (
          laws.editable_given _ whole,
          laws.editable_valid _ whole,
          get-edited json laws body editable thinking_level edits,
          get-edited json laws body editable thinking_level_snake edits,
          get-edited json laws body editable thinking_budget edits,
          get-edited json laws body editable thinking_budget_snake edits,
        )
        refl
    where
      whole : Editable (edited json edits body)
      whole = edited-Editable json laws body editable edits

  apply_budget_format-extract :
      (config : ThinkingConfig)
      → extract_config json (apply_budget_format json body config) ≡ config_of_budget config.budget
  unfolding apply_budget_format extract_fields path
  apply_budget_format-extract config =
      extract-edited (
        put include_thoughts _
        ∷ put thinking_budget (json.of_int config.budget)
        ∷ drop_field include_thoughts_snake
        ∷ drop_field thinking_budget_snake
        ∷ drop_field thinking_level_snake
        ∷ drop_field thinking_level
        ∷ [])
      ∙ ap config_of_budget (laws.int_back config.budget)

  -- The configuration of the level's name for the API.
  abbrev level_back : ThinkingConfig → ThinkingConfig
  level_back config =
      config_of_level (to_lower (trim_space (thinking_level_to_api_enum config.level)))

  level_mode-extract :
      (config : ThinkingConfig)
      → config.mode ≡ mode_level
      → extract_config json (apply_level_format json body config) ≡ level_back config
  unfolding apply_level_format extract_fields path
  level_mode-extract config m = rw m (
      extract-edited (
        put include_thoughts (json.of_bool (extract_include_thoughts json body true))
        ∷ put thinking_level (json.of_string (thinking_level_to_api_enum config.level))
        ∷ drop_field include_thoughts_snake
        ∷ drop_field thinking_level_snake
        ∷ drop_field thinking_budget_snake
        ∷ drop_field thinking_budget
        ∷ [])
      ∙ ap (λ s. config_of_level (to_lower (trim_space s))) (laws.string_back _))

  none_mode-extract :
      (config : ThinkingConfig)
      → config.mode ≡ mode_none
      → is_empty config.level ≡ false
      → extract_config json (apply_level_format json body config) ≡ level_back config
  unfolding apply_level_format extract_fields path
  none_mode-extract config m given =
      rw (m, given)
        (extract-edited (
            put thinking_level (json.of_string (thinking_level_to_api_enum config.level))
            ∷ put include_thoughts (json.of_bool false)
            ∷ drop_field include_thoughts_snake
            ∷ drop_field thinking_level_snake
            ∷ drop_field thinking_budget_snake
            ∷ drop_field thinking_budget
            ∷ [])
          ∙ ap (λ s. config_of_level (to_lower (trim_space s))) (laws.string_back _))

  -- What a body asks for after a configuration was written into it.
  abbrev pub read_back : ThinkingSupport → ThinkingConfig → ThinkingConfig
  read_back support config =
      if writes_level json support config
      then config_of_level (to_lower (trim_space (thinking_level_to_api_enum config.level)))
      else config_of_budget config.budget

  level_format-extract :
      (levels : List Text) (config : ThinkingConfig) (mode : ThinkingMode)
      → config.mode ≡ mode
      → (is_level_mode mode || is_none_mode mode && has_any levels) ≡ true
      → (is_none_mode mode && has_any levels && is_empty config.level) ≡ false
      → extract_config json (apply_level_format json body config) ≡ level_back config
  level_format-extract levels config mode_level m w h = level_mode-extract config m
  level_format-extract levels config mode_budget m w h = cc
  level_format-extract levels config mode_auto m w h = cc
  level_format-extract levels config mode_none m w h =
      none_mode-extract config m (ground (arith, w, h))

  apply_supported-extract :
      (support : ThinkingSupport) (config : ThinkingConfig)
      → (is_none_mode config.mode && has_any support.levels && is_empty config.level) ≡ false
      → extract_config json (apply_supported json body config (some support))
        ≡ read_back support config
  apply_supported-extract support config h = elim (Bool-cases (writes_level json support config)) [
    | inl level ↦ rw level (level_format-extract support.levels config config.mode refl level h)
    | inr budget ↦ rw budget (apply_budget_format-extract config)
  ]

  pub apply_gemini-extract :
      (config : ThinkingConfig) (info : ModelInfo) (support : ThinkingSupport)
      → info.thinking ≡ some support
      → (is_none_mode config.mode && has_any support.levels && is_empty config.level) ≡ false
      → extract_config json (apply_gemini json body config info) ≡ read_back support config
  unfolding apply_gemini
  apply_gemini-extract config info support e h =
      rw (laws.editable_given body editable, laws.editable_valid body editable)
        (subst
          (λ o. extract_config json (apply_supported json body config o) ≡ read_back support config)
          (sym e) (apply_supported-extract support config h))
