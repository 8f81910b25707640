-- ===== src/Thinking/Apply/Suffixed.antt =====
-- A budget in the suffix of a model's name, from the name to the body.
use aistudio_gemini_gateway.Base.{
  ℕ, ◌<◌, ◌≡◌, ◌∙◌, refl, sym, ap, subst, Bool, true, false, ◌&&◌, Option, none, some, [], Text,
  bytes, text_eq, nat_eq, ◌==◌, trim_space, equal_fold, decimal, ℤ, pos, negsuc, ltb_ℤ, ℤ_eq, ok,
  arith,
}
use aistudio_gemini_gateway.Thinking.{mode_budget, ThinkingConfig, ThinkingSupport, ModelInfo}
use aistudio_gemini_gateway.Thinking.Suffix.{SuffixResult, parse_suffix, numeric_config}
use aistudio_gemini_gateway.Thinking.Suffix.RoundTrip.{
  with_suffix, numeric_config-pos, parse_suffix-decimal,
}
use aistudio_gemini_gateway.Thinking.Limits.{
  capability_budget_only, detect_model_capability, capability_of, capability_for, clamp_budget,
}
use aistudio_gemini_gateway.Thinking.Validate.{
  adapt, tidy, tidy_none, tidy_auto, tidy_zero, check_level, check_budget, resolve_auto,
  clamp_config, lowest_level, finish, validate_supported, validate_for, validate_config,
}
use aistudio_gemini_gateway.Thinking.Apply.{
  requested, apply_config, apply, GeminiThinkingConfig, is_some,
}
use aistudio_gemini_gateway.Thinking.Body.{
  Json, config_of_budget, extract_config, has_thinking_config, apply_gemini,
}
use aistudio_gemini_gateway.Thinking.Body.Fields.{JsonLaws}
use aistudio_gemini_gateway.Thinking.Body.WrittenBack.{apply_gemini-extract}

-- The configuration of a budget above zero.
abbrev pub budget_config : ℕ → ThinkingConfig
budget_config n = record { mode = mode_budget; budget = pos n; level = [] }

module _ (min max : ℤ) (zero_allowed dynamic_allowed : Bool) (n : ℕ) where
  -- A model that takes budgets only.
  abbrev pub budget_model : ThinkingSupport
  budget_model = record {
    min = min;
    max = max;
    zero_allowed = zero_allowed;
    dynamic_allowed = dynamic_allowed;
    levels = [];
  }

  module _ (positive : 0 < n) (above : ltb_ℤ (pos n) min ≡ false)
      (below : ltb_ℤ max (pos n) ≡ false) where
    positive_max : ltb_ℤ (pos 0) max ≡ true
    positive_max = by_sign max below
      where
        by_sign : (m : ℤ) → ltb_ℤ m (pos n) ≡ false → ltb_ℤ (pos 0) m ≡ true
        by_sign (pos m) h = ground arith
        by_sign (negsuc m) h = absurd (ground arith)

    capability : capability_of budget_model ≡ capability_budget_only
    unfolding capability_of
    capability = rw positive_max (ground arith)

    tidy-budget : tidy (budget_config n) ≡ budget_config n
    unfolding tidy tidy_none tidy_auto tidy_zero
    tidy-budget = ground arith

    clamp-budget : clamp_budget (pos n) budget_model ≡ pos n
    unfolding clamp_budget
    clamp-budget = rw (above, below) (ground arith)

    finish-budget : finish budget_model (budget_config n) ≡ budget_config n
    unfolding finish resolve_auto clamp_config lowest_level
    finish-budget = rw clamp-budget refl

    validate_supported-budget :
        (quoted : Text → Text) (info : Option ModelInfo) (strict : Bool)
        → detect_model_capability info ≡ capability_budget_only
        → validate_supported quoted info budget_model (budget_config n) strict true
          ≡ ok (budget_config n)
    unfolding validate_supported adapt check_level check_budget
    validate_supported-budget quoted info strict e =
        rw (e, tidy-budget, no_strict strict, finish-budget) refl
      where
        no_strict : (b : Bool) → (b && false) ≡ false
        no_strict true = refl
        no_strict false = refl

    validate_config-budget :
        (quoted : Text → Text) (info : ModelInfo) (strict : Bool)
        → info.thinking ≡ some budget_model
        → validate_config quoted (budget_config n) (some info) strict true ≡ ok (budget_config n)
    unfolding validate_config validate_for detect_model_capability
    validate_config-budget quoted info strict e =
        subst
          (λ o.
            validate_for quoted (some info) o (budget_config n) strict true ≡ ok (budget_config n))
          (sym e) (validate_supported-budget quoted (some info) strict detected)
      where
        detected : detect_model_capability (some info) ≡ capability_budget_only
        detected = subst (λ o. capability_for o ≡ capability_budget_only) (sym e) capability

    module _ {Value : Type 0} (json : Json Value) {Editable : Text → Type 0}
        (laws : JsonLaws json Editable) where
      requested-budget :
          (body name : Text)
          → trim_space name ≡ name
          → n < 9223372036854775808
          → requested json body (with_suffix name (decimal n)) ≡ ok (budget_config n)
      unfolding requested numeric_config
      requested-budget body name trimmed small =
          let (split, config) = parse_suffix-decimal name n trimmed small in
          let positive_config : numeric_config (pos n) ≡ budget_config n = ground arith in
          rw split (config ∙ ap ok (sym (numeric_config-pos n) ∙ positive_config))

      apply_config-budget :
          (quoted : Text → Text) (body model : Text) (info : ModelInfo) (strict : Bool)
          → Editable body
          → (parse_suffix model).has_suffix ≡ true
          → info.thinking ≡ some budget_model
          → info.supports_thinking ≡ true
          → apply_config json quoted body model (some info) strict (budget_config n)
            ≡ (apply_gemini json body (budget_config n) info, none)
      unfolding apply_config has_thinking_config
      apply_config-budget quoted body model info strict editable suffixed e thinks =
          rw
            (
              nonzero,
              laws.editable_given body editable,
              laws.editable_valid body editable,
              ready,
              suffixed,
              validate_config-budget quoted info strict e,
            )
            refl
        where
          nonzero : (pos n == pos 0) ≡ false
          nonzero = ground arith

          ready : (is_some json info.thinking && info.supports_thinking) ≡ true
          ready = subst (λ o. (is_some json o && info.supports_thinking) ≡ true) (sym e) thinks

      -- A budget above zero in the suffix of the model's name is what the body asks for afterwards, and
      -- there is no error, if thinking is not switched off, the model thinks and takes budgets only, the
      -- budget is within its range and the body is editable.
      pub apply-suffix :
          (quoted : Text → Text) (body name : Text) (info : ModelInfo) (cfg : GeminiThinkingConfig)
          → Editable body
          → trim_space name ≡ name
          → n < 9223372036854775808
          → equal_fold (trim_space cfg.mode) (bytes "off") ≡ false
          → info.thinking ≡ some budget_model
          → info.supports_thinking ≡ true
          → ((apply json quoted body (with_suffix name (decimal n)) (some info) cfg).1 ≡ none)
            × (extract_config json
                  (apply json quoted body (with_suffix name (decimal n)) (some info) cfg).0
                ≡ budget_config n)
      unfolding apply config_of_budget
      apply-suffix quoted body name info cfg editable trimmed small on e thinks =
          rw
            (
              on,
              requested-budget body name trimmed small,
              apply_config-budget quoted body (with_suffix name (decimal n)) info
                  cfg.strict_validation editable
                  (ap (λ (r : SuffixResult). r.has_suffix)
                    (parse_suffix-decimal name n trimmed small).0)
                  e thinks,
            )
            (
              refl,
              apply_gemini-extract json laws body editable (budget_config n) info budget_model e
                    refl
                  ∙ same,
            )
        where
          same : config_of_budget (pos n) ≡ budget_config n
          same = ground arith
