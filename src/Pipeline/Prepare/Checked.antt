-- ===== src/Pipeline/Prepare/Checked.antt =====
-- What a prepared request has passed, and the name that its model is looked up by.
use aistudio_gemini_gateway.Base.{
  ◌⊎◌, ◌≡◌, ◌∙◌, refl, sym, ap, true, false, Option, none, some, [], ◌∷◌, Text, bytes, text_eq,
  nat_eq, is_empty, trim_space, to_lower, has_prefix,
}
use aistudio_gemini_gateway.Service.Provider.{Action}
use aistudio_gemini_gateway.Thinking.Suffix.{SuffixResult, parse_suffix}
use aistudio_gemini_gateway.Thinking.Suffix.RoundTrip.{
  with_suffix, IsFlat, trim_space-with_suffix, split_last-with_suffix, ends_with-with_suffix,
  parse_suffix-with_suffix,
}
use aistudio_gemini_gateway.Pipeline.Prepare.{
  StaticModel, model_supports_action, without_suffix, without_prefix, first_non_empty_name,
  normalize_model_name, Resolver, GatewayRequest, PreparedContext, is_other,
}

-- The resolver knows the model, as it is asked for or, if not so, by its normalized name; and the
-- name that is resolved is the normalized one of the first name that is not blank of what the resolver
-- calls the model, its base name, its name and what was asked for.
abbrev pub IsKnown : Resolver → Text → Text → StaticModel → Type 0
IsKnown resolve model resolved info =
    (found : Text) × ((resolve model ≡ some (found, info))
      ⊎ ((resolve model ≡ none) × (resolve (normalize_model_name model) ≡ some (found, info))))
    × (resolved
        ≡ normalize_model_name
            (first_non_empty_name (found ∷ info.base_name ∷ info.name ∷ model ∷ [])))

-- What a context was checked for.
abbrev pub IsChecked : Option Resolver → Option GatewayRequest → Action → PreparedContext → Type 0
IsChecked (some resolve) (some req) action c =
    (is_other req.action action ≡ false)
    × (c.action ≡ action)
    × IsKnown resolve (trim_space req.model) c.resolved_model c.model_info
    × (is_empty c.resolved_model ≡ false)
    × (model_supports_action c.model_info action ≡ true)
IsChecked _ _ action c = ⊥

is_empty-with_suffix : (name raw : Text) → is_empty (with_suffix name raw) ≡ false
is_empty-with_suffix [] raw = refl
is_empty-with_suffix (c ∷ name) raw = refl

-- For a name with a suffix in parentheses, the name that the pipeline looks the model up by is the one
-- that thinking splits off. The name is not empty and has no white space around it, the suffix has none
-- either and opens no parenthesis, and the whole does not begin with "models/", in any case.
pub normalize_model_name-parse_suffix :
    (name raw : Text)
    → trim_space name ≡ name
    → is_empty name ≡ false
    → trim_space raw ≡ raw
    → IsFlat raw
    → has_prefix (to_lower (with_suffix name raw)) (bytes "models/") ≡ false
    → normalize_model_name (with_suffix name raw) ≡ (parse_suffix (with_suffix name raw)).model_name
unfolding normalize_model_name without_prefix without_suffix
normalize_model_name-parse_suffix name raw trimmed given flat_ends flat plain =
    rw
      (
        trim_space-with_suffix name raw trimmed,
        is_empty-with_suffix name raw,
        plain,
        ends_with-with_suffix name raw,
        split_last-with_suffix name raw flat,
        given,
      )
      trimmed
    ∙ sym (
        ap (λ (r : SuffixResult). r.model_name)
          (parse_suffix-with_suffix name raw trimmed flat_ends flat))
