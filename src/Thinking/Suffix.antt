-- ===== src/Thinking/Suffix.antt =====
-- Suffixes of model names, such as "(high)" or "(8192)".
pub mod RoundTrip
use aistudio_gemini_gateway.Base.{
  ℕ, ◌+◌, Bool, true, false, ◌||◌, Option, none, some, [], ◌∷◌, ◌++◌, Text, bytes, nat_eq, text_eq,
  ◌==◌, is_empty, trim_space, to_lower, ltb, if◌then◌else◌, ℤ, pos, negsuc, ℤ_eq, read_nat, Result,
  ok, err,
}
use aistudio_gemini_gateway.Service.Errors.{
  GatewayError, new_error, request, with_public_message, with_model,
}
use aistudio_gemini_gateway.Thinking.{
  ThinkingMode, mode_budget, mode_level, mode_none, mode_auto, ThinkingLevel, level_minimal,
  level_low, level_medium, level_high, level_xhigh, level_max, ThinkingConfig,
}

pub record SuffixResult : Type 0 where
  pub model_name : Text
  pub has_suffix : Bool
  pub raw_suffix : Text

-- What stands before and after the last place of a byte (strings.LastIndex and slices).
unfoldable pub split_last : ℕ → Text → Option (Text × Text)
split_last c [] = none
split_last c (x ∷ s) = elim (split_last c s) [
  | some (before, after) ↦ some (x ∷ before, after)
  | none ↦ if x == c then some ([], s) else none
]

-- strings.HasSuffix for one byte.
unfoldable pub ends_with : ℕ → Text → Bool
ends_with c [] = false
ends_with c (x ∷ s) = if is_empty s then x == c else ends_with c s

unfoldable pub drop_last : Text → Text
drop_last [] = []
drop_last (x ∷ s) = let rest = drop_last s in if is_empty s then [] else x ∷ rest

unfoldable pub parse_trimmed : Text → SuffixResult
parse_trimmed model = elim (split_last b'(' model) [
  | none ↦ record { model_name = model; has_suffix = false; raw_suffix = [] }
  | some (before, after) ↦
      if ends_with b')' model
      then record {
        model_name = trim_space before;
        has_suffix = true;
        raw_suffix = trim_space (drop_last after);
      }
      else record { model_name = model; has_suffix = false; raw_suffix = [] }
]

unfoldable pub parse_suffix : Text → SuffixResult
parse_suffix model = parse_trimmed (trim_space model)

-- strconv.ParseInt in base ten on 64 bits, for the results that are not negative.
unfoldable pub within_int64 : Option ℕ → Option ℕ
within_int64 none = none
within_int64 (some n) = if ltb n 9223372036854775808 then some n else none

unfoldable pub only_zero : Option ℕ → Option ℕ
only_zero none = none
only_zero (some n) = if n == 0 then some 0 else none

unfoldable pub parse_non_negative : Text → Option ℕ
parse_non_negative [] = none
parse_non_negative (c ∷ s) =
    if c == b'+'
    then within_int64 (read_nat s)
    else if c == b'-'
    then only_zero (read_nat s)
    else within_int64 (read_nat (c ∷ s))

unfoldable pub parse_numeric_suffix : Text → Option ℤ
parse_numeric_suffix raw_suffix = elim (parse_non_negative (trim_space raw_suffix)) [
  | none ↦ none
  | some n ↦ some (pos n)
]

unfoldable pub special_mode : Text → Option ThinkingMode
special_mode word =
    if word == bytes "none"
    then some mode_none
    else if word == bytes "auto" || word == bytes "-1"
    then some mode_auto
    else none

unfoldable pub parse_special_suffix : Text → Option ThinkingMode
parse_special_suffix raw_suffix = special_mode (to_lower (trim_space raw_suffix))

unfoldable pub named_level : Text → Option ThinkingLevel
named_level word =
    if word == bytes "minimal"
    then some level_minimal
    else if word == bytes "low"
    then some level_low
    else if word == bytes "medium"
    then some level_medium
    else if word == bytes "high"
    then some level_high
    else if word == bytes "xhigh"
    then some level_xhigh
    else if word == bytes "max"
    then some level_max
    else none

unfoldable pub parse_level_suffix : Text → Option ThinkingLevel
parse_level_suffix raw_suffix = named_level (to_lower (trim_space raw_suffix))

unfoldable pub bad_suffix : Text → Text → GatewayError
bad_suffix raw_suffix model =
    new_error request
      (bytes "模型 "
        ++ trim_space model
        ++ bytes " 的 thinking suffix 非法：("
        ++ trim_space raw_suffix
        ++ bytes ")")
      none (with_public_message (bytes "模型 thinking 后缀格式非法") ∷ with_model (trim_space model) ∷ [])

unfoldable pub numeric_config : ℤ → ThinkingConfig
numeric_config budget =
    if budget == pos 0
    then record { mode = mode_none; budget = pos 0; level = [] }
    else record { mode = mode_budget; budget = budget; level = [] }

unfoldable pub parse_suffix_to_config : Text → Text → Result GatewayError ThinkingConfig
parse_suffix_to_config raw_suffix model = elim (parse_special_suffix raw_suffix) [
  | some mode_none ↦ ok record { mode = mode_none; budget = pos 0; level = [] }
  | some mode_auto ↦ ok record { mode = mode_auto; budget = negsuc 0; level = [] }
  | other ↦ elim (parse_level_suffix raw_suffix) [
    | some level ↦ ok record { mode = mode_level; budget = pos 0; level = level }
    | none ↦ elim (parse_numeric_suffix raw_suffix) [
      | some budget ↦ ok (numeric_config budget)
      | none ↦ err (bad_suffix raw_suffix model)
    ]
  ]
]
