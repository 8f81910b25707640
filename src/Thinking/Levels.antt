-- ===== src/Thinking/Levels.antt =====
-- Levels of thinking: their order, the nearest supported one, and the budgets they stand for.
pub mod Nearest
pub mod Budgets
use aistudio_gemini_gateway.Base.{
  ℕ, suc, ◌+◌, ◌-◌, Bool, false, not, ◌&&◌, ◌||◌, Option, none, some, List, [], ◌∷◌, Text, bytes,
  nat_eq, text_eq, ◌==◌, trim_space, to_lower, to_upper, equal_fold, ltb, if◌then◌else◌, map,
  get_elem?, length, ℤ, pos, negsuc, ltb_ℤ, ℤ_eq,
}
use aistudio_gemini_gateway.Thinking.{
  ThinkingLevel, level_none, level_auto, level_minimal, level_low, level_medium, level_high,
  level_xhigh, level_max,
}

abbrev pub standard_level_order : List ThinkingLevel
standard_level_order =
    level_minimal ∷ level_low ∷ level_medium ∷ level_high ∷ level_xhigh ∷ level_max ∷ []

-- The first place of a level among levels, counted from `i`; `none` is Go's -1.
unfoldable pub find_level : ℕ → List ThinkingLevel → Text → Option ℕ
find_level i [] level = none
find_level i (item ∷ items) level =
    if equal_fold item level then some i else find_level (suc i) items level

unfoldable pub level_index : Text → Option ℕ
level_index level = find_level 0 standard_level_order (to_lower (trim_space level))

unfoldable pub has_lowered : List Text → Text → Bool
has_lowered [] target = false
has_lowered (level ∷ levels) target =
    equal_fold (trim_space level) target || has_lowered levels target

unfoldable pub has_level : List Text → Text → Bool
has_level levels target = has_lowered levels (to_lower (trim_space target))

unfoldable pub normalize_levels : List Text → List Text
normalize_levels = map (λ item. to_lower (trim_space item))

abbrev pub distance : ℕ → ℕ → ℕ
distance a b = (a - b) + (b - a)

-- `idx < bestIdx`, where nothing lies below -1.
abbrev pub is_below : ℕ → Option ℕ → Bool
is_below i none = false
is_below i (some best) = ltb i best

-- The loop over the supported levels, with the best index so far and its distance.
unfoldable pub best_index : ℕ → List Text → Option ℕ → ℕ → Option ℕ
best_index at [] best best_dist = best
best_index at (item ∷ items) best best_dist = elim (level_index item) [
  | none ↦ best_index at items best best_dist
  | some i ↦
      let closer =
        ltb (distance at i) best_dist || (distance at i == best_dist && is_below i best) in
      best_index at items (if closer then some i else best)
        (if closer then distance at i else best_dist)
]

abbrev pub level_or : Option ThinkingLevel → ThinkingLevel → ThinkingLevel
level_or none level = level
level_or (some found) level = found

abbrev pub pick_level : Option ℕ → ThinkingLevel → ThinkingLevel
pick_level none level = level
pick_level (some i) level = level_or (get_elem? standard_level_order i) level

unfoldable pub clamp_level : ThinkingLevel → List Text → ThinkingLevel
clamp_level level [] = level
clamp_level level (item ∷ items) =
    if has_level (item ∷ items) level then level else elim (level_index level) [
      | none ↦ level
      | some at ↦
          pick_level (best_index at (item ∷ items) none (length standard_level_order + 1)) level
    ]

unfoldable pub budget_of_word : Text → Option ℤ
budget_of_word word =
    if word == bytes "none"
    then some (pos 0)
    else if word == bytes "auto"
    then some (negsuc 0)
    else if word == bytes "minimal"
    then some (pos 512)
    else if word == bytes "low"
    then some (pos 1024)
    else if word == bytes "medium"
    then some (pos 8192)
    else if word == bytes "high"
    then some (pos 24576)
    else if word == bytes "xhigh"
    then some (pos 32768)
    else if word == bytes "max"
    then some (pos 128000)
    else none

unfoldable pub convert_level_to_budget : Text → Option ℤ
convert_level_to_budget level = budget_of_word (to_lower (trim_space level))

abbrev pub threshold_minimal : ℤ
threshold_minimal = pos 512

abbrev pub threshold_low : ℤ
threshold_low = pos 1024

abbrev pub threshold_medium : ℤ
threshold_medium = pos 8192

abbrev pub threshold_high : ℤ
threshold_high = pos 24576

unfoldable pub convert_budget_to_level : ℤ → Option Text
convert_budget_to_level budget =
    if ltb_ℤ budget (negsuc 0)
    then none
    else if budget == negsuc 0
    then some level_auto
    else if budget == pos 0
    then some level_none
    else if not (ltb_ℤ threshold_minimal budget)
    then some level_minimal
    else if not (ltb_ℤ threshold_low budget)
    then some level_low
    else if not (ltb_ℤ threshold_medium budget)
    then some level_medium
    else if not (ltb_ℤ threshold_high budget)
    then some level_high
    else some level_xhigh

unfoldable pub thinking_level_to_api_enum : ThinkingLevel → Text
thinking_level_to_api_enum level =
    if level == level_minimal
    then bytes "MINIMAL"
    else if level == level_low
    then bytes "LOW"
    else if level == level_medium
    then bytes "MEDIUM"
    else if level == level_high || level == level_xhigh || level == level_max
    then bytes "HIGH"
    else to_upper (trim_space level)
