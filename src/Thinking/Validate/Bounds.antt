-- ===== src/Thinking/Validate/Bounds.antt =====
-- The bounds that clamping puts on a budget.
use aistudio_gemini_gateway.Base.{
  ◌≡◌, Bool, true, false, not, ◌&&◌, ◌||◌, text_eq, nat_eq, ◌==◌, ℤ, pos, negsuc, ltb_ℤ, ℤ_eq,
  arith,
}
use aistudio_gemini_gateway.Thinking.{ThinkingSupport}
use aistudio_gemini_gateway.Thinking.Limits.{clamp_budget}

-- Between the bounds of a model; a model with neither bound takes any budget.
abbrev pub in_range : ThinkingSupport → ℤ → Bool
in_range support value =
    support.min == pos 0 && support.max == pos 0
    || not (ltb_ℤ value support.min) && not (ltb_ℤ support.max value)

-- A budget that stands for itself: -1 is a dynamic budget, 0 none at all.
abbrev pub fits_budget : ThinkingSupport → ℤ → Bool
fits_budget support value = value == negsuc 0 || value == pos 0 || in_range support value

pub clamp_budget-fits :
    (value : ℤ) (support : ThinkingSupport)
    → ltb_ℤ support.max support.min ≡ false
    → fits_budget support (clamp_budget value support) ≡ true
unfolding clamp_budget
clamp_budget-fits value support h = ground arith
