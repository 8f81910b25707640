-- ===== src/Thinking/Levels/Budgets.antt =====
-- The translation between budgets and levels.
use mathlib.Core.Path.{subst₂}
use aistudio_gemini_gateway.Base.{
  ℕ, ◌≤◌, ◌≡◌, sym, inl, inr, refl, Option, some, Text, text_eq, ◌==◌, trim_space, trim_left,
  trim_right, is_space, to_lower, lower_byte, leb, if◌then◌else◌, Bool-cases, pos, ℤ_eq, nat_eq,
  arith,
}
use aistudio_gemini_gateway.Thinking.{
  level_none, level_minimal, level_low, level_medium, level_high, level_xhigh,
}
use aistudio_gemini_gateway.Thinking.Levels.{
  convert_budget_to_level, convert_level_to_budget, budget_of_word,
}

-- The least budget of a level that is not below.
level_budget : ℕ → ℕ
level_budget b =
    if b == 0
    then 0
    else if leb b 512
    then 512
    else if leb b 1024
    then 1024
    else if leb b 8192
    then 8192
    else if leb b 24576
    then 24576
    else 32768

budget_of_word-least :
    (word : Text) (b d : ℕ)
    → b ≤ 32768
    → budget_of_word word ≡ some (pos d)
    → b ≤ d
    → level_budget b ≤ d
unfolding budget_of_word level_budget
budget_of_word-least word b d h e below = ground arith

place :
    (P : Option Text → ℕ → Type 0) (b : ℕ) (level : Text) (n : ℕ)
    → convert_budget_to_level (pos b) ≡ some level
    → level_budget b ≡ n
    → P (some level) n
    → P (convert_budget_to_level (pos b)) (level_budget b)
place P b level n e f p = subst₂ P (sym e) (sym f) p

-- What is said of a level holds of the level of a budget, if it holds for each band.
bands :
    (P : Option Text → ℕ → Type 0)
    → P (some level_none) 0
    → P (some level_minimal) 512
    → P (some level_low) 1024
    → P (some level_medium) 8192
    → P (some level_high) 24576
    → P (some level_xhigh) 32768
    → (b : ℕ) → P (convert_budget_to_level (pos b)) (level_budget b)
unfolding convert_budget_to_level level_budget
bands P p0 p1 p2 p3 p4 p5 b = elim (Bool-cases (b == 0)) [
  | inl in0 ↦ place P b level_none 0 (ground arith) (ground arith) p0
  | inr above0 ↦ elim (Bool-cases (leb b 512)) [
    | inl in1 ↦ place P b level_minimal 512 (ground arith) (ground arith) p1
    | inr above1 ↦ elim (Bool-cases (leb b 1024)) [
      | inl in2 ↦ place P b level_low 1024 (ground arith) (ground arith) p2
      | inr above2 ↦ elim (Bool-cases (leb b 8192)) [
        | inl in3 ↦ place P b level_medium 8192 (ground arith) (ground arith) p3
        | inr above3 ↦ elim (Bool-cases (leb b 24576)) [
          | inl in4 ↦ place P b level_high 24576 (ground arith) (ground arith) p4
          | inr above4 ↦ place P b level_xhigh 32768 (ground arith) (ground arith) p5
        ]
      ]
    ]
  ]
]

-- The level of a budget stands for the budget of its band, which becomes that level again.
abbrev IsLevelOf : Option Text → ℕ → Type 0
IsLevelOf o n =
    (level : Text) × (o ≡ some level)
    × (convert_level_to_budget level ≡ some (pos n))
    × (convert_budget_to_level (pos n) ≡ some level)

level_of : (b : ℕ) → IsLevelOf (convert_budget_to_level (pos b)) (level_budget b)
unfolding convert_budget_to_level convert_level_to_budget budget_of_word trim_space trim_left
    trim_right is_space to_lower lower_byte
level_of =
    bands IsLevelOf (level_none, refl, refl, refl) (level_minimal, refl, refl, refl)
      (level_low, refl, refl, refl) (level_medium, refl, refl, refl) (level_high, refl, refl, refl)
      (level_xhigh, refl, refl, refl)

level_budget-above : (b : ℕ) → b ≤ 32768 → b ≤ level_budget b
unfolding level_budget
level_budget-above b h = ground arith

-- A budget of 0 to 32768 tokens becomes a level, which stands for the least budget of all levels that is
-- not below it, and that budget becomes the same level again. The budget is rounded up in this way also
-- where the level below it is the closer one.
pub convert_budget_to_level-least :
    (b d : ℕ) (other : Text)
    → b ≤ 32768
    → convert_level_to_budget other ≡ some (pos d)
    → b ≤ d
    → (level : Text) × (n : ℕ) × (convert_budget_to_level (pos b) ≡ some level)
      × (convert_level_to_budget level ≡ some (pos n))
      × (convert_budget_to_level (pos n) ≡ some level)
      × (b ≤ n)
      × (n ≤ d)
unfolding convert_level_to_budget
convert_budget_to_level-least b d other h e below =
    let (level, there, budget, again) = level_of b in
    (
      level,
      level_budget b,
      there,
      budget,
      again,
      level_budget-above b h,
      budget_of_word-least (to_lower (trim_space other)) b d h e below,
    )
