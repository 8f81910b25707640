-- ===== src/Thinking.antt =====
-- internal/thinking: how much a model may think, from a suffix of its name or from the request's body.
pub mod Suffix
pub mod Levels
pub mod Limits
pub mod Validate
pub mod Body
pub mod Apply
use aistudio_gemini_gateway.Base.{Bool, List, Option, Text, bytes, ℤ, pos}

pub data ThinkingMode : Type 0 where
  mode_budget mode_level mode_none mode_auto : ThinkingMode

-- A ThinkingLevel is a string, and requests put any string there.
abbrev pub ThinkingLevel : Type 0
ThinkingLevel = Text

abbrev pub level_none : ThinkingLevel
level_none = bytes "none"

abbrev pub level_auto : ThinkingLevel
level_auto = bytes "auto"

abbrev pub level_minimal : ThinkingLevel
level_minimal = bytes "minimal"

abbrev pub level_low : ThinkingLevel
level_low = bytes "low"

abbrev pub level_medium : ThinkingLevel
level_medium = bytes "medium"

abbrev pub level_high : ThinkingLevel
level_high = bytes "high"

abbrev pub level_xhigh : ThinkingLevel
level_xhigh = bytes "xhigh"

abbrev pub level_max : ThinkingLevel
level_max = bytes "max"

pub record ThinkingConfig : Type 0 where
  pub mode : ThinkingMode
  pub budget : ℤ
  pub level : ThinkingLevel

-- Go's zero value, which asks for nothing.
abbrev pub no_config : ThinkingConfig
no_config = record { mode = mode_budget; budget = pos 0; level = bytes "" }

pub record ThinkingSupport : Type 0 where
  pub min : ℤ
  pub max : ℤ
  pub zero_allowed : Bool
  pub dynamic_allowed : Bool
  pub levels : List Text

-- service.ModelInfo, as far as thinking reads it.
pub record ModelInfo : Type 0 where
  pub name : Text
  pub base_name : Text
  pub supports_thinking : Bool
  pub thinking : Option ThinkingSupport
