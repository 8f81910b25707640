-- ===== src/Service/Provider.antt =====
-- service/types.go: actions, runtime providers and their life-cycle events.
-- A deep copy of an immutable value is the value, so the `Clone` methods leave no trace here.
-- `Extra` and `Capabilities` are carried by the program and read by no operation modelled here.
use aistudio_gemini_gateway.Base.{
  ℕ, ◌≡◌, ◌↔◌, Bool, true, false, List, arith, Text, bytes, text_beq, text_beq_iff, Map, Eq, ℤ,
}

pub data Action : Type 0 where
  generate_content stream_generate_content count_tokens : Action

-- Any other string is kept as `other`: `ProviderState` is a string type.
pub data ProviderState : Type 0 where
  active cooling disabled disconnected : ProviderState
  other : Text → ProviderState

abbrev pub is_valid_state : ProviderState → Bool
is_valid_state (other _) = false
is_valid_state _ = true

abbrev pub is_cooling : ProviderState → Bool
is_cooling cooling = true
is_cooling _ = false

abbrev pub state_text : ProviderState → Text
state_text active = bytes "active"
state_text cooling = bytes "cooling"
state_text disabled = bytes "disabled"
state_text disconnected = bytes "disconnected"
state_text (other s) = s

abbrev pub state_beq : ProviderState → ProviderState → Bool
state_beq active active = true
state_beq cooling cooling = true
state_beq disabled disabled = true
state_beq disconnected disconnected = true
state_beq (other s) (other t) = text_beq s t
state_beq _ _ = false

pub state_beq_iff : (a b : ProviderState) → (state_beq a b ≡ true) ↔ (a ≡ b)
state_beq_iff (other s) (other t) =
    ((λ h. ground (arith, text_beq_iff s t)), λ h. ground (arith, text_beq_iff s t))
state_beq_iff active b = ground arith
state_beq_iff cooling b = ground arith
state_beq_iff disabled b = ground arith
state_beq_iff disconnected b = ground arith
state_beq_iff (other s) active = ground arith
state_beq_iff (other s) cooling = ground arith
state_beq_iff (other s) disabled = ground arith
state_beq_iff (other s) disconnected = ground arith

instance abbrev pub state_eq : Eq ProviderState
state_eq = record { equals = state_beq; equals_iff = state_beq_iff }

pub record ProviderMetadata : Type 0 where
  pub provider_type : Text
  pub request_headers : Map Text Text
  pub attributes : Map Text Text

-- A time is in nanoseconds since Go's zero time, which is 0 and for which `IsZero` holds.
pub record RuntimeProvider : Type 0 where
  pub id : Text
  pub connection_id : Text
  pub label : Text
  pub state : ProviderState
  pub priority : ℤ
  pub connected_at : ℕ
  pub last_seen_at : ℕ
  pub cooldown_until : ℕ
  pub tags : List Text
  pub metadata : ProviderMetadata

pub data ProviderEventType : Type 0 where
  connected disconnected replaced state_changed : ProviderEventType

-- The values that the registry puts into an event's metadata.
pub data MetaValue : Type 0 where
  text : Text → MetaValue
  time : ℕ → MetaValue

pub record ProviderEvent : Type 0 where
  pub type : ProviderEventType
  pub provider : RuntimeProvider
  pub at : ℕ
  pub message : Text
  pub metadata : Map Text MetaValue
