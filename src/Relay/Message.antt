-- ===== src/Relay/Message.antt =====
-- internal/wsrelay/message.go: the messages of the protocol. A payload is JSON, as the decoder of the
-- socket's library gives it; of it the relay reads the fields that are here, by their names. A number
-- is a float64 there, and its integer part here.
use aistudio_gemini_gateway.Base.{Bool, true, false, Option, List, Text, Map, text_eq, ℤ}

pub data MessageType : Type 0 where
  http_request http_response stream_start stream_chunk stream_end error ping pong : MessageType
  unknown : Text → MessageType

unfoldable pub is_terminal : MessageType → Bool
is_terminal http_response = true
is_terminal stream_end = true
is_terminal error = true
is_terminal _ = false

-- A header's value: a string, a list that keeps its strings, or something else.
pub data HeaderValue : Type 0 where
  one : Text → HeaderValue
  many : List (Option Text) → HeaderValue
  neither : HeaderValue

pub data Field : Type 0 where
  text : Text → Field
  number : ℤ → Field
  headers : Map Text HeaderValue → Field
  something_else : Field

pub record Message : Type 0 where
  pub id : Text
  pub type : MessageType
  pub payload : Map Text Field
