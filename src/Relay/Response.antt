-- ===== src/Relay/Response.antt =====
-- internal/wsrelay/http.go: the response that `NonStream` puts together, and the events of `Stream`.
pub mod Collected
pub mod Endings
use aistudio_gemini_gateway.Base.{
  ℕ, zero, suc, ◌+◌, ◌-◌, Bool, true, false, not, ◌&&◌, ◌||◌, Option, none, some, List, [], ◌∷◌,
  ◌++◌, Text, Map, ℤ, pos, negsuc, nat_eq, text_eq, bytes, is_empty, lookup, insert, length, ltb,
  leb, Result, ok, err, if◌then◌else◌, ◌==◌, map,
}
use aistudio_gemini_gateway.Relay.Message.{
  Message, MessageType, http_response, stream_start, stream_chunk, stream_end, error, HeaderValue,
  one, many, neither, Field, text, number, headers,
}

-- `http.Header`: by their canonical keys, with the values in order.
abbrev pub Header : Type 0
Header = Map Text (List Text)

pub record HttpResponse : Type 0 where
  pub status : ℤ
  pub headers : Header
  pub body : Text

pub record RelayError : Type 0 where
  pub message : Text
  pub status : ℤ

-- Why there is no response: the provider's error, or one of the relay itself.
pub data Failure : Type 0 where
  relay : RelayError → Failure
  canceled bootstrap_timeout closed_unexpectedly stream_closed : Failure

pub data StreamEvent : Type 0 where
  started : ℤ → Header → StreamEvent
  chunk : Text → StreamEvent
  ended : StreamEvent
  failed : Failure → StreamEvent
  responded : ℤ → Header → Text → StreamEvent

unfoldable pub numeric_to_int : Option Field → Option ℤ
numeric_to_int (some (number n)) = some n
numeric_to_int _ = none

abbrev pub positive : Option ℤ → Option ℤ
positive (some (pos (suc n))) = some (pos (suc n))
positive _ = none

abbrev pub body_field : Option Field → Text
body_field (some (text b)) = b
body_field _ = []

-- The canonical form of a key is a parameter: it is that of net/textproto.
module _ (canonical : Text → Text) where
  unfoldable pub add_header : Text → Text → Header → Header
  add_header key value h = elim (lookup (canonical key) h) [
    | none ↦ insert (canonical key) (value ∷ []) h
    | some values ↦ insert (canonical key) (values ++ value ∷ []) h
  ]

  unfoldable pub set_header : Text → Text → Header → Header
  set_header key value h = insert (canonical key) (value ∷ []) h

  unfoldable pub add_all : Text → List (Option Text) → Header → Header
  unfolding add_header
  add_all key [] h = h
  add_all key (none ∷ vs) h = add_all key vs h
  add_all key (some v ∷ vs) h = add_all key vs (add_header key v h)

  unfoldable pub decode_headers : Map Text HeaderValue → Header → Header
  unfolding set_header add_all
  decode_headers [] h = h
  decode_headers ((key, one v) ∷ m) h = decode_headers m (set_header key v h)
  decode_headers ((key, many vs) ∷ m) h = decode_headers m (add_all key vs h)
  decode_headers ((key, neither) ∷ m) h = decode_headers m h

  abbrev pub header_field : Option Field → Header
  header_field (some (headers m)) = decode_headers m []
  header_field _ = []

  unfoldable pub decode_response : Map Text Field → HttpResponse
  unfolding numeric_to_int
  decode_response payload = record {
    status = elim (positive (numeric_to_int (lookup (bytes "status") payload))) [
      | none ↦ pos 200
      | some n ↦ n
    ];
    headers = header_field (lookup (bytes "headers") payload);
    body = body_field (lookup (bytes "body") payload);
  }

abbrev pub text_field : Option Field → Option Text
text_field (some (text t)) = some t
text_field _ = none

unfoldable pub decode_chunk : Map Text Field → Text
decode_chunk payload = elim (text_field (lookup (bytes "data") payload)) [
  | some data_text ↦ data_text
  | none ↦ body_field (lookup (bytes "body") payload)
]

unfoldable pub decode_error : Map Text Field → RelayError
unfolding numeric_to_int
decode_error payload = record {
  message =
      let given = body_field (lookup (bytes "error") payload) in
      if is_empty given then bytes "wsrelay upstream error" else given;
  status = elim (numeric_to_int (lookup (bytes "status") payload)) [ none ↦ pos 0 | some n ↦ n ];
}

abbrev pub empty_response : HttpResponse
empty_response = record { status = pos 200; headers = []; body = [] }

-- The variables of the loop of `NonStreamWithBootstrap`.
pub record Assembly : Type 0 where
  pub stream_mode : Bool
  pub stream_response : Option HttpResponse
  pub body : Text
  pub first_packet : Bool

abbrev pub fresh_assembly : Assembly
fresh_assembly = record {
  stream_mode = false;
  stream_response = none;
  body = [];
  first_packet = false;
}

-- What the loop may see next.
pub data Packet : Type 0 where
  message : Message → Packet
  context_ends bootstrap_fires channel_closed : Packet

-- A turn of the loop of `Stream`: the caller's context ends; the channel is closed; or a message comes in.
-- The flag says whether the event for it is taken, or the context ends before that.
pub data Turn : Type 0 where
  context_over : Turn
  closed_with : Bool → Turn
  incoming : Message → Bool → Turn

module _ (canonical : Text → Text) where
  unfoldable pub on_message :
      MessageType → Map Text Field → Assembly → Result (Result Failure HttpResponse) Assembly
  unfolding decode_response decode_chunk decode_error
  on_message http_response payload st =
      let resp = decode_response canonical payload in
      err (
        ok (
          if st.stream_mode && not (is_empty st.body) && is_empty resp.body
          then record resp { body = st.body }
          else resp))
  on_message error payload st = err (err (relay (decode_error payload)))
  on_message stream_start payload st = ok (record st {
    stream_mode = true;
    stream_response = some (decode_response canonical payload);
    body = [];
  })
  on_message stream_chunk payload st = ok (record st {
    stream_mode = true;
    stream_response = if st.stream_mode then st.stream_response else some empty_response;
    body = st.body ++ decode_chunk payload;
  })
  on_message stream_end payload st =
      if st.stream_mode
      then (elim st.stream_response [
        | none ↦ err (ok (record empty_response { body = st.body }))
        | some resp ↦ err (ok (record resp { body = st.body }))
      ])
      else err (ok empty_response)
  on_message _ payload st = ok st

  -- One turn of the loop; `timed` says whether there is a time limit for the first packet.
  unfoldable pub on_packet :
      Bool → Packet → Assembly → Result (Result Failure HttpResponse) Assembly
  unfolding on_message
  on_packet timed context_ends st = err (err canceled)
  on_packet timed bootstrap_fires st =
      if timed && not st.first_packet then err (err bootstrap_timeout) else ok st
  on_packet timed channel_closed st = err (err closed_unexpectedly)
  on_packet timed (message msg) st =
      on_message msg.type msg.payload (record st { first_packet = true })

  -- The loop over what it sees: the outcome, or none while it waits for more.
  unfoldable pub non_stream : Bool → List Packet → Assembly → Option (Result Failure HttpResponse)
  unfolding on_packet
  non_stream timed [] st = none
  non_stream timed (p ∷ ps) st = elim (on_packet timed p st) [
    | err outcome ↦ some outcome
    | ok st' ↦ non_stream timed ps st'
  ]

  -- What `Stream` passes on of a message, and whether it is the last.
  unfoldable pub stream_event : MessageType → Map Text Field → Option (StreamEvent × Bool)
  unfolding decode_response decode_chunk decode_error
  stream_event stream_start payload = some (
    started (decode_response canonical payload).status (decode_response canonical payload).headers,
    false,
  )
  stream_event stream_chunk payload = some (chunk (decode_chunk payload), false)
  stream_event stream_end payload = some (ended, true)
  stream_event error payload = some (failed (relay (decode_error payload)), true)
  stream_event http_response payload =
      let resp = decode_response canonical payload in
      some (responded resp.status resp.headers resp.body, true)
  stream_event _ payload = none

  -- The events of `Stream`, whose goroutine closes the channel of events after the last of them, or still
  -- waits when the turns are used up.
  unfoldable pub stream : List Turn → List StreamEvent
  unfolding stream_event
  stream [] = []
  stream (context_over ∷ ts) = []
  stream (closed_with sent ∷ ts) = if sent then failed stream_closed ∷ [] else []
  stream (incoming msg sent ∷ ts) =
      let rest = stream ts in
      elim (stream_event msg.type msg.payload) [
        | none ↦ rest
        | some e ↦ if sent then (if e.1 then e.0 ∷ [] else e.0 ∷ rest) else []
      ]
