-- ===== src/Relay/Response/Collected.antt =====
-- `NonStream` is `Stream` with its events collected.
use aistudio_gemini_gateway.Base.{
  ◌≡◌, refl, inl, inr, Bool, true, false, not, ◌&&◌, Option, none, some, List, [], ◌∷◌, ◌++◌, map,
  Text, Map, Bool-cases, Option-cases, Result, ok, err, if◌then◌else◌, is_empty, ℤ, pos,
}
use aistudio_gemini_gateway.Relay.Message.{
  Message, MessageType, http_response, stream_start, stream_chunk, stream_end, error, Field,
}
use aistudio_gemini_gateway.Relay.Response.{
  Header, HttpResponse, Failure, StreamEvent, started, chunk, ended, failed, responded,
  stream_event, stream, Turn, incoming, Assembly, message, on_message, on_packet, non_stream,
  decode_response,
}

-- A message whose event the caller takes.
abbrev pub taken : Message → Turn
taken msg = incoming msg true

-- What a reader of the events holds: whether a stream has begun, its status and headers, and its body.
pub record Collector : Type 0 where
  pub begun : Bool
  pub head : Option (ℤ × Header)
  pub gathered : Text

abbrev pub whole : Option (ℤ × Header) → Text → HttpResponse
whole none b = record { status = pos 200; headers = []; body = b }
whole (some h) b = record { status = h.0; headers = h.1; body = b }

-- The response that the events amount to.
pub collect : List StreamEvent → Collector → Option (Result Failure HttpResponse)
collect [] c = none
collect (started status hs ∷ es) c =
    collect es (record { begun = true; head = some (status, hs); gathered = [] })
collect (chunk data_text ∷ es) c = collect es (record {
  begun = true;
  head = if c.begun then c.head else some (pos 200, []);
  gathered = c.gathered ++ data_text;
})
collect (ended ∷ es) c = some (ok (if c.begun then whole c.head c.gathered else whole none []))
collect (failed f ∷ es) c = some (err f)
collect (responded status hs b ∷ es) c = some (
    ok (
      whole (some (status, hs))
        (if c.begun && not (is_empty c.gathered) && is_empty b then c.gathered else b)))

abbrev pub head_of : Option HttpResponse → Option (ℤ × Header)
head_of none = none
head_of (some r) = some (r.status, r.headers)

abbrev pub view : Assembly → Collector
view st = record { begun = st.stream_mode; head = head_of st.stream_response; gathered = st.body }

module _ (canonical : Text → Text) where
  -- What a message of a type does to the response, and the event that it gives.
  Agrees : MessageType → Map Text Field → Assembly → List Message → Type 0
  Agrees type payload st ms =
      (elim (on_message canonical type payload st) [
        | err outcome ↦ some outcome
        | ok st' ↦ non_stream canonical false (map message ms) st'
      ])
      ≡ collect
          (elim (stream_event canonical type payload) [
            | none ↦ stream canonical (map taken ms)
            | some e ↦ if e.1 then e.0 ∷ [] else e.0 ∷ stream canonical (map taken ms)
          ])
          (view st)

  agree :
      (ms : List Message)
      → ((t : Assembly)
          → non_stream canonical false (map message ms) t
            ≡ collect (stream canonical (map taken ms)) (view t))
      → (type : MessageType) (payload : Map Text Field) (t : Assembly) → Agrees type payload t ms
  unfolding on_message stream_event collect Agrees
  agree ms ih http_response payload t =
      elim (Bool-cases (
        t.stream_mode
        && not (is_empty t.body)
        && is_empty (decode_response canonical payload).body)) [
          | inl e ↦ rw e refl
          | inr e ↦ rw e refl
        ]
  agree ms ih error payload t = refl
  agree ms ih stream_start payload t = ih _
  agree ms ih stream_chunk payload t = elim (Bool-cases t.stream_mode) [
    | inl e ↦ rw e (ih _)
    | inr e ↦ rw e (ih _)
  ]
  agree ms ih stream_end payload t = elim (Bool-cases t.stream_mode) [
    | inr e ↦ rw e refl
    | inl e ↦ elim (Option-cases t.stream_response) [
      | inl f ↦ rw (e, f) refl
      | inr (r, f) ↦ rw (e, f) refl
    ]
  ]
  agree ms ih _ payload t = ih t

  -- Without a time limit, the outcome of `NonStream` is that of collecting what `Stream` passes on of the
  -- same messages to a caller that takes each event, from any point of the way on.
  pub non_stream-collect :
      (ms : List Message) (st : Assembly)
      → non_stream canonical false (map message ms) st
        ≡ collect (stream canonical (map taken ms)) (view st)
  unfolding non_stream on_packet on_message stream stream_event collect Agrees
  non_stream-collect [] st = refl
  non_stream-collect (msg ∷ ms) st =
      agree ms (λ t. non_stream-collect ms t) msg.type msg.payload
        (record st { first_packet = true })
