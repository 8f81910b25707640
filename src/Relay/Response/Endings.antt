-- ===== src/Relay/Response/Endings.antt =====
-- A response needs its last message, and a stream has one last event.
use aistudio_gemini_gateway.Base.{
  ◌≡◌, ◌≢◌, refl, sym, ap, ◌∙◌, inl, inr, Bool, true, false, not, ◌&&◌, Option, some, List, [], ◌∷◌,
  ◌++◌, map, Text, Map, All, Option-cases, ok, err, Result-cases, if-intro,
}
use aistudio_gemini_gateway.Relay.Message.{
  Message, MessageType, http_response, stream_start, stream_chunk, stream_end, error, is_terminal,
  Field,
}
use aistudio_gemini_gateway.Relay.Response.Collected.{taken}
use aistudio_gemini_gateway.Relay.Response.{
  HttpResponse, StreamEvent, started, chunk, ended, failed, responded, stream_event, stream, Turn,
  context_over, closed_with, incoming, Assembly, Packet, message, context_ends, bootstrap_fires,
  channel_closed, on_message, on_packet, non_stream,
}

abbrev pub is_final : StreamEvent → Bool
is_final (started _ _) = false
is_final (chunk _) = false
is_final ended = true
is_final (failed _) = true
is_final (responded _ _ _) = true

-- The last event is final, and no other one.
abbrev pub EndsOnce : List StreamEvent → Type 0
EndsOnce [] = false ≡ true
EndsOnce (e ∷ []) = is_final e ≡ true
EndsOnce (e ∷ d ∷ es) = (is_final e ≡ false) × EndsOnce (d ∷ es)

EndsOnce-cons :
    (e : StreamEvent) (es : List StreamEvent) → is_final e ≡ false → EndsOnce es → EndsOnce (e ∷ es)
EndsOnce-cons e [] f h = absurd cc
EndsOnce-cons e (d ∷ es) f h = (f, h)

-- No event but the last is final.
abbrev pub IsCut : List StreamEvent → Type 0
IsCut [] = Unit
IsCut (e ∷ []) = Unit
IsCut (e ∷ d ∷ es) = (is_final e ≡ false) × IsCut (d ∷ es)

IsCut-cons :
    (e : StreamEvent) (es : List StreamEvent) → is_final e ≡ false → IsCut es → IsCut (e ∷ es)
IsCut-cons e [] f h = tt
IsCut-cons e (d ∷ es) f h = (f, h)

final_of :
    {d e : StreamEvent} {first last : Bool}
    → ◌≡◌ {A = Option (StreamEvent × Bool)} (some (d, first)) (some (e, last))
    → is_final d ≡ first
    → is_final e ≡ last
final_of {d} {e} {first} {last} h f =
    let g : ◌≡◌ {A = StreamEvent × Bool} (d, first) (e, last) = cc in
    ap (λ x. is_final x.0) (sym g) ∙ f ∙ ap (λ x. x.1) g

not-true : (b : Bool) → not b ≡ true → b ≡ false
not-true false h = refl
not-true true h = cc

module _ (canonical : Text → Text) where
  stream_event-is_final :
      (type : MessageType) (payload : Map Text Field) (e : StreamEvent) (last : Bool)
      → stream_event canonical type payload ≡ some (e, last)
      → is_final e ≡ last
  unfolding stream_event
  stream_event-is_final stream_start payload e last h = final_of h refl
  stream_event-is_final stream_chunk payload e last h = final_of h refl
  stream_event-is_final stream_end payload e last h = final_of h refl
  stream_event-is_final error payload e last h = final_of h refl
  stream_event-is_final http_response payload e last h = final_of h refl
  stream_event-is_final _ payload e last h = cc

  stream-IsCut : (ts : List Turn) → IsCut (stream canonical ts)
  unfolding stream
  stream-IsCut [] = tt
  stream-IsCut (context_over ∷ ts) = tt
  stream-IsCut (closed_with true ∷ ts) = tt
  stream-IsCut (closed_with false ∷ ts) = tt
  stream-IsCut (incoming msg false ∷ ts) =
      elim (Option-cases (stream_event canonical msg.type msg.payload)) [
        | inl e ↦ rw (stream, e) (stream-IsCut ts)
        | inr (d, e) ↦ rw (stream, e) tt
      ]
  stream-IsCut (incoming msg true ∷ ts) =
      elim (Option-cases (stream_event canonical msg.type msg.payload)) [
        | inl e ↦ rw (stream, e) (stream-IsCut ts)
        | inr ((d, last), e) ↦
            rw (stream, e)
              (let f = stream_event-is_final msg.type msg.payload d last e in
                if-intro IsCut last (λ t. tt)
                  (λ t. IsCut-cons d (stream canonical ts) (f ∙ t) (stream-IsCut ts)))
      ]

  stream-taken :
      (ms : List Message) → EndsOnce (stream canonical (map taken ms ++ closed_with true ∷ []))
  unfolding stream
  stream-taken [] = refl
  stream-taken (msg ∷ ms) = elim (Option-cases (stream_event canonical msg.type msg.payload)) [
    | inl e ↦ rw (stream, e) (stream-taken ms)
    | inr ((d, last), e) ↦
        rw (stream, e)
          (let f = stream_event-is_final msg.type msg.payload d last e in
            if-intro EndsOnce last (λ t. f ∙ t)
              (λ t.
                EndsOnce-cons d (stream canonical (map taken ms ++ closed_with true ∷ [])) (f ∙ t)
                  (stream-taken ms)))
  ]

  -- Whatever the provider sends before its channel is closed, `Stream` passes on to a caller that takes
  -- all of it events of which the last one is final, an end, an error or a whole response, and no other one
  -- is. However the channel and the caller's context end, nothing comes after a final event.
  pub stream-EndsOnce :
      (ms : List Message) (ts : List Turn)
      → EndsOnce (stream canonical (map taken ms ++ closed_with true ∷ []))
        × IsCut (stream canonical ts)
  stream-EndsOnce ms ts = (stream-taken ms, stream-IsCut ts)

  -- The packet cannot complete a response.
  abbrev pub is_unfinished : Packet → Bool
  is_unfinished (message msg) = not (is_terminal msg.type)
  is_unfinished _ = true

  on_message-unfinished :
      (type : MessageType) (payload : Map Text Field) (st : Assembly) (r : HttpResponse)
      → is_terminal type ≡ false
      → on_message canonical type payload st ≢ err (ok r)
  unfolding on_message is_terminal
  on_message-unfinished http_response payload st r u h = cc
  on_message-unfinished error payload st r u h = cc
  on_message-unfinished stream_end payload st r u h = cc
  on_message-unfinished stream_start payload st r u h = cc
  on_message-unfinished stream_chunk payload st r u h = cc
  on_message-unfinished _ payload st r u h = cc

  on_packet-unfinished :
      (timed : Bool) (p : Packet) (st : Assembly) (r : HttpResponse)
      → is_unfinished p ≡ true
      → on_packet canonical timed p st ≢ err (ok r)
  unfolding on_packet
  on_packet-unfinished timed (message msg) st r u =
      on_message-unfinished msg.type msg.payload (record st { first_packet = true }) r
        (not-true (is_terminal msg.type) u)
  on_packet-unfinished timed context_ends st r u = λ h. cc
  on_packet-unfinished timed bootstrap_fires st r u =
      if-intro (λ x. x ≢ err (ok r)) (timed && not st.first_packet) (λ _. λ h. cc) (λ _. λ h. cc)
  on_packet-unfinished timed channel_closed st r u = λ h. cc

  -- No response comes of packets of which none is a terminal message: not from a channel that is closed
  -- early, nor when the first packet or the caller's context is too late.
  pub non_stream-unfinished :
      (timed : Bool) (ps : List Packet) (st : Assembly) (r : HttpResponse)
      → All (λ p. is_unfinished p ≡ true) ps
      → non_stream canonical timed ps st ≢ some (ok r)
  unfolding non_stream
  non_stream-unfinished timed [] st r u = λ h. cc
  non_stream-unfinished timed (p ∷ ps) st r u =
      elim (Result-cases (on_packet canonical timed p st)) [
        | inr (st', e) ↦ rw (non_stream, e) (non_stream-unfinished timed ps st' r u.1)
        | inl (outcome, e) ↦
            rw (non_stream, e)
              (λ h.
                let f : outcome ≡ ok r = cc in on_packet-unfinished timed p st r u.0 (e ∙ ap err f))
      ]
