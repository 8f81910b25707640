-- ===== src/Pipeline/StreamAdapter/Events.antt =====
-- Events that are written as a stream are read back, wherever the stream is cut into chunks.
use aistudio_gemini_gateway.Base.{
  ◌≡◌, ◌∙◌, ◌≢◌, refl, sym, ap, subst, false, some, List, [], ◌∷◌, ◌++◌, Text, bytes, text_eq,
  nat_eq, ◌==◌, is_empty, trim_space, trim_left, is_space, has_prefix, All, arith, ne→==_false,
  trim_right_of_trimmed, trim_right-suffix,
}
use aistudio_gemini_gateway.Pipeline.StreamAdapter.{
  looks_like_sse_payload, split_lines, join_lines, parse_lines, parse_sse_frame, cut_frame,
  feed_buffer,
}
use aistudio_gemini_gateway.Pipeline.StreamAdapter.Framing.{feed_buffer-cut, feed_buffer-none}
use aistudio_gemini_gateway.Pipeline.StreamAdapter.Chunks.{
  HasNoReturn, HasNoReturn-append, feed_all, feed_all-joined, joined,
}

-- No line ends.
abbrev pub IsLine : Text → Type 0
IsLine [] = Unit
IsLine (c ∷ s) = (c ≢ b'\n') × (c ≢ b'\r') × IsLine s

-- What an event may carry: one line with no white space around it, which is not the end mark.
pub record IsPayload (payload : Text) : Type 0 where
  pub line : IsLine payload
  pub trimmed : trim_space payload ≡ payload
  pub given : is_empty payload ≡ false
  pub not_done : (payload == bytes "[DONE]") ≡ false

abbrev pub frame_of : Text → Text
frame_of payload = bytes "data: " ++ payload

-- The events as a stream.
abbrev pub written : List Text → Text
written [] = []
written (payload ∷ payloads) = frame_of payload ++ b'\n' ∷ b'\n' ∷ written payloads

IsLine-HasNoReturn : (s : Text) → IsLine s → HasNoReturn s
IsLine-HasNoReturn [] h = tt
IsLine-HasNoReturn (c ∷ s) (_, p, h) = (p, IsLine-HasNoReturn s h)

written-HasNoReturn :
    (payloads : List Text) → All IsPayload payloads → HasNoReturn (written payloads)
written-HasNoReturn [] h = tt
written-HasNoReturn (payload ∷ payloads) (p, h) =
    HasNoReturn-append (frame_of payload) (b'\n' ∷ b'\n' ∷ written payloads)
      (HasNoReturn-append (bytes "data: ") payload (omega arith)
        (IsLine-HasNoReturn payload p.line))
      (omega arith, (omega arith, written-HasNoReturn payloads h))

cut_frame-line :
    (line rest : Text) → IsLine line → cut_frame (line ++ b'\n' ∷ b'\n' ∷ rest) ≡ some (line, rest)
unfolding cut_frame
cut_frame-line [] rest h = refl
cut_frame-line (c ∷ s) rest (p, _, h) =
    rw (cut_frame, ne→==_false c b'\n' p, cut_frame-line s rest h) refl

split_lines-line : (line : Text) → IsLine line → split_lines line ≡ line ∷ []
unfolding split_lines
split_lines-line [] h = refl
split_lines-line (c ∷ s) (p, _, h) =
    rw (split_lines, ne→==_false c b'\n' p, split_lines-line s h) refl

frame_of-trimmed :
    (payload : Text) → IsPayload payload → trim_space (frame_of payload) ≡ frame_of payload
unfolding trim_space trim_left is_space
frame_of-trimmed payload p =
    trim_right-suffix (bytes "data: ") payload (trim_right_of_trimmed payload p.trimmed) p.given

part-trimmed : (payload : Text) → IsPayload payload → trim_space (b' ' ∷ payload) ≡ payload
unfolding trim_space trim_left is_space
part-trimmed payload p = p.trimmed

IsLine-append : (s t : Text) → IsLine s → IsLine t → IsLine (s ++ t)
IsLine-append [] t h k = k
IsLine-append (c ∷ s) t (p, q, h) k = (p, q, IsLine-append s t h k)

frame_of-IsLine : (payload : Text) → IsPayload payload → IsLine (frame_of payload)
frame_of-IsLine payload p = IsLine-append (bytes "data: ") payload (omega arith) p.line

parse_sse_frame-frame_of :
    (payload : Text) → IsPayload payload → parse_sse_frame (frame_of payload) ≡ some payload
unfolding parse_sse_frame looks_like_sse_payload parse_lines has_prefix join_lines
parse_sse_frame-frame_of payload p =
    rw
      (
        parse_sse_frame,
        frame_of-trimmed payload p,
        split_lines-line (frame_of payload) (frame_of-IsLine payload p),
      )
      one_line
  where
    one_line : parse_lines (frame_of payload ∷ []) [] ≡ some payload
    one_line =
        rw (parse_lines, frame_of-trimmed payload p, part-trimmed payload p, p.given, p.not_done)
          refl

feed_buffer-written :
    (payloads : List Text)
    → All IsPayload payloads
    → feed_buffer (written payloads) ≡ (payloads, [])
unfolding cut_frame
feed_buffer-written [] h = feed_buffer-none [] refl
feed_buffer-written (payload ∷ payloads) (p, h) =
    feed_buffer-cut _ (frame_of payload) (written payloads)
      (cut_frame-line (frame_of payload) (written payloads) (frame_of-IsLine payload p))
    ∙ rw (parse_sse_frame-frame_of payload p, feed_buffer-written payloads h) refl

-- Events, each written as a line of data and an empty line, come out of the decoder one by one, in their
-- order, and nothing is left in its buffer, wherever the stream is cut into chunks. This is for payloads
-- of one line, not blank, with no white space around them, none of them the mark of the end.
pub feed_all-written :
    (payloads chunks : List Text)
    → All IsPayload payloads
    → joined chunks ≡ written payloads
    → feed_all [] chunks ≡ (payloads, [])
unfolding cut_frame
feed_all-written payloads chunks h same =
    feed_all-joined [] chunks (subst HasNoReturn (sym same) (written-HasNoReturn payloads h)) refl
    ∙ ap feed_buffer same
    ∙ feed_buffer-written payloads h
