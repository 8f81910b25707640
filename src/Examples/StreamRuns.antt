-- ===== src/Examples/StreamRuns.antt =====
-- Streams of events in chunks.
use aistudio_gemini_gateway.Base.{
  ◌≡◌, refl, List, [], ◌∷◌, ◌++◌, Text, bytes, arith, text_eq, nat_eq, trim_space, trim_left,
  trim_right, is_space, has_prefix,
}
use aistudio_gemini_gateway.Pipeline.StreamAdapter.{
  feed, feed_buffer, feed_loop, cut_frame, normalize_sse_newlines, replace_crlf, replace_cr,
  parse_sse_frame, looks_like_sse_payload, split_lines, parse_lines, join_lines,
}
use aistudio_gemini_gateway.Pipeline.StreamAdapter.Chunks.{feed_all}
use aistudio_gemini_gateway.Pipeline.StreamAdapter.Events.{IsPayload, feed_all-written}

abbrev two_events : List Text
two_events = bytes "{1}" ∷ bytes "{2}" ∷ []

abbrev newline : Text
newline = b'\n' ∷ []

abbrev three_chunks : List Text
three_chunks =
    bytes "data: {1" ∷ (b'}' ∷ b'\n' ∷ []) ∷ (b'\n' ∷ bytes "data: {2}") ∷ newline ∷ newline ∷ []

first-IsPayload : IsPayload (bytes "{1}")
unfolding trim_space trim_left trim_right is_space
first-IsPayload = record { line = omega arith; trimmed = refl; given = refl; not_done = refl }

second-IsPayload : IsPayload (bytes "{2}")
unfolding trim_space trim_left trim_right is_space
second-IsPayload = record { line = omega arith; trimmed = refl; given = refl; not_done = refl }

feed_all-written_example : feed_all [] three_chunks ≡ (two_events, [])
feed_all-written_example =
    feed_all-written two_events three_chunks (first-IsPayload, (second-IsPayload, tt)) refl

-- One event of two lines that end with "\r\n".
abbrev two_lines : Text
two_lines = b'\n' ∷ b'd' ∷ b'a' ∷ b't' ∷ b'a' ∷ b':' ∷ b'2' ∷ b'\r' ∷ b'\n' ∷ b'\r' ∷ b'\n' ∷ []

abbrev first_line : Text
first_line = b'd' ∷ b'a' ∷ b't' ∷ b'a' ∷ b':' ∷ b'1' ∷ b'\r' ∷ []

-- In one piece it is one event; cut between the two bytes it is two.
whole_event : feed_all [] ((first_line ++ two_lines) ∷ []) ≡ ((b'1' ∷ b'\n' ∷ b'2' ∷ []) ∷ [], [])
unfolding feed feed_buffer feed_loop cut_frame normalize_sse_newlines replace_crlf replace_cr
    parse_sse_frame looks_like_sse_payload split_lines parse_lines join_lines trim_space trim_left
    trim_right is_space has_prefix
whole_event = refl

split_event : feed_all [] (first_line ∷ two_lines ∷ []) ≡ ((b'1' ∷ []) ∷ (b'2' ∷ []) ∷ [], [])
unfolding feed feed_buffer feed_loop cut_frame normalize_sse_newlines replace_crlf replace_cr
    parse_sse_frame looks_like_sse_payload split_lines parse_lines join_lines trim_space trim_left
    trim_right is_space has_prefix
split_event = refl
