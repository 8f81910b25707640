-- ===== src/Pipeline/StreamAdapter.antt =====
-- internal/pipeline/stream_adapter.go: events out of the chunks of a stream.
pub mod Framing
pub mod Chunks
pub mod Events
use aistudio_gemini_gateway.Base.{
  ℕ, zero, suc, Bool, true, false, not, ◌&&◌, ◌||◌, Option, none, some, List, [], ◌∷◌, ◌++◌, Text,
  bytes, nat_eq, text_eq, ◌==◌, is_empty, trim_space, has_prefix, map, drop, length, if◌then◌else◌,
}

abbrev pub starts_newline : Text → Bool
starts_newline [] = false
starts_newline (c ∷ _) = c == b'\n'

-- bytes.ReplaceAll of "\r\n" by "\n"
unfoldable pub replace_crlf : Text → Text
replace_crlf [] = []
replace_crlf (c ∷ s) =
    let rest = replace_crlf s in if c == b'\r' && starts_newline s then rest else c ∷ rest

unfoldable pub replace_cr : Text → Text
replace_cr = map (λ c. if c == b'\r' then b'\n' else c)

unfoldable pub normalize_sse_newlines : Text → Text
normalize_sse_newlines text = replace_cr (replace_crlf text)

unfoldable pub looks_like_sse_payload : Text → Bool
looks_like_sse_payload payload =
    if is_empty payload
    then false
    else has_prefix payload (bytes "data:")
      || has_prefix payload (bytes "event:")
      || has_prefix payload (bytes ":")

abbrev pub put_first : ℕ → List Text → List Text
put_first c [] = (c ∷ []) ∷ []
put_first c (line ∷ lines) = (c ∷ line) ∷ lines

-- bytes.Split at newlines
unfoldable pub split_lines : Text → List Text
split_lines [] = [] ∷ []
split_lines (c ∷ s) = let rest = split_lines s in if c == b'\n' then [] ∷ rest else put_first c rest

-- bytes.Join with newlines
unfoldable pub join_lines : List Text → Text
join_lines [] = []
join_lines (line ∷ []) = line
join_lines (line ∷ next ∷ lines) = line ++ b'\n' ∷ join_lines (next ∷ lines)

abbrev pub starts_json : Text → Bool
starts_json [] = false
starts_json (c ∷ _) = c == b'{' || c == b'['

abbrev pub is_none_yet : List Text → Bool
is_none_yet [] = true
is_none_yet (_ ∷ _) = false

abbrev pub data_of : List Text → Option Text
data_of [] = none
data_of (line ∷ lines) = some (join_lines (line ∷ lines))

abbrev pub push : List Text → Text → List Text
push lines line = lines ++ line ∷ []

-- The loop over the lines of a frame, with the data so far.
unfoldable pub parse_lines : List Text → List Text → Option Text
parse_lines [] data_lines = data_of data_lines
parse_lines (raw ∷ lines) data_lines =
    let line = trim_space raw in
    let part = trim_space (drop 5 line) in
    let go_on = parse_lines lines data_lines in
    let collect = parse_lines lines (push data_lines part) in
    if is_empty line || has_prefix line (bytes ":") || has_prefix line (bytes "event:")
    then go_on
    else if has_prefix line (bytes "data:")
    then (if is_empty part then go_on else if part == bytes "[DONE]" then none else collect)
    else if is_none_yet data_lines && starts_json line
    then some line
    else go_on

unfoldable pub parse_sse_frame : Text → Option Text
parse_sse_frame frame =
    let trimmed = trim_space frame in
    if is_empty trimmed
    then none
    else if looks_like_sse_payload trimmed
    then parse_lines (split_lines trimmed) []
    else some trimmed

abbrev pub grow : ℕ → Option (Text × Text) → Option (Text × Text)
grow c none = none
grow c (some (frame, rest)) = some (c ∷ frame, rest)

-- What stands before and after the first "\n\n".
unfoldable pub cut_frame : Text → Option (Text × Text)
cut_frame [] = none
cut_frame (c ∷ s) =
    if c == b'\n' && starts_newline s then some ([], drop 1 s) else grow c (cut_frame s)

abbrev pub add_payload : Option Text → List Text × Text → List Text × Text
add_payload none out = out
add_payload (some payload) (payloads, rest) = (payload ∷ payloads, rest)

-- The loop of Feed over the buffer: the payloads, and what is left of the buffer.
unfoldable pub feed_loop : ℕ → Text → List Text × Text
feed_loop zero buf = ([], buf)
feed_loop (suc fuel) buf = elim (cut_frame buf) [
  | none ↦ ([], buf)
  | some (frame, rest) ↦ add_payload (parse_sse_frame frame) (feed_loop fuel rest)
]

-- A round of the loop takes two bytes, at least, from the buffer.
unfoldable pub feed_buffer : Text → List Text × Text
feed_buffer buf = feed_loop (length buf) buf

-- The decoder's state is its buffer.
unfoldable pub feed : Text → Text → List Text × Text
feed buf chunk =
    if is_empty chunk then ([], buf) else feed_buffer (normalize_sse_newlines (buf ++ chunk))

unfoldable pub flush_trimmed : Text → List Text
flush_trimmed trimmed = if is_empty trimmed then [] else elim (parse_sse_frame trimmed) [
  | some payload ↦ payload ∷ []
  | none ↦ if starts_json trimmed then trimmed ∷ [] else []
]

-- Flush leaves an empty buffer.
unfoldable pub flush : Text → List Text
flush buf = flush_trimmed (trim_space buf)

unfoldable pub wrap_frames : List Text → List Text
wrap_frames [] = []
wrap_frames (frame ∷ frames) =
    let rest = wrap_frames frames in
    if is_empty (trim_space frame) then rest else trim_space frame ∷ rest

unfoldable pub has_buffered : Text → Bool
has_buffered buf = not (is_empty (trim_space buf))

-- geminiStreamAdapter: a decoder exists exactly in the SSE mode.
pub record StreamAdapter : Type 0 where
  pub use_sse : Bool
  pub buf : Text

unfoldable pub new_stream_adapter : Bool → StreamAdapter
new_stream_adapter use_sse = record { use_sse = use_sse; buf = [] }

unfoldable pub adapt_chunk : StreamAdapter → Text → List Text × StreamAdapter
adapt_chunk a payload =
    if is_empty payload
    then ([], a)
    else if not a.use_sse
    then (payload ∷ [], a)
    else if is_empty (trim_space payload)
    then ([], a)
    else if has_buffered a.buf || looks_like_sse_payload (trim_space payload)
    then (wrap_frames (feed a.buf payload).0, record a { buf = (feed a.buf payload).1 })
    else (wrap_frames (trim_space payload ∷ []), a)

unfoldable pub flush_adapter : StreamAdapter → List Text × StreamAdapter
flush_adapter a = if a.use_sse then (wrap_frames (flush a.buf), record a { buf = [] }) else ([], a)
