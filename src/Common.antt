-- ===== src/Common.antt =====
-- internal/common/clone.go: lists of names without blanks and without a second copy.
use aistudio_gemini_gateway.Base.{
  Bool, false, ◌||◌, List, [], ◌∷◌, Text, text_eq, ◌==◌, is_empty, trim_space, to_lower,
  if◌then◌else◌,
}

abbrev pub is_seen : Text → List Text → Bool
is_seen key [] = false
is_seen key (other ∷ seen) = other == key || is_seen key seen

-- The loop that the three functions share: what an item becomes, what it is known by, and what was seen.
unfoldable pub unique_loop : (Text → Text) → (Text → Text) → List Text → List Text → List Text
unique_loop clean known seen [] = []
unique_loop clean known seen (item ∷ items) =
    let name = clean item in
    let skip = unique_loop clean known seen items in
    let keep = unique_loop clean known (known name ∷ seen) items in
    if is_empty name || is_seen (known name) seen then skip else name ∷ keep

unfoldable pub unique_non_empty_strings : List Text → Bool → List Text
unique_non_empty_strings items case_insensitive =
    unique_loop trim_space (λ s. if case_insensitive then to_lower s else s) [] items

-- `canonical` is textproto.CanonicalMIMEHeaderKey.
unfoldable pub normalize_header_names : (Text → Text) → List Text → List Text
normalize_header_names canonical items =
    unique_loop (λ item. canonical (trim_space item)) to_lower [] items

unfoldable pub normalize_query_names : List Text → List Text
normalize_query_names items = unique_loop (λ item. to_lower (trim_space item)) (λ s. s) [] items
