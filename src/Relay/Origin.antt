-- ===== src/Relay/Origin.antt =====
-- internal/wsrelay/origin.go: which origins may open a web socket.
pub mod Matcher
pub mod Admission
use aistudio_gemini_gateway.Base.{
  ℕ, zero, suc, ◌*◌, Bool, true, false, not, ◌&&◌, ◌||◌, Option, none, some, List, [], ◌∷◌, Text,
  bytes, nat_eq, text_eq, ◌==◌, is_empty, trim_space, to_lower, contains, length, drop,
  if◌then◌else◌,
}

-- strings.TrimSuffix(s, "/")
unfoldable pub trim_slash : Text → Text
trim_slash [] = []
trim_slash (c ∷ s) = let rest = trim_slash s in if c == b'/' && is_empty s then [] else c ∷ rest

unfoldable pub normalize_origin : Text → Text
unfolding trim_slash
normalize_origin origin = to_lower (trim_slash (trim_space origin))

unfoldable pub only_stars : Text → Bool
only_stars [] = true
only_stars (c ∷ p) = c == b'*' && only_stars p

-- The pattern after the last star and the origin from `matchIdx` on, once `starIdx` is set.
abbrev pub Restart : Type 0
Restart = Option (Text × Text)

-- A mismatch: nothing to go back to, or the star takes one more byte.
unfoldable pub go_back : Restart → (Text → Text → Restart → Option Bool) → Option Bool
go_back none next = some false
go_back (some (after_star, from)) next =
    next after_star (drop 1 from) (some (after_star, drop 1 from))

-- The loop, on what is left of the pattern and of the origin; `none` when the fuel is spent.
unfoldable pub match_loop : ℕ → Text → Text → Restart → Option Bool
unfolding go_back only_stars
match_loop zero p s back = none
match_loop (suc fuel) p [] back = some (only_stars p)
match_loop (suc fuel) [] (c ∷ s) back = go_back back (match_loop fuel)
match_loop (suc fuel) (x ∷ p) (c ∷ s) back =
    let same = match_loop fuel p s back in
    let star = match_loop fuel p (c ∷ s) (some (p, c ∷ s)) in
    let other = go_back back (match_loop fuel) in
    if x == c then same else if x == b'*' then star else other

-- A loop over the bounds `|origin| + 1` and `|pattern| + 1` needs no more rounds than their product.
abbrev pub enough_fuel : Text → Text → ℕ
enough_fuel p s = suc (length s) * suc (length p)

abbrev pub is_match : Option Bool → Bool
is_match none = false
is_match (some b) = b

unfoldable pub match_normalized : Text → Text → Bool
unfolding match_loop
match_normalized pattern_text origin =
    if is_empty pattern_text || is_empty origin
    then false
    else if pattern_text == bytes "*"
    then true
    else is_match (match_loop (enough_fuel pattern_text origin) pattern_text origin none)

unfoldable pub match_origin_pattern : Text → Text → Bool
unfolding match_normalized normalize_origin
match_origin_pattern pattern_text origin =
    match_normalized (normalize_origin pattern_text) (normalize_origin origin)

unfoldable pub any_match : List Text → Text → Bool
unfolding match_origin_pattern
any_match [] origin = false
any_match (p ∷ patterns) origin = match_origin_pattern p origin || any_match patterns origin

unfoldable pub is_exact : List Text → Text → Bool
is_exact [] origin = false
is_exact (x ∷ exact) origin = x == origin || is_exact exact origin

unfoldable pub is_origin_allowed : Text → List Text → List Text → Bool
unfolding is_exact any_match
is_origin_allowed origin exact patterns =
    if is_empty origin then false else is_exact exact origin || any_match patterns origin

-- What the validator keeps of its configuration. Go's set of exact origins is a list here.
pub record Allowed : Type 0 where
  pub allow_any : Bool
  pub exact : List Text
  pub patterns : List Text

unfoldable pub sort_item : Text → Allowed → Allowed
unfolding contains
sort_item item a =
    if is_empty item
    then a
    else if item == bytes "*"
    then record a { allow_any = true }
    else if contains item (bytes "*")
    then record a { patterns = item ∷ a.patterns }
    else record a { exact = item ∷ a.exact }

unfoldable pub sort_items : List Text → Allowed
unfolding sort_item normalize_origin
sort_items [] = record { allow_any = false; exact = []; patterns = [] }
sort_items (item ∷ items) = sort_item (normalize_origin item) (sort_items items)

unfoldable pub effective_mode : Text → Text
effective_mode mode =
    let given = to_lower (trim_space mode) in
    if is_empty given then bytes "allow-missing" else given

-- The validator's answer for a request's Origin header, which is empty when it is missing; `none` is
-- the nil request.
unfoldable pub validate : Text → Allowed → Option Text → Bool
unfolding is_origin_allowed normalize_origin
validate mode a none =
    if a.allow_any || mode == bytes "any" then true else not (mode == bytes "strict")
validate mode a (some header) =
    let origin = normalize_origin header in
    if a.allow_any || mode == bytes "any"
    then true
    else if is_empty origin
    then not (mode == bytes "strict")
    else is_origin_allowed origin a.exact a.patterns

unfoldable pub new_origin_validator : Text → List Text → Option Text → Bool
unfolding effective_mode sort_items validate
new_origin_validator mode allowed_origins =
    validate (effective_mode mode) (sort_items allowed_origins)
