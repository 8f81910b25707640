-- ===== src/Examples/OriginRuns.antt =====
-- An origin against a pattern.
use aistudio_gemini_gateway.Base.{
  ◌≡◌, ◌↔◌, refl, Bool, true, none, some, List, [], ◌∷◌, Text, bytes, text_eq, nat_eq, arith,
  to_lower, lower_byte, trim_space, trim_left, trim_right, is_space,
}
use aistudio_gemini_gateway.Relay.Origin.{
  new_origin_validator, normalize_origin, effective_mode, trim_slash, match_loop, enough_fuel,
}
use aistudio_gemini_gateway.Relay.Origin.Matcher.{Fits, match_loop-answers}
use aistudio_gemini_gateway.Relay.Origin.Admission.{Permits, new_origin_validator-Permits}

abbrev preview_hosts : List Text
preview_hosts = bytes "https://ai.studio" ∷ bytes "https://p-*.app" ∷ []

abbrev preview : Text
preview = bytes "https://P-7.app/"

new_origin_validator-Permits_example :
    (new_origin_validator (bytes "strict") preview_hosts (some preview) ≡ true)
    ↔ Permits preview_hosts (normalize_origin preview)
unfolding normalize_origin effective_mode to_lower lower_byte trim_space trim_left trim_right
    is_space trim_slash
new_origin_validator-Permits_example =
    new_origin_validator-Permits (bytes "strict") preview_hosts preview refl refl (omega arith) refl
      (refl, (refl, tt))

match_loop-answers_example :
    (b : Bool) × (match_loop
        (enough_fuel (bytes "a*c") (bytes "abcc"))
        (bytes "a*c")
        (bytes "abcc")
        none
      ≡ some b)
    × ((b ≡ true) ↔ Fits (bytes "a*c") (bytes "abcc"))
match_loop-answers_example = match_loop-answers (bytes "a*c") (bytes "abcc") (omega arith)
