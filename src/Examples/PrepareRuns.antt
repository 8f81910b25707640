-- ===== src/Examples/PrepareRuns.antt =====
-- Requests and the names of their models.
use aistudio_gemini_gateway.Base.{
  ◌≡◌, refl, none, some, [], ◌∷◌, bytes, text_eq, nat_eq, ◌==◌, arith, if◌then◌else◌, has_prefix,
  trim_space, trim_left, trim_right, is_space, to_lower, lower_byte,
}
use aistudio_gemini_gateway.Service.Provider.{generate_content}
use aistudio_gemini_gateway.Thinking.Suffix.{parse_suffix}
use aistudio_gemini_gateway.Thinking.Suffix.RoundTrip.{with_suffix}
use aistudio_gemini_gateway.Pipeline.Prepare.{
  StaticModel, Resolver, GatewayRequest, PreparedContext, normalize_model_name, prepared,
}
use aistudio_gemini_gateway.Pipeline.Prepare.Checked.{normalize_model_name-parse_suffix}

abbrev small_model : StaticModel
small_model = record {
  name = bytes "models/m";
  base_name = bytes "m";
  supported_actions = generate_content ∷ [];
}

abbrev one_model : Resolver
one_model name = if name == bytes "m" then some (bytes "m", small_model) else none

abbrev suffixed_request : GatewayRequest
suffixed_request = record {
  request_id = [];
  model = bytes "m(low)";
  action = none;
  alt = [];
  session_id = [];
  requested_at = 0;
}

abbrev prepared_context : PreparedContext
prepared_context =
    prepared (bytes "r1") 5 none suffixed_request generate_content (bytes "m") small_model

normalize_model_name-parse_suffix_example :
    normalize_model_name (with_suffix (bytes "m") (bytes "low"))
    ≡ (parse_suffix (with_suffix (bytes "m") (bytes "low"))).model_name
unfolding trim_space trim_left trim_right is_space to_lower lower_byte has_prefix
normalize_model_name-parse_suffix_example =
    normalize_model_name-parse_suffix (bytes "m") (bytes "low") refl refl refl (omega arith) refl
