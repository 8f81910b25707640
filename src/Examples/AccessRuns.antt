-- ===== src/Examples/AccessRuns.antt =====
-- A request with a key.
use aistudio_gemini_gateway.Base.{
  ◌≡◌, refl, true, none, some, [], ◌∷◌, Text, bytes, text_eq, nat_eq, Option, Result, ok, err,
  trim_space, trim_left, trim_right, is_space,
}
use aistudio_gemini_gateway.Common.{
  unique_loop, unique_non_empty_strings, normalize_header_names, normalize_query_names,
}
use aistudio_gemini_gateway.Access.{
  HttpRequest, AuthError, AuthResult, StaticKeyProviderConfig, provider_of,
  new_invalid_credential_error, new_auth_error, extract_credential, static_authenticate,
  manager_authenticate, new_static_key_provider, normalize_extraction_options,
}
use aistudio_gemini_gateway.Access.Keys.{is_ok, shows, static_authenticate-shows}
use aistudio_gemini_gateway.Access.Chain.{manager_authenticate-first}

abbrev same : Text → Text
same s = s

abbrev one_key : StaticKeyProviderConfig
one_key = record {
  name = bytes "api";
  keys = bytes " k1 " ∷ [];
  options = record { allow_bearer = true; header_names = []; query_names = [] };
}

abbrev bearer_request : HttpRequest
bearer_request = record {
  header = (bytes "Authorization", bytes "Bearer k1" ∷ []) ∷ [];
  query = [];
}

static_authenticate-shows_example :
    is_ok (static_authenticate same same (provider_of same same one_key) (some bearer_request))
    ≡ shows same same one_key.keys
        (extract_credential same same (some bearer_request) (provider_of same same one_key).options)
unfolding new_static_key_provider normalize_extraction_options unique_non_empty_strings unique_loop
    normalize_header_names normalize_query_names trim_space trim_left trim_right is_space
static_authenticate-shows_example =
    static_authenticate-shows same same same one_key (provider_of same same one_key)
      (some bearer_request) refl

abbrev refusing : Option HttpRequest → Result AuthError AuthResult
refusing r = err new_invalid_credential_error

abbrev visitor : AuthResult
visitor = record {
  provider = bytes "api";
  principal = bytes "key:1";
  credential_source = bytes "header";
  credential_name = bytes "X-Api-Key";
}

abbrev admitting : Option HttpRequest → Result AuthError AuthResult
admitting r = ok visitor

manager_authenticate-first_example :
    manager_authenticate
      (none ∷ some refusing ∷ some admitting ∷ some refusing ∷ [])
      (some bearer_request)
    ≡ ok (some visitor)
unfolding new_invalid_credential_error new_auth_error
manager_authenticate-first_example =
    manager_authenticate-first (some bearer_request) (none ∷ some refusing ∷ [])
      (some refusing ∷ []) admitting (refl, (refl, tt)) refl
