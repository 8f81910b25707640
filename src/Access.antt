-- ===== src/Access.antt =====
-- internal/access: who may use the gateway. Providers are asked one after the other; the static one
-- compares the credential of a request with its keys.
pub mod Chain
pub mod Keys
use aistudio_gemini_gateway.Base.{
  ℕ, Bool, true, false, not, ◌||◌, Option, none, some, List, [], ◌∷◌, ◌++◌, Text, bytes, nat_eq,
  text_eq, ◌==◌, is_empty, trim_space, equal_fold, take, drop, length, ltb, if◌then◌else◌, Map,
  lookup, insert, Result, ok, err, ◌>>◌, require,
}
use aistudio_gemini_gateway.Common.{
  unique_non_empty_strings, normalize_header_names, normalize_query_names,
}

-- A code is a string; any other one is kept as `other_code`.
pub data AuthErrorCode : Type 0 where
  no_credentials invalid_credential not_handled internal_error : AuthErrorCode
  other_code : Text → AuthErrorCode

pub record AuthError : Type 0 where
  pub code : AuthErrorCode
  pub message : Text
  pub status_code : ℕ
  pub cause : Option Text

unfoldable pub new_auth_error : AuthErrorCode → Text → ℕ → Option Text → AuthError
new_auth_error code message status_code cause = record {
  code = code;
  message = trim_space message;
  status_code = status_code;
  cause = cause;
}

unfoldable pub new_no_credentials_error : AuthError
new_no_credentials_error = new_auth_error no_credentials (bytes "missing API key") 401 none

unfoldable pub new_invalid_credential_error : AuthError
new_invalid_credential_error = new_auth_error invalid_credential (bytes "invalid API key") 401 none

unfoldable pub new_not_handled_error : AuthError
new_not_handled_error =
    new_auth_error not_handled (bytes "authentication provider did not handle request") 0 none

unfoldable pub http_status_code : AuthError → ℕ
http_status_code e = if e.status_code == 0 then 500 else e.status_code

-- What is read of a request: its header by canonical keys, and its query.
pub record HttpRequest : Type 0 where
  pub header : Map Text (List Text)
  pub query : Map Text (List Text)

pub record ExtractedCredential : Type 0 where
  pub value : Text
  pub source : Text
  pub name : Text

pub record ExtractionOptions : Type 0 where
  pub allow_bearer : Bool
  pub header_names : List Text
  pub query_names : List Text

abbrev pub all_values : Option (List Text) → List Text
all_values none = []
all_values (some values) = values

abbrev pub first_value : List Text → Text
first_value [] = []
first_value (value ∷ _) = value

-- The first value that is not blank, trimmed.
unfoldable pub first_filled : List Text → Option Text
first_filled [] = none
first_filled (value ∷ values) =
    if is_empty (trim_space value) then first_filled values else some (trim_space value)

abbrev pub found_in :
    Text → Text → Option Text → Option ExtractedCredential → Option ExtractedCredential
found_in source name none other = other
found_in source name (some value) other =
    some record { value = value; source = source; name = name }

unfoldable pub first_named : Text → (Text → List Text) → List Text → Option ExtractedCredential
first_named source values [] = none
first_named source values (name ∷ names) =
    found_in source name (first_filled (values name)) (first_named source values names)

abbrev pub or_else {ℓ} : {A : Type ℓ} → Option A → Option A → Option A
or_else none other = other
or_else (some a) other = some a

-- The token after "bearer ", in any case.
unfoldable pub bearer_of : Text → Text
bearer_of value =
    if ltb (length value) 7
    then []
    else if equal_fold (take 7 value) (bytes "bearer ")
    then trim_space (drop 7 value)
    else []

unfoldable pub extract_bearer_token : Text → Text
extract_bearer_token header_value = bearer_of (trim_space header_value)

-- What authentication tells of a request that it lets in.
pub record AuthResult : Type 0 where
  pub provider : Text
  pub principal : Text
  pub credential_source : Text
  pub credential_name : Text

-- A provider is a function of the request; `none` is a nil provider.
abbrev pub AuthProvider : Type 0
AuthProvider = Option (Option HttpRequest → Result AuthError AuthResult)

abbrev pub last_error : Bool → AuthError
last_error invalid = if invalid then new_invalid_credential_error else new_no_credentials_error

abbrev pub is_invalid : AuthErrorCode → Bool
is_invalid invalid_credential = true
is_invalid _ = false

abbrev pub is_final : AuthErrorCode → Bool
is_final internal_error = true
is_final (other_code _) = true
is_final _ = false

-- The loop over the providers, which an error of another kind ends; `invalid` tells whether one refused the credential.
unfoldable pub authenticate_loop :
    Option HttpRequest → List AuthProvider → Bool → Result AuthError AuthResult
authenticate_loop r [] invalid = err (last_error invalid)
authenticate_loop r (none ∷ providers) invalid = authenticate_loop r providers invalid
authenticate_loop r (some provider ∷ providers) invalid = elim (provider r) [
  | ok result ↦ ok result
  | err e ↦
      let rest = authenticate_loop r providers (invalid || is_invalid e.code) in
      if is_final e.code then err e else rest
]

abbrev pub let_in : Result AuthError AuthResult → Result AuthError (Option AuthResult)
let_in (ok result) = ok (some result)
let_in (err e) = err e

-- Manager.Authenticate: with no providers every request is let in, and there is no result.
unfoldable pub manager_authenticate :
    List AuthProvider → Option HttpRequest → Result AuthError (Option AuthResult)
manager_authenticate [] r = ok none
manager_authenticate (provider ∷ providers) r =
    let_in (authenticate_loop r (provider ∷ providers) false)

pub record StaticKeyProviderConfig : Type 0 where
  pub name : Text
  pub keys : List Text
  pub options : ExtractionOptions

pub record StaticKeyProvider : Type 0 where
  pub name : Text
  pub options : ExtractionOptions
  pub keys : Map Text Text

abbrev pub has_any_name : List Text → Bool
has_any_name [] = false
has_any_name (_ ∷ _) = true

-- `canonical` is textproto.CanonicalMIMEHeaderKey, `fingerprint` common.ShortFingerprint, which hashes.
module _ (canonical fingerprint : Text → Text) where
  unfoldable pub normalize_extraction_options : ExtractionOptions → ExtractionOptions
  normalize_extraction_options opts = record opts {
    header_names = normalize_header_names canonical opts.header_names;
    query_names = normalize_query_names opts.query_names;
  }

  abbrev pub header_values : HttpRequest → Text → List Text
  header_values r name = all_values (lookup (canonical name) r.header)

  unfoldable pub bearer_credential : HttpRequest → Option ExtractedCredential
  bearer_credential r =
      let token = extract_bearer_token (first_value (header_values r (bytes "Authorization"))) in
      if is_empty token
      then none
      else some record {
        value = token;
        source = bytes "authorization_bearer";
        name = bytes "Authorization";
      }

  unfoldable pub extract_normalized : HttpRequest → ExtractionOptions → Option ExtractedCredential
  extract_normalized r opts = or_else (if opts.allow_bearer then bearer_credential r else none) (
      or_else (first_named (bytes "header") (header_values r) opts.header_names)
        (first_named (bytes "query") (λ name. all_values (lookup name r.query)) opts.query_names))

  unfoldable pub extract_credential :
      Option HttpRequest → ExtractionOptions → Option ExtractedCredential
  extract_credential none opts = none
  extract_credential (some r) opts = extract_normalized r (normalize_extraction_options opts)

  unfoldable pub key_map : List Text → Map Text Text
  key_map [] = []
  key_map (key ∷ keys) = insert key (bytes "key:" ++ fingerprint key) (key_map keys)

  abbrev pub provider_name : Text → Text
  provider_name name = if is_empty (trim_space name) then bytes "static-key" else trim_space name

  abbrev pub has_source : ExtractionOptions → Bool
  has_source opts =
      opts.allow_bearer || has_any_name opts.header_names || has_any_name opts.query_names

  -- The texts of the errors; `quoted` is fmt's verb %q.
  abbrev pub no_key_text : (Text → Text) → Text → Text
  no_key_text quoted name =
      bytes "static key provider " ++ quoted name ++ bytes " requires at least one key"

  abbrev pub no_source_text : (Text → Text) → Text → Text
  no_source_text quoted name =
      bytes "static key provider " ++ quoted name ++ bytes " has no extraction sources configured"

  abbrev pub provider_of : StaticKeyProviderConfig → StaticKeyProvider
  provider_of cfg = record {
    name = provider_name cfg.name;
    options = normalize_extraction_options cfg.options;
    keys = key_map (unique_non_empty_strings cfg.keys false);
  }

  unfoldable pub new_static_key_provider :
      (Text → Text) → StaticKeyProviderConfig → Result Text StaticKeyProvider
  new_static_key_provider quoted cfg =
      require (has_any_name (unique_non_empty_strings cfg.keys false))
        (no_key_text quoted (provider_name cfg.name))
      >> require (has_source (normalize_extraction_options cfg.options))
          (no_source_text quoted (provider_name cfg.name))
      >> ok (provider_of cfg)

  abbrev pub admit :
      StaticKeyProvider → ExtractedCredential → Option Text → Result AuthError AuthResult
  admit p cred none = err new_invalid_credential_error
  admit p cred (some principal) = ok record {
    provider = p.name;
    principal = principal;
    credential_source = cred.source;
    credential_name = cred.name;
  }

  unfoldable pub static_authenticate :
      StaticKeyProvider → Option HttpRequest → Result AuthError AuthResult
  static_authenticate p r = elim (extract_credential r p.options) [
    | none ↦ err new_no_credentials_error
    | some cred ↦ admit p cred (lookup cred.value p.keys)
  ]
