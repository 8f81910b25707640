-- ===== src/Access/Keys.antt =====
-- The static provider lets in exactly those who show one of its keys.
use aistudio_gemini_gateway.Base.{
  ◌≡◌, ◌∙◌, refl, sym, ap, subst, Bool, true, false, ◌||◌, Option, none, some, List, [], ◌∷◌, ◌++◌,
  Text, bytes, text_eq, ◌==◌, ==_iff, is_empty, trim_space, lookup, lookup-insert, if-intro,
  Bool-cases, Option-cases, Result, ok, err, ok-injective, inl, inr, arith,
}
use aistudio_gemini_gateway.Common.{is_seen, unique_loop, unique_non_empty_strings}
use aistudio_gemini_gateway.Access.{
  HttpRequest, ExtractedCredential, ExtractionOptions, found_in, first_filled, first_named, or_else,
  bearer_credential, extract_normalized, extract_credential, extract_bearer_token,
  StaticKeyProviderConfig, StaticKeyProvider, key_map, new_static_key_provider, admit, has_any_name,
  has_source, no_key_text, no_source_text, provider_name, provider_of, static_authenticate,
  normalize_extraction_options,
}

-- One of the keys, trimmed, is the value.
abbrev pub is_listed : List Text → Text → Bool
is_listed [] value = false
is_listed (key ∷ keys) value = trim_space key == value || is_listed keys value

skip_case :
    (a m e l : Bool) → (a || m) ≡ (a || l) → (e ≡ true → a ≡ true) → (a || m) ≡ (a || (e || l))
skip_case true m e l h k = refl
skip_case false m true l h k = absurd (let c = k refl in (cc))
skip_case false m false l h k = h

keep_case : (a m e l : Bool) → ((e || a) || m) ≡ ((e || a) || l) → (a || (e || m)) ≡ (a || (e || l))
keep_case true m e l h = refl
keep_case false m true l h = refl
keep_case false m false l h = h

unique_loop-is_listed :
    (keys seen : List Text) (value : Text)
    → is_empty value ≡ false
    → (is_seen value seen || is_seen value (unique_loop trim_space (λ s. s) seen keys))
      ≡ (is_seen value seen || is_listed keys value)
unfolding unique_loop
unique_loop-is_listed [] seen value given = refl
unique_loop-is_listed (key ∷ keys) seen value given =
    elim (Bool-cases (is_empty (trim_space key) || is_seen (trim_space key) seen)) [
      | inl skip ↦
          rw (unique_loop, skip)
            (skip_case (is_seen value seen) _ (trim_space key == value) (is_listed keys value)
              (unique_loop-is_listed keys seen value given)
              (λ same. seen_before (trim_space key) ((==_iff (trim_space key) value).0 same) skip))
      | inr keep ↦
          rw (unique_loop, keep)
            (keep_case (is_seen value seen) _ (trim_space key == value) (is_listed keys value)
              (unique_loop-is_listed keys (trim_space key ∷ seen) value given))
    ]
  where
    seen_before :
        (name : Text)
        → name ≡ value
        → (is_empty name || is_seen name seen) ≡ true
        → is_seen value seen ≡ true
    seen_before name same skip =
        ground (arith, same, skip, given, ap is_empty same, ap (λ n. is_seen n seen) same)

abbrev AllFilled : Option Text → Type 0
AllFilled none = Unit
AllFilled (some value) = is_empty value ≡ false

first_filled-filled : (values : List Text) → AllFilled (first_filled values)
unfolding first_filled
first_filled-filled [] = tt
first_filled-filled (value ∷ values) = elim (Bool-cases (is_empty (trim_space value))) [
  | inl blank ↦ rw (first_filled, blank) (first_filled-filled values)
  | inr given ↦ rw (first_filled, given) given
]

abbrev is_some {ℓ} : {A : Type ℓ} → Option A → Bool
is_some none = false
is_some (some _) = true

abbrev pub is_ok {ℓ} : {A : Type ℓ} {E : Type 0} → Result E A → Bool
is_ok (ok _) = true
is_ok (err _) = false

module _ (canonical fingerprint : Text → Text) where
  key_map-is_seen :
      (keys : List Text) (value : Text)
      → is_some (lookup value (key_map canonical fingerprint keys)) ≡ is_seen value keys
  unfolding key_map lookup
  key_map-is_seen [] value = refl
  key_map-is_seen (key ∷ keys) value =
      ap is_some (
        lookup-insert key value (bytes "key:" ++ fingerprint key)
          (key_map canonical fingerprint keys))
      ∙ elim (Bool-cases (key == value)) [
        | inl same ↦ rw same refl
        | inr other ↦ rw other (key_map-is_seen keys value)
      ]

  -- Every credential that is extracted has a value.
  abbrev Filled : Option ExtractedCredential → Type 0
  Filled none = Unit
  Filled (some cred) = is_empty cred.value ≡ false

  found_in-Filled :
      (source name : Text) (o : Option Text) (other : Option ExtractedCredential)
      → AllFilled o
      → Filled other
      → Filled (found_in source name o other)
  found_in-Filled source name none other h k = k
  found_in-Filled source name (some value) other h k = h

  first_named-Filled :
      (source : Text) (values : Text → List Text) (names : List Text)
      → Filled (first_named source values names)
  unfolding first_named
  first_named-Filled source values [] = tt
  first_named-Filled source values (name ∷ names) =
      found_in-Filled source name (first_filled (values name)) _ (first_filled-filled (values name))
        (first_named-Filled source values names)

  or_else-Filled :
      (o other : Option ExtractedCredential) → Filled o → Filled other → Filled (or_else o other)
  or_else-Filled none other h k = k
  or_else-Filled (some cred) other h k = h

  bearer_credential-Filled : (r : HttpRequest) → Filled (bearer_credential canonical fingerprint r)
  unfolding bearer_credential
  bearer_credential-Filled r =
      if-intro Filled (is_empty (extract_bearer_token _)) (λ _. tt) (λ given. given)

  extract_credential-Filled :
      (r : Option HttpRequest) (opts : ExtractionOptions)
      → Filled (extract_credential canonical fingerprint r opts)
  unfolding extract_credential extract_normalized normalize_extraction_options
  extract_credential-Filled none opts = tt
  extract_credential-Filled (some r) opts =
      or_else-Filled _ _
        (if-intro Filled opts.allow_bearer (λ _. bearer_credential-Filled r) (λ _. tt))
        (or_else-Filled _ _ (first_named-Filled _ _ _) (first_named-Filled _ _ _))

  -- Whether a credential was found that one of the keys matches.
  abbrev pub shows : List Text → Option ExtractedCredential → Bool
  shows keys none = false
  shows keys (some cred) = is_listed keys cred.value

  admit-is_ok :
      (p : StaticKeyProvider) (cred : ExtractedCredential) (o : Option Text)
      → is_ok (admit canonical fingerprint p cred o) ≡ is_some o
  admit-is_ok p cred none = refl
  admit-is_ok p cred (some principal) = refl

  key_map-is_listed :
      (keys : List Text) (value : Text)
      → is_empty value ≡ false
      → is_some (lookup value (key_map canonical fingerprint (unique_non_empty_strings keys false)))
        ≡ is_listed keys value
  unfolding unique_non_empty_strings
  key_map-is_listed keys value given =
      key_map-is_seen (unique_loop trim_space (λ s. s) [] keys) value
      ∙ unique_loop-is_listed keys [] value given

  made_keys :
      (quoted : Text → Text) (cfg : StaticKeyProviderConfig) (p : StaticKeyProvider)
      → new_static_key_provider canonical fingerprint quoted cfg ≡ ok p
      → p.keys ≡ key_map canonical fingerprint (unique_non_empty_strings cfg.keys false)
  unfolding new_static_key_provider
  made_keys quoted cfg p made =
      elim (Bool-cases (has_any_name (unique_non_empty_strings cfg.keys false))) [
        | inr bare ↦ absurd (
            let e : err (
                  no_key_text canonical fingerprint quoted
                    (provider_name canonical fingerprint cfg.name))
                ≡ ok p =
              rw bare at made in
            (cc))
        | inl given ↦
            elim (Bool-cases (
              has_source canonical fingerprint
                (normalize_extraction_options canonical fingerprint cfg.options))) [
                  | inr closed ↦ absurd (
                      let e : err (
                            no_source_text canonical fingerprint quoted
                              (provider_name canonical fingerprint cfg.name))
                          ≡ ok p =
                        rw (given, closed) at made in
                      (cc))
                  | inl open_source ↦
                      let e : ok (provider_of canonical fingerprint cfg) ≡ ok p =
                        rw (given, open_source) at made in
                      sym (ap (λ (q : StaticKeyProvider). q.keys) (ok-injective e))
                ]
      ]

  -- A static provider that was made from a configuration lets a request in exactly if the first
  -- credential that it finds in the request, of the bearer token, the headers and the query in this order,
  -- is one of the configured keys with the white space around them trimmed; there is no such credential
  -- in a nil request.
  pub static_authenticate-shows :
      (quoted : Text → Text) (cfg : StaticKeyProviderConfig) (p : StaticKeyProvider)
      (r : Option HttpRequest)
      → new_static_key_provider canonical fingerprint quoted cfg ≡ ok p
      → is_ok (static_authenticate canonical fingerprint p r)
        ≡ shows cfg.keys (extract_credential canonical fingerprint r p.options)
  unfolding static_authenticate
  static_authenticate-shows quoted cfg p r made =
      let keys : p.keys ≡ key_map canonical fingerprint (unique_non_empty_strings cfg.keys false) =
        made_keys quoted cfg p made in
      elim (Option-cases (extract_credential canonical fingerprint r p.options)) [
        | inl nothing ↦ rw (static_authenticate, nothing) refl
        | inr (cred, found) ↦
            rw (static_authenticate, found)
              (admit-is_ok p cred (lookup cred.value p.keys)
                ∙ ap (λ m. is_some (lookup cred.value m)) keys
                ∙ key_map-is_listed cfg.keys cred.value
                    (subst Filled found (extract_credential-Filled r p.options)))
      ]
