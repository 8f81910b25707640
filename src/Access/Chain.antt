-- ===== src/Access/Chain.antt =====
-- Which provider decides over a request.
use mathlib.Core.List.{append-nil}
use aistudio_gemini_gateway.Base.{
  ◌≡◌, ◌∙◌, refl, sym, ap, Bool, true, false, ◌||◌, Option, none, some, List, [], ◌∷◌, ◌++◌, All,
  Result, ok, err, Result-cases, inl, inr,
}
use aistudio_gemini_gateway.Access.{
  AuthError, AuthErrorCode, no_credentials, invalid_credential, not_handled, internal_error,
  other_code, HttpRequest, AuthResult, AuthProvider, last_error, is_invalid, is_final,
  authenticate_loop, let_in, manager_authenticate,
}

-- The errors that another provider may still make good are those of missing, invalid and not handled
-- credentials.
abbrev pub ends_chain : AuthErrorCode → Bool
ends_chain no_credentials = false
ends_chain invalid_credential = false
ends_chain not_handled = false
ends_chain internal_error = true
ends_chain (other_code _) = true

is_final-ends_chain : (code : AuthErrorCode) → is_final code ≡ ends_chain code
is_final-ends_chain no_credentials = refl
is_final-ends_chain invalid_credential = refl
is_final-ends_chain not_handled = refl
is_final-ends_chain internal_error = refl
is_final-ends_chain (other_code _) = refl

-- A success, or an error that ends the chain: any but missing, invalid and not handled credentials.
abbrev pub is_decision : Result AuthError AuthResult → Bool
is_decision (ok _) = true
is_decision (err e) = ends_chain e.code

abbrev pub is_refusal : Result AuthError AuthResult → Bool
is_refusal (ok _) = false
is_refusal (err e) = is_invalid e.code

or_assoc : (a b c : Bool) → ((a || b) || c) ≡ (a || (b || c))
or_assoc true b c = refl
or_assoc false b c = refl

module _ (r : Option HttpRequest) where
  abbrev pub decides : AuthProvider → Bool
  decides none = false
  decides (some provider) = is_decision (provider r)

  -- Whether one of the providers refuses the credential.
  abbrev pub any_refuses : List AuthProvider → Bool
  any_refuses [] = false
  any_refuses (none ∷ providers) = any_refuses providers
  any_refuses (some provider ∷ providers) = is_refusal (provider r) || any_refuses providers

  authenticate_loop-skip :
      (before after : List AuthProvider) (invalid : Bool)
      → All (λ p. decides p ≡ false) before
      → authenticate_loop r (before ++ after) invalid
        ≡ authenticate_loop r after (invalid || any_refuses before)
  unfolding authenticate_loop
  authenticate_loop-skip [] after true h = refl
  authenticate_loop-skip [] after false h = refl
  authenticate_loop-skip (none ∷ before) after invalid (_, h) =
      authenticate_loop-skip before after invalid h
  authenticate_loop-skip (some provider ∷ before) after invalid (p, h) =
      elim (Result-cases (provider r)) [
        | inl (e, failed) ↦
            let not_final : is_final e.code ≡ false =
              is_final-ends_chain e.code ∙ (rw failed at p) in
            rw (authenticate_loop, failed, not_final)
              (authenticate_loop-skip before after (invalid || is_invalid e.code) h
                ∙ ap (authenticate_loop r after)
                    (or_assoc invalid (is_invalid e.code) (any_refuses before)))
        | inr (result, passed) ↦ absurd (let k : true ≡ false = rw passed at p in (cc))
      ]

  decided :
      (x : Result AuthError AuthResult)
      → is_decision x ≡ true
      → (provider : Option HttpRequest → Result AuthError AuthResult) → provider r ≡ x
      → (after : List AuthProvider) (invalid : Bool)
      → authenticate_loop r (some provider ∷ after) invalid ≡ x
  unfolding authenticate_loop
  decided (ok result) d provider e after invalid = rw (authenticate_loop, e) refl
  decided (err failure) d provider e after invalid =
      rw (authenticate_loop, e, is_final-ends_chain failure.code ∙ d) refl

  manager_authenticate-loop :
      (before after : List AuthProvider) (p : AuthProvider)
      → manager_authenticate (before ++ p ∷ after) r
        ≡ let_in (authenticate_loop r (before ++ p ∷ after) false)
  unfolding manager_authenticate
  manager_authenticate-loop [] after p = refl
  manager_authenticate-loop (q ∷ before) after p = refl

-- The first provider that decides over a request, by letting it in or by an error other than missing,
-- invalid or not handled credentials, gives the answer, whatever those before it refused and those after
-- it would say.
pub manager_authenticate-first :
    (r : Option HttpRequest) (before after : List AuthProvider)
    (provider : Option HttpRequest → Result AuthError AuthResult)
    → All (λ p. decides r p ≡ false) before
    → is_decision (provider r) ≡ true
    → manager_authenticate (before ++ some provider ∷ after) r ≡ let_in (provider r)
manager_authenticate-first r before after provider h d =
    manager_authenticate-loop r before after (some provider)
    ∙ ap let_in (
        authenticate_loop-skip r before (some provider ∷ after) false h
        ∙ decided r (provider r) d provider refl after (any_refuses r before))

-- If there are providers and none decides, the request is refused: for an invalid credential if one of
-- them refused it as that, and for missing credentials otherwise.
pub manager_authenticate-undecided :
    (r : Option HttpRequest) (p : AuthProvider) (providers : List AuthProvider)
    → All (λ q. decides r q ≡ false) (p ∷ providers)
    → manager_authenticate (p ∷ providers) r ≡ err (last_error (any_refuses r (p ∷ providers)))
unfolding manager_authenticate authenticate_loop
manager_authenticate-undecided r p providers h = ap let_in (
    ap (λ l. authenticate_loop r l false) (sym (append-nil (p ∷ providers)))
    ∙ authenticate_loop-skip r (p ∷ providers) [] false h)
