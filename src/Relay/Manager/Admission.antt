-- ===== src/Relay/Manager/Admission.antt =====
-- Who gets through a handshake.
use aistudio_gemini_gateway.Base.{
  some, List, is_empty, trim_space, Bool-cases, inl, inr, ap, ◌∙◌, ℕ, ◌≡◌, refl, sym, ok-injective,
  Bool, true, false, Option, Text, bytes, text_eq, ◌==◌, equal_fold, Result, ok, err, >>=-eq-ok,
  require,
}
use aistudio_gemini_gateway.Service.Provider.{RuntimeProvider}
use aistudio_gemini_gateway.Access.{AuthError, AuthResult, AuthProvider, manager_authenticate}
use aistudio_gemini_gateway.Relay.Manager.{
  Manager, Handshake, Settings, Refusal, method_not_allowed, not_found, origin_not_allowed,
  manager_path, passes_origin, authenticated, refused, provider_from, handle_websocket, upgraded,
  connect, fill_provider,
}

refused-eq-ok :
    (x : Result AuthError (Option AuthResult)) (auth : Option AuthResult)
    → refused x ≡ ok auth
    → x ≡ ok auth
refused-eq-ok (ok a) auth e = cc
refused-eq-ok (err failure) auth e = absurd (cc)

required : (b : Bool) (e : Refusal) (u : Unit {0}) → require b e ≡ ok u → b ≡ true
required true e u h = refl
required false e u h = absurd (cc)

-- What the steps of a handshake that changes the manager gave.
handle_websocket-steps :
    (settings : Settings) (drawn_id connection_id : Text) (now : ℕ)
    (upgrade : Result Text (Unit {0})) (h : Handshake) (m after : Manager)
    → handle_websocket settings drawn_id connection_id now upgrade h m ≡ ok after
    → (equal_fold h.method (bytes "GET") ≡ true)
      × ((h.path == manager_path settings.path) ≡ true)
      × (passes_origin settings.origin_check h ≡ true)
      × ((auth : Option AuthResult) × (given : RuntimeProvider) × (authenticated settings.access h
            ≡ ok auth)
          × (provider_from settings.provider_factory h auth ≡ ok given)
          × (after ≡ connect (fill_provider drawn_id connection_id now auth given) m))
unfolding handle_websocket
handle_websocket-steps settings drawn_id connection_id now upgrade h m after done =
    let (_, get, a) =
      >>=-eq-ok (require (equal_fold h.method (bytes "GET")) method_not_allowed) _ done in
    let (_, path, b) = >>=-eq-ok (require (h.path == manager_path settings.path) not_found) _ a in
    let (_, origin, c) =
      >>=-eq-ok (require (passes_origin settings.origin_check h) origin_not_allowed) _ b in
    let (auth, passed, d) = >>=-eq-ok (refused (authenticated settings.access h)) _ c in
    let (given, drawn, e) = >>=-eq-ok (provider_from settings.provider_factory h auth) _ d in
    let (_, _, f) = >>=-eq-ok (upgraded upgrade) _ e in
    (
      required _ _ _ get,
      required _ _ _ path,
      required _ _ _ origin,
      (auth, given, refused-eq-ok _ auth passed, drawn, sym (ok-injective f)),
    )

fill_provider-given :
    (drawn_id connection_id : Text) (now : ℕ) (auth : Option AuthResult) (given : RuntimeProvider)
    → is_empty (trim_space drawn_id) ≡ false
    → is_empty (trim_space (fill_provider drawn_id connection_id now auth given).id) ≡ false
unfolding fill_provider
fill_provider-given drawn_id connection_id now auth given drawn =
    elim (Bool-cases (is_empty (trim_space given.id))) [
      | inl blank ↦ rw (fill_provider, blank) drawn
      | inr named ↦ rw (fill_provider, named) named
    ]

-- Where an origin check and access providers are set, a handshake that changes the manager was a GET on
-- the manager's path, its origin passed the check, and the access manager let its request in; what has
-- connected is a provider with an id that is not blank, if the one that is drawn is not, with the
-- connection id that was made for this connection, and with the time of the connection.
pub handle_websocket-admitted :
    (settings : Settings) (check : Option Text → Bool) (providers : List AuthProvider)
    (drawn_id connection_id : Text) (now : ℕ) (upgrade : Result Text (Unit {0})) (h : Handshake)
    (m after : Manager)
    → settings.origin_check ≡ some check
    → settings.access ≡ some providers
    → is_empty (trim_space drawn_id) ≡ false
    → handle_websocket settings drawn_id connection_id now upgrade h m ≡ ok after
    → (equal_fold h.method (bytes "GET") ≡ true)
      × ((h.path == manager_path settings.path) ≡ true)
      × (check (some h.origin) ≡ true)
      × ((auth : Option AuthResult) × (manager_authenticate providers (some h.request) ≡ ok auth))
      × ((p : RuntimeProvider) × (after ≡ connect p m)
          × (is_empty (trim_space p.id) ≡ false)
          × (p.connection_id ≡ connection_id)
          × (p.connected_at ≡ now))
unfolding fill_provider
handle_websocket-admitted settings check providers drawn_id connection_id now upgrade h m after
      checks asks drawn done =
    let (get, path, passed, (auth, given, let_in, _, joined)) =
      handle_websocket-steps settings drawn_id connection_id now upgrade h m after done in
    (
      get,
      path,
      ap (λ o. passes_origin o h) (sym checks) ∙ passed,
      (auth, ap (λ a. authenticated a h) (sym asks) ∙ let_in),
      (
        fill_provider drawn_id connection_id now auth given,
        joined,
        fill_provider-given drawn_id connection_id now auth given drawn,
        refl,
        refl,
      ),
    )
