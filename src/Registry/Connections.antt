-- ===== src/Registry/Connections.antt =====
-- Registering and replacing connections.
use aistudio_gemini_gateway.Base.{
  ok-injective, sym, equal_fold, ◌==◌, ==_iff, length, leb, not, trim_space, require-eq-ok, ◌<◌,
  ◌⊎◌, >>=-eq-ok, ok, is_empty, ◌≤◌, text_eq, nat_eq, ℕ, ◌≡◌, refl, ◌∙◌, true, false, Option, none,
  some, Text, lookup, Option-cases, Bool-cases, arith, inl, inr, lookup-insert, if◌then◌else◌,
}
use aistudio_gemini_gateway.Service.Provider.{is_valid_state, RuntimeProvider, is_cooling}
use aistudio_gemini_gateway.Registry.State.{
  Registry, provider_map_key, stop_cooldown_timer, publish, sync_cooldown_timer,
}
use aistudio_gemini_gateway.Registry.{
  disconnect, keep_times, validate_provider_id, default_label, normalize_provider, fill_defaults,
  Registration, register, register_normalized, store, stored_or,
}
use aistudio_gemini_gateway.Registry.Invariant.{Inv, stored_key}

-- A cooling provider has a deadline.
abbrev HasDeadline : RuntimeProvider → Type 0
HasDeadline p = is_cooling p.state ≡ true → (p.cooldown_until == 0) ≡ false

fill_defaults-HasDeadline : (now : ℕ) (p : RuntimeProvider) → HasDeadline (fill_defaults now p)
unfolding fill_defaults
fill_defaults-HasDeadline now p = ground arith

lookup-store :
    (key k : Text) (p : RuntimeProvider) (r : Registry)
    → HasDeadline p
    → lookup k (store key p r).providers ≡ (if key == k then some p else lookup k r.providers)
unfolding store sync_cooldown_timer
lookup-store key k p r h = elim (Bool-cases (is_cooling p.state)) [
  | inl c ↦ rw (c, h c) (lookup-insert key k p r.providers)
  | inr idle ↦ rw idle (lookup-insert key k p r.providers)
]

stored_or-store :
    (key : Text) (p : RuntimeProvider) (r : Registry)
    → HasDeadline p
    → stored_or p key (store key p r) ≡ p
stored_or-store key p r h = rw (lookup-store key key p r h, (==_iff key key).1 refl, stored_or)

-- What is registered over what was there, and what the others see of it.
register_normalized-lookup :
    (now : ℕ) (p : RuntimeProvider) (r : Registry) (k : Text)
    → HasDeadline p
    → let done = register_normalized now p r in
      (lookup k done.registry.providers
        ≡ (if provider_map_key p.id == k then some done.current else lookup k r.providers))
      × (done.current.id ≡ p.id)
      × (done.current.connection_id ≡ p.connection_id)
unfolding register_normalized publish stop_cooldown_timer
register_normalized-lookup now p r k h = elim (Option-cases (lookup key r.providers)) [
  | inl e ↦
      rw (e, register_normalized, stored_or-store key p r h) (lookup-store key k p r h, refl, refl)
  | inr (old, e) ↦ elim (Bool-cases (old.connection_id == p.connection_id)) [
    | inl same ↦
        rw (e, register_normalized)
          (rw (same, stored_or-store key (keep_times old p) r h)
            (lookup-store key k (keep_times old p) r h, refl, refl))
    | inr other ↦
        rw (e, register_normalized)
          (rw (other, stored_or-store key p _ h) (lookup-store key k p _ h, refl, refl))
  ]
]
  where
    key : Text
    key = provider_map_key p.id

-- What the checks and defaults of `normalizeProvider` establish.
pub record IsNormalized (now : ℕ) (p : RuntimeProvider) : Type 0 where
  pub id_accepted : validate_provider_id p.id ≡ ok tt
  pub connected : is_empty p.connection_id ≡ false
  pub label_short : length p.label ≤ 256
  pub state_valid : is_valid_state p.state ≡ true
  pub deadline_ahead : is_cooling p.state ≡ true → now < p.cooldown_until
  pub seen : (now ≡ 0) ⊎ (0 < p.last_seen_at)

fill_defaults-IsNormalized :
    (now : ℕ) (p : RuntimeProvider)
    → validate_provider_id p.id ≡ ok tt
    → is_empty p.connection_id ≡ false
    → length p.label ≤ 256
    → IsNormalized now (fill_defaults now p)
unfolding fill_defaults
fill_defaults-IsNormalized now p a b c = record {
  id_accepted = a;
  connected = b;
  label_short = c;
  state_valid = ground arith;
  deadline_ahead = ground arith;
  seen = ground arith;
}

normalize_provider-IsNormalized :
    (now : ℕ) (o : Option RuntimeProvider) {p : RuntimeProvider}
    → normalize_provider o now ≡ ok p
    → IsNormalized now p × HasDeadline p
unfolding normalize_provider
normalize_provider-IsNormalized now none e = cc
normalize_provider-IsNormalized now (some o) {p} e =
    let (_, accepted, rest) = >>=-eq-ok (validate_provider_id out.id) _ e in
    let (named, rest') = require-eq-ok (not (is_empty out.connection_id)) _ _ rest in
    let (short, done) = require-eq-ok (leb (length labelled.label) 256) _ _ rest' in
    rw (← ok-injective done) (
      fill_defaults-IsNormalized now labelled (rw same_id accepted)
          (rw same_connection (ground arith)) (ground arith),
      fill_defaults-HasDeadline now labelled,
    )
  where
    out : RuntimeProvider
    out = record o {
      id = trim_space o.id;
      connection_id = trim_space o.connection_id;
      label = trim_space o.label;
    }

    labelled : RuntimeProvider
    labelled = default_label out

    same_id : labelled.id ≡ out.id
    same_id = ground arith

    same_connection : labelled.connection_id ≡ out.connection_id
    same_connection = ground arith

register-eq-ok :
    (now : ℕ) (o : Option RuntimeProvider) (r : Registry) (done : Registration)
    → register now o r ≡ ok done
    → (p : RuntimeProvider) × (normalize_provider o now ≡ ok p)
      × (register_normalized now p r ≡ done)
unfolding register
register-eq-ok now o r done e =
    let (p, normal, rest) = >>=-eq-ok (normalize_provider o now) _ e in
    (p, normal, ok-injective rest)

-- What a stored provider has of the one that was given: the ids and the label trimmed, with the id for a
-- blank label, and the priority.
abbrev pub Keeps : Option RuntimeProvider → RuntimeProvider → Type 0
Keeps none p = ⊥
Keeps (some given) p =
    (p.id ≡ trim_space given.id)
    × (p.connection_id ≡ trim_space given.connection_id)
    × (p.label ≡ (
        if is_empty (trim_space given.label) then trim_space given.id else trim_space given.label))
    × (p.priority ≡ given.priority)

register_normalized-replaced :
    (now : ℕ) (p old : RuntimeProvider) (r : Registry)
    → (register_normalized now p r).replaced ≡ some old
    → lookup (provider_map_key p.id) r.providers ≡ some old
unfolding register_normalized
register_normalized-replaced now p old r =
    elim (Option-cases (lookup (provider_map_key p.id) r.providers)) [
      | inl e ↦ rw (e, register_normalized) (λ h. cc)
      | inr (o, e) ↦ elim (Bool-cases (o.connection_id == p.connection_id)) [
        | inl same ↦ rw (e, register_normalized) (rw same (λ h. cc))
        | inr other ↦ rw (e, register_normalized) (rw other (λ h. h))
      ]
    ]

-- The disconnection of a connection that another one has replaced removes nothing: it comes under
-- the id of the old connection, which that of the new one is not, up to case.
pub replaced_disconnect_ignored :
    (now later : ℕ) (o : Option RuntimeProvider) (r : Registry) (done : Registration)
    → (old : RuntimeProvider) (cause : Option Text) → Inv r
    → register now o r ≡ ok done
    → done.replaced ≡ some old
    → is_empty (trim_space old.connection_id) ≡ false
    → equal_fold done.current.connection_id (trim_space old.connection_id) ≡ false
    → disconnect later old.id old.connection_id cause done.registry ≡ (done.registry, none)
unfolding disconnect
replaced_disconnect_ignored now later o r done old cause v e was named other =
    let (p, normal, same) = register-eq-ok now o r done e in
    let (_, h) = normalize_provider-IsNormalized now o normal in
    let before = register_normalized-replaced now p old r (rw same was) in
    let key = stored_key r (provider_map_key p.id) old v before in
    let (found, _, _) = register_normalized-lookup now p r (provider_map_key old.id) h in
    let current : lookup (provider_map_key old.id) done.registry.providers ≡ some done.current =
      rw (← same)
        (found ∙ rw ((==_iff (provider_map_key p.id) (provider_map_key old.id)).1 (sym key))) in
    elim (Bool-cases (is_empty (trim_space old.id))) [
      | inl blank ↦ rw blank
      | inr given ↦ rw (given, current, named, other)
    ]
