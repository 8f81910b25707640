-- ===== src/Pipeline/Attempts/Rotating.antt =====
-- The loop of the attempts on the gateway's own registry with the strategy round robin, and the names that
-- are left to try. The executor's answers are a parameter.
use aistudio_gemini_gateway.Base.{
  ℕ, suc, ◌≤◌, ◌<◌, ◌≡◌, refl, ap, inl, inr, true, false, not, List, [], ◌∷◌, Text, Map, Result,
  Bool-cases, All, All-sort_stable, All-of_sort_stable, All-map, is_empty, length, keep_if, map,
  text_eq, nat_eq, ◌==◌, ==_iff, ==_refl, arith, if-intro,
}
use aistudio_gemini_gateway.Service.Provider.{RuntimeProvider}
use aistudio_gemini_gateway.Service.Errors.{GatewayError}
use aistudio_gemini_gateway.Registry.State.{Registry}
use aistudio_gemini_gateway.Registry.Transitions.{list, listed_before, values}
use aistudio_gemini_gateway.Selector.Candidates.{normalize_id, normalize_tried, is_member}
use aistudio_gemini_gateway.Selector.{Request, RoundRobin, round_robin_select}
use aistudio_gemini_gateway.Pipeline.{apply_provider_cooldown}
use aistudio_gemini_gateway.Pipeline.Attempts.{Environment}

pub record Rotating : Type 0 where
  pub registry : Registry
  pub turns : RoundRobin

-- The loop on the registry with the strategy round robin; the caller waits.
abbrev pub rotating :
    {R : Type 0}
    → ℕ
    → ℕ
    → Request
    → (RuntimeProvider → Result GatewayError R)
    → Environment Rotating R
rotating configured now req answer = record {
  list_selectable = λ w. list w.registry;
  select = λ w ps tried. (
    record w { turns = (round_robin_select now req ps tried w.turns).0 },
    (round_robin_select now req ps tried w.turns).1,
  );
  execute = λ w p. (w, answer p);
  cool_down =
      λ w p e. record w { registry = apply_provider_cooldown configured now p e w.registry };
  is_done = λ w. false;
}

-- How many of the names are left to try.
abbrev pub left_of : List Text → List Text → ℕ
left_of tried names = length (keep_if (λ name. not (is_member name tried)) names)

left_of-le :
    (id : Text) (tried names : List Text) → left_of (id ∷ tried) names ≤ left_of tried names
left_of-le id tried [] = omega arith
left_of-le id tried (name ∷ names) = elim (Bool-cases (id == name)) [
  | inl same ↦ rw same (elim (Bool-cases (is_member name tried)) [
    | inl was ↦ rw was (left_of-le id tried names)
    | inr fresh ↦ rw fresh (omega (arith, left_of-le id tried names))
  ])
  | inr other ↦ rw other (elim (Bool-cases (is_member name tried)) [
    | inl was ↦ rw was (left_of-le id tried names)
    | inr fresh ↦ rw fresh (omega (arith, left_of-le id tried names))
  ])
]

pub left_of-lt :
    (id : Text) (tried names : List Text)
    → is_member id names ≡ true
    → is_member id tried ≡ false
    → left_of (id ∷ tried) names < left_of tried names
left_of-lt id tried [] among fresh = absurd cc
left_of-lt id tried (name ∷ names) among fresh = elim (Bool-cases (name == id)) [
  | inl same ↦
      let e : name ≡ id = (==_iff name id).0 same in
      rw (e, ==_refl id, fresh) (omega (arith, left_of-le id tried names))
  | inr other ↦
      let there : is_member id names ≡ true = rw other at among in
      let back : (id == name) ≡ false = ground (arith, other, ==_iff id name, ==_iff name id) in
      rw back (elim (Bool-cases (is_member name tried)) [
        | inl was ↦ rw was (left_of-lt id tried names there fresh)
        | inr new ↦ rw new (omega (arith, left_of-lt id tried names there fresh))
      ])
]

pub left_of-all : (names : List Text) → left_of [] names ≤ length names
left_of-all [] = omega arith
left_of-all (name ∷ names) = omega (arith, left_of-all names)

-- The tried ids are normalized, so the selector sees them as they are.
pub is_member-normalized :
    (id : Text) (tried : List Text)
    → All (λ t. normalize_id t ≡ t) tried
    → is_member id tried ≡ false
    → is_member id (normalize_tried tried) ≡ false
is_member-normalized id [] h fresh = refl
is_member-normalized id (t ∷ ts) (same, h) fresh = elim (Bool-cases (t == id)) [
  | inl found ↦ absurd (let k : true ≡ false = rw found at fresh in (cc))
  | inr other ↦
      let rest = is_member-normalized id ts h (rw other at fresh) in
      rw same
        (if-intro (λ ids. is_member id ids ≡ false) (is_empty t) (λ _. rest) (λ _. rw other rest))
]

All-values :
    (P : RuntimeProvider → Type 0) (m : Map Text RuntimeProvider)
    → All (λ entry. P entry.1) m
    → All P (values m)
All-values P [] h = tt
All-values P (entry ∷ m) (p, h) = (p, All-values P m h)

All-of_values :
    (P : RuntimeProvider → Type 0) (m : Map Text RuntimeProvider)
    → All P (values m)
    → All (λ entry. P entry.1) m
All-of_values P [] h = tt
All-of_values P (entry ∷ m) (p, h) = (p, All-of_values P m h)

pub All-list :
    (P : RuntimeProvider → Type 0) (r : Registry)
    → All (λ entry. P entry.1) r.providers
    → All P (list r)
unfolding list
All-list P r h = All-sort_stable listed_before P (values r.providers) (All-values P r.providers h)

pub All-of_list :
    (P : RuntimeProvider → Type 0) (r : Registry)
    → All P (list r)
    → All (λ entry. P entry.1) r.providers
unfolding list
All-of_list P r h =
    All-of_values P r.providers (All-of_sort_stable listed_before P (values r.providers) h)

abbrev pub names_of : List RuntimeProvider → List Text
names_of = map (λ p. normalize_id p.id)

pub is_member-names :
    (ps : List RuntimeProvider) → All (λ p. is_member (normalize_id p.id) (names_of ps) ≡ true) ps
is_member-names [] = tt
is_member-names (p ∷ ps) = (
  rw (==_refl (normalize_id p.id)) refl,
  All-map (λ q. is_member (normalize_id q.id) (names_of ps) ≡ true)
      (λ q. is_member (normalize_id q.id) (names_of (p ∷ ps)) ≡ true) (λ q h. ground (arith, h)) ps
      (is_member-names ps),
)

pub length-names : (ps : List RuntimeProvider) → length (names_of ps) ≡ length ps
length-names [] = refl
length-names (p ∷ ps) = ap suc (length-names ps)
