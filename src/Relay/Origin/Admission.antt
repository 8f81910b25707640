-- ===== src/Relay/Origin/Admission.antt =====
-- Which requests the origin validator lets in.
use aistudio_gemini_gateway.Base.{
  ◌≡◌, refl, sym, subst, ◌↔◌, ◌⊎◌, inl, inr, Bool, true, false, ◌||◌, some, List, [], ◌∷◌, Text,
  bytes, nat_eq, text_eq, ◌==◌, ==_iff, is_empty, contains, has_prefix, if◌then◌else◌, Bool-cases,
  All, arith,
}
use aistudio_gemini_gateway.Relay.Origin.{
  match_normalized, match_origin_pattern, normalize_origin, any_match, is_exact, is_origin_allowed,
  Allowed, sort_item, sort_items, effective_mode, validate, new_origin_validator,
}
use aistudio_gemini_gateway.Relay.Origin.Matcher.{
  Fits, end, literal, any_byte, no_byte, IsPlain, match_loop-answers,
}

or_iff :
    (a b : Bool) {P Q : Type 0} → ((a ≡ true) ↔ P) → ((b ≡ true) ↔ Q) → ((a || b) ≡ true) ↔ (P ⊎ Q)
or_iff true b f g = ((λ _. inl (f.0 refl)), λ _. refl)
or_iff false b {P} {Q} f g = ((λ h. inr (g.0 h)), pick)
  where
    pick : P ⊎ Q → b ≡ true
    pick (inl p) = absurd (let e = f.1 p in (cc))
    pick (inr q) = g.1 q

star_Fits : (s : Text) → Fits (b'*' ∷ []) s
star_Fits [] = no_byte refl end
star_Fits (c ∷ s) = any_byte refl (star_Fits s)

match_normalized-Fits :
    (p s : Text) → is_empty s ≡ false → IsPlain s → (match_normalized p s ≡ true) ↔ Fits p s
unfolding match_normalized
match_normalized-Fits p [] given plain = absurd (cc)
match_normalized-Fits [] (c ∷ s) given plain = ((λ h. absurd (cc)), λ f. absurd (elim f [ ]))
match_normalized-Fits (x ∷ p) (c ∷ s) given plain = elim (Bool-cases ((x ∷ p) == bytes "*")) [
  | inl star ↦ rw star (
    (λ _.
        subst (λ q. Fits q (c ∷ s)) (sym ((==_iff (x ∷ p) (bytes "*")).0 star))
          (star_Fits (c ∷ s))),
    λ _. refl,
  )
  | inr other ↦
      let (b, run, right) = match_loop-answers (x ∷ p) (c ∷ s) plain in rw (other, run) right
]

has_prefix-nil : (s : Text) → has_prefix s [] ≡ true
unfolding has_prefix
has_prefix-nil [] = refl
has_prefix-nil (c ∷ s) = refl

-- A text without a star is the only text that fits it.
Fits-exact : (p s : Text) → contains p (bytes "*") ≡ false → ((p == s) ≡ true) ↔ Fits p s
unfolding contains has_prefix
Fits-exact p s h =
    ((λ e. subst (Fits p) ((==_iff p s).0 e) (itself p)), λ f. (==_iff p s).1 (same p s h f))
  where
    itself : (q : Text) → Fits q q
    itself [] = end
    itself (c ∷ q) = literal c (itself q)

    same : (q r : Text) → contains q (bytes "*") ≡ false → Fits q r → q ≡ r
    same [] _ k end = refl
    same (x ∷ q) (_ ∷ r) k (literal _ f) = ground (arith, same q r (ground arith) f)
    same (x ∷ q) _ k (any_byte e f) = absurd (ground (arith, has_prefix-nil q))
    same (x ∷ q) _ k (no_byte e f) = absurd (ground (arith, has_prefix-nil q))

-- A text that a second normalization does not change.
abbrev pub IsSettled : Text → Type 0
IsSettled s = normalize_origin s ≡ s

-- One of the configured origins, normalized, fits.
abbrev pub Permits : List Text → Text → Type 0
Permits [] origin = ⊥
Permits (item ∷ items) origin = Fits (normalize_origin item) origin ⊎ Permits items origin

abbrev passes : Allowed → Text → Bool
passes a origin = a.allow_any || is_origin_allowed origin a.exact a.patterns

module _ (origin : Text) (given : is_empty origin ≡ false) (plain : IsPlain origin)
    (settled : IsSettled origin) where
  match-Fits : (p : Text) → IsSettled p → (match_origin_pattern p origin ≡ true) ↔ Fits p origin
  unfolding match_origin_pattern
  match-Fits p h = rw (h, settled) (match_normalized-Fits p origin given plain)

  -- The test that an item adds.
  own : Text → Bool
  own item =
      if is_empty item
      then false
      else if item == bytes "*"
      then true
      else if contains item (bytes "*")
      then match_origin_pattern item origin
      else item == origin

  own-Fits : (item : Text) → IsSettled item → (own item ≡ true) ↔ Fits item origin
  unfolding own
  own-Fits [] h = ((λ e. absurd (cc)), λ f. absurd (nothing origin given f))
    where
      nothing : (s : Text) → is_empty s ≡ false → Fits [] s → ⊥
      nothing [] e f = absurd (cc)
      nothing (c ∷ s) e f = elim f [ ]
  own-Fits (x ∷ p) h = elim (Bool-cases ((x ∷ p) == bytes "*")) [
    | inl star ↦ rw star (
      (λ _.
          subst (λ q. Fits q origin) (sym ((==_iff (x ∷ p) (bytes "*")).0 star))
            (star_Fits origin)),
      λ _. refl,
    )
    | inr other ↦ elim (Bool-cases (contains (x ∷ p) (bytes "*"))) [
      | inl wild ↦ rw (other, wild) (match-Fits (x ∷ p) h)
      | inr fixed ↦ rw (other, fixed) (Fits-exact (x ∷ p) origin fixed)
    ]
  ]

  sort_item-passes :
      (item : Text) (a : Allowed) → passes (sort_item item a) origin ≡ (own item || passes a origin)
  unfolding own sort_item is_origin_allowed is_exact any_match
  sort_item-passes item a = ground (arith, given)

  sort_items-Permits :
      (items : List Text)
      → All (λ item. IsSettled (normalize_origin item)) items
      → (passes (sort_items items) origin ≡ true) ↔ Permits items origin
  unfolding sort_items is_origin_allowed is_exact any_match
  sort_items-Permits [] h = ((λ e. absurd (ground (arith, given))), λ p. absurd p)
  sort_items-Permits (item ∷ items) (h, rest) =
      rw (sort_item-passes (normalize_origin item) (sort_items items))
        (or_iff _ _ (own-Fits (normalize_origin item) h) (sort_items-Permits items rest))

validate-passes :
    (mode : Text) (a : Allowed) (header : Text)
    → (mode == bytes "any") ≡ false
    → is_empty (normalize_origin header) ≡ false
    → validate mode a (some header) ≡ passes a (normalize_origin header)
unfolding validate
validate-passes mode a header m given = ground arith

-- The validator, in any mode but "any", lets a request with an origin in exactly when one of the
-- configured origins fits the origin, all of them normalized, a star standing for any bytes. This is for
-- an origin with no star in it, not blank, that a second normalization does not change any more, and
-- likewise for the configured ones.
pub new_origin_validator-Permits :
    (mode : Text) (items : List Text) (header : Text)
    → (effective_mode mode == bytes "any") ≡ false
    → is_empty (normalize_origin header) ≡ false
    → IsPlain (normalize_origin header)
    → IsSettled (normalize_origin header)
    → All (λ item. IsSettled (normalize_origin item)) items
    → (new_origin_validator mode items (some header) ≡ true)
      ↔ Permits items (normalize_origin header)
unfolding new_origin_validator
new_origin_validator-Permits mode items header m given plain settled all =
    rw (validate-passes (effective_mode mode) (sort_items items) header m given)
      (sort_items-Permits (normalize_origin header) given plain settled items all)
