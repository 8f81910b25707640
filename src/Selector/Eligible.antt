-- ===== src/Selector/Eligible.antt =====
-- The loop over the candidates against what it looks for.
use mathlib.Core.List.{append-nil, append_assoc}
use aistudio_gemini_gateway.Base.{
  ℕ, ◌+◌, ◌≡◌, refl, sym, ◌∙◌, inl, inr, Bool, true, false, not, ◌&&◌, List, [], ◌∷◌, ◌++◌, Text,
  nat_eq, text_eq, length, keep_if, Bool-cases, if◌then◌else◌, arith,
}
use aistudio_gemini_gateway.Service.Provider.{ProviderState, active, cooling, RuntimeProvider}
use aistudio_gemini_gateway.Selector.Candidates.{
  Summary, effective_provider_state, contains_tried, earlier, count_in, examine,
}

abbrev pub is_active : ProviderState → Bool
is_active active = true
is_active _ = false

abbrev pub is_waiting : ProviderState → Bool
is_waiting cooling = true
is_waiting _ = false

module _ (now : ℕ) (tried : List Text) where
  abbrev pub is_untried : RuntimeProvider → Bool
  is_untried p = not (contains_tried tried p.id)

  abbrev pub is_ready : RuntimeProvider → Bool
  is_ready p = is_untried p && is_active (effective_provider_state p now).0

  abbrev pub is_cooling_down : RuntimeProvider → Bool
  is_cooling_down p = is_untried p && is_waiting (effective_provider_state p now).0

count_in-ready :
    (st : ProviderState × ℕ) (p : RuntimeProvider) (ready : List RuntimeProvider) (s : Summary)
    → (count_in st p (ready, s)).0 ≡ (if is_active st.0 then ready ++ p ∷ [] else ready)
count_in-ready (active, until) p ready s = refl
count_in-ready (cooling, until) p ready s = refl
count_in-ready (_, until) p ready s = refl

-- The ready candidates, in the order of the list.
pub examine-ready :
    (now : ℕ) (tried : List Text) (ps : List RuntimeProvider) (acc : List RuntimeProvider × Summary)
    → (examine now tried ps acc).0 ≡ acc.0 ++ keep_if (is_ready now tried) ps
unfolding examine
examine-ready now tried [] acc = sym (append-nil acc.0)
examine-ready now tried (p ∷ ps) acc = elim (Bool-cases (contains_tried tried p.id)) [
  | inl was ↦ rw (was, examine) (examine-ready now tried ps acc)
  | inr fresh ↦ elim (Bool-cases (is_active (effective_provider_state p now).0)) [
    | inl up ↦
        rw (fresh, examine, up)
          (examine-ready now tried ps _
            ∙ (rw (count_in-ready (effective_provider_state p now) p acc.0 acc.1, up)
                (append_assoc acc.0 (p ∷ []) _)))
    | inr down ↦
        rw (fresh, examine, down)
          (examine-ready now tried ps _
            ∙ (rw (count_in-ready (effective_provider_state p now) p acc.0 acc.1, down)))
  ]
]

count_in-summary :
    (st : ProviderState × ℕ) (p : RuntimeProvider) (acc : List RuntimeProvider × Summary)
    → let s = (count_in st p acc).1 in
      (s.total_eligible ≡ acc.1.total_eligible + 1)
      × (s.cooling_count
          ≡ (if is_waiting st.0 then acc.1.cooling_count + 1 else acc.1.cooling_count))
      × (s.earliest_cooldown ≡ (
          if is_waiting st.0
          then earlier acc.1.earliest_cooldown st.1
          else acc.1.earliest_cooldown))
count_in-summary (active, until) p acc = (refl, refl, refl)
count_in-summary (cooling, until) p acc = (refl, refl, refl)
count_in-summary (_, until) p acc = (refl, refl, refl)

-- How many candidates were not tried, and how many of them are cooling.
pub examine-counts :
    (now : ℕ) (tried : List Text) (ps : List RuntimeProvider) (acc : List RuntimeProvider × Summary)
    → let s = (examine now tried ps acc).1 in
      (s.total_eligible ≡ acc.1.total_eligible + length (keep_if (is_untried now tried) ps))
      × (s.cooling_count ≡ acc.1.cooling_count + length (keep_if (is_cooling_down now tried) ps))
unfolding examine
examine-counts now tried [] acc = (omega arith, omega arith)
examine-counts now tried (p ∷ ps) acc = elim (Bool-cases (contains_tried tried p.id)) [
  | inl was ↦ rw (was, examine) (examine-counts now tried ps acc)
  | inr fresh ↦
      let st = effective_provider_state p now in
      let (total, cool) = examine-counts now tried ps (count_in st p acc) in
      let (t, c, _) = count_in-summary st p acc in
      elim (Bool-cases (is_waiting st.0)) [
        | inl waits ↦
            rw (fresh, examine, waits)
              (ground (arith, total, cool, t, c, waits), ground (arith, total, cool, t, c, waits))
        | inr moves ↦
            rw (fresh, examine, moves)
              (ground (arith, total, cool, t, c, moves), ground (arith, total, cool, t, c, moves))
      ]
]
