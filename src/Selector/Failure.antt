-- ===== src/Selector/Failure.antt =====
-- When a strategy finds nobody, and what it then reports.
use aistudio_gemini_gateway.Base.{
  ℕ, ◌-◌, ◌≤◌, ◌≡◌, ◌≢◌, ◌↔◌, refl, inl, inr, Bool, true, false, List, [], ◌∷◌, Text, nat_eq,
  text_eq, ℤ_eq, ◌==◌, ==_refl, length, keep_if, All, All-of_sort_stable, ltb, List-cases,
  Bool-cases, arith, Result, err, sort_stable,
}
use aistudio_gemini_gateway.Service.Provider.{
  ProviderState, active, cooling, disabled, other, RuntimeProvider,
}
use aistudio_gemini_gateway.Service.Errors.{GatewayError, provider_cooldown}
use aistudio_gemini_gateway.Selector.Candidates.{
  Summary, effective_state, effective_provider_state, contains_tried, count_in, examine, no_summary,
  all_cooling, selection_error, collect_ready_providers, normalize_tried, best_tier, ready_before,
}
use aistudio_gemini_gateway.Selector.Eligible.{
  is_waiting, is_untried, is_cooling_down, is_ready, examine-counts, examine-ready,
}
use aistudio_gemini_gateway.Selector.{Request, RoundRobin, fill_first_select, round_robin_select}

-- Whether a provider counts as cooling, its deadline is set.
effective_state-until :
    (st : ProviderState) (until now : ℕ)
    → is_waiting (effective_state st until now).0 ≡ true
    → (effective_state st until now).1 ≢ 0
effective_state-until (other []) until now h = cc
effective_state-until (other (_ ∷ _)) until now h = cc
effective_state-until active until now h = cc
effective_state-until disabled until now h = cc
effective_state-until ProviderState.disconnected until now h = cc
effective_state-until cooling until now h = ground arith

HasDeadline : Summary → Type 0
HasDeadline s = 1 ≤ s.cooling_count → s.earliest_cooldown ≢ 0

count_in-HasDeadline :
    (st : ProviderState × ℕ) (p : RuntimeProvider) (acc : List RuntimeProvider × Summary)
    → (is_waiting st.0 ≡ true → st.1 ≢ 0)
    → HasDeadline acc.1
    → HasDeadline (count_in st p acc).1
unfolding HasDeadline
count_in-HasDeadline (cooling, until) p acc h k = λ _. ground (arith, h refl)
count_in-HasDeadline (active, until) p acc h k = k
count_in-HasDeadline (disabled, until) p acc h k = k
count_in-HasDeadline (ProviderState.disconnected, until) p acc h k = k
count_in-HasDeadline (other _, until) p acc h k = k

examine-HasDeadline :
    (now : ℕ) (tried : List Text) (ps : List RuntimeProvider) (acc : List RuntimeProvider × Summary)
    → HasDeadline acc.1
    → HasDeadline (examine now tried ps acc).1
unfolding examine effective_provider_state
examine-HasDeadline now tried [] acc h = h
examine-HasDeadline now tried (p ∷ ps) acc h = elim (Bool-cases (contains_tried tried p.id)) [
  | inl was ↦ rw (was, examine) (examine-HasDeadline now tried ps acc h)
  | inr fresh ↦
      rw (fresh, examine)
        (examine-HasDeadline now tried ps _
          (count_in-HasDeadline _ p acc (effective_state-until p.state p.cooldown_until now) h))
]

-- Whether all of a list pass a test, by their number.
left_pass :
    (q r : RuntimeProvider → Bool) (ps : List RuntimeProvider)
    → ((p : RuntimeProvider) → r p ≡ true → q p ≡ true)
    → (length (keep_if r ps) ≤ length (keep_if q ps))
      × ((length (keep_if r ps) ≡ length (keep_if q ps)) ↔ All (λ p. q p ≡ true → r p ≡ true) ps)
left_pass q r [] sub = (omega arith, ((λ _. tt), λ _. refl))
left_pass q r (p ∷ ps) sub =
    let (le, eq) = left_pass q r ps sub in
    elim (Bool-cases (q p)) [
      | inr fail ↦ elim (Bool-cases (r p)) [
        | inl pass ↦ absurd (ground (arith, sub p pass))
        | inr fail' ↦ rw (fail, fail') (le, ((λ h. ((λ t. ground arith), eq.0 h)), λ h. eq.1 h.1))
      ]
      | inl pass ↦ elim (Bool-cases (r p)) [
        | inl pass' ↦
            rw (pass, pass')
              (
                omega (arith, le),
                ((λ h. ((λ t. refl), eq.0 (omega arith))), λ h. omega (arith, eq.1 h.1)),
              )
        | inr fail ↦
            rw (pass, fail)
              (
                omega (arith, le),
                (
                  (λ h. absurd (omega (arith, le))),
                  λ h. absurd (let x : false ≡ true = h.0 refl in cc),
                ),
              )
      ]
    ]

-- Nobody of the list is ready; and the error tells a cooldown from the want of a provider: it is the
-- former exactly if somebody is left to try and all who are left are cooling down.
pub record Fails (now : ℕ) (tried : List Text) (ps : List RuntimeProvider) (e : GatewayError)
    : Type 0 where
  pub nobody : All (λ p. is_ready now tried p ≡ false) ps
  pub code : (e.code ≡ provider_cooldown) ↔ (
      (1 ≤ length (keep_if (is_untried now tried) ps))
      × All (λ p. is_untried now tried p ≡ true → is_cooling_down now tried p ≡ true) ps)

none_kept :
    (test : RuntimeProvider → Bool) (ps : List RuntimeProvider)
    → keep_if test ps ≡ []
    → All (λ p. test p ≡ false) ps
none_kept test [] h = tt
none_kept test (p ∷ ps) h = elim (Bool-cases (test p)) [
  | inl pass ↦ absurd (let k : p ∷ keep_if test ps ≡ [] = rw pass at h in cc)
  | inr fail ↦ (fail, none_kept test ps (rw fail at h))
]

best_tier_empty : (ps : List RuntimeProvider) → best_tier ps ≡ [] → ps ≡ []
unfolding best_tier
best_tier_empty [] h = refl
best_tier_empty (p ∷ ps) h = absurd (
    let k : p ∷ keep_if (λ q. q.priority == p.priority) ps ≡ [] = rw (==_refl p.priority) at h in
    cc)

empty_sorted : (xs : List RuntimeProvider) → best_tier (sort_stable ready_before xs) ≡ [] → xs ≡ []
empty_sorted xs h = elim (List-cases xs) [
  | inl e ↦ e
  | inr (x, rest, e) ↦ absurd (
      cc_of (
        no_element x rest (
          rw e at (
            All-of_sort_stable ready_before (λ _. false ≡ true) xs (rw (best_tier_empty _ h) tt)))))
]
  where
    cc_of : false ≡ true → ⊥
    cc_of k = cc

    no_element :
        (x : RuntimeProvider) (rest : List RuntimeProvider)
        → All (λ _. false ≡ true) (x ∷ rest)
        → false ≡ true
    no_element x rest k = k.0

selection_error-code :
    (model : Text) (s : Summary) (now : ℕ)
    → ((selection_error model s now).code ≡ provider_cooldown) ↔ (all_cooling s ≡ true)
unfolding selection_error
selection_error-code model s now = elim (Bool-cases (all_cooling s)) [
  | inl pass ↦
      rw (pass, selection_error)
        (
          (λ _. refl),
          λ _. elim (Bool-cases (ltb 0 (s.earliest_cooldown - now))) [
            | inl later ↦ rw later refl
            | inr over ↦ rw over refl
          ],
        )
  | inr fail ↦ rw (fail, selection_error) ((λ h. cc), λ h. cc)
]

all_cooling_iff :
    (s : Summary)
    → HasDeadline s
    → (all_cooling s ≡ true) ↔ ((1 ≤ s.total_eligible) × (s.cooling_count ≡ s.total_eligible))
unfolding all_cooling HasDeadline
all_cooling_iff s h = ((λ e. (ground arith, ground arith)), λ e. ground (arith, h))

collect-Fails :
    (now : ℕ) (model : Text) (ps : List RuntimeProvider) (tried : List Text)
    → let (ready, summary) = collect_ready_providers model ps tried now in
      ready ≡ [] → Fails now (normalize_tried tried) ps (selection_error model summary now)
unfolding collect_ready_providers HasDeadline
collect-Fails now model ps tried h = record {
  nobody = none_kept (is_ready now ts) ps (
      empty_sorted (keep_if (is_ready now ts) ps)
        (rw (examine-ready now ts ps ([], no_summary)) at h));
  code =
      let (le, eq) =
        left_pass (is_untried now ts) (is_cooling_down now ts) ps (λ p c. ground (arith, c)) in
      let (total, cool) = examine-counts now ts ps ([], no_summary) in
      (
        (λ k.
            let j = (all_cooling_iff s deadline).0 ((selection_error-code model s now).0 k) in
            (omega (arith, total, j.0), eq.0 (omega (arith, total, cool, j.1)))),
        λ k. (selection_error-code model s now).1 (
            (all_cooling_iff s deadline).1 (
              omega (arith, total, k.0),
              (let same = eq.1 k.1 in omega (arith, total, cool, same)),
            )),
      );
}
  where
    ts : List Text
    ts = normalize_tried tried

    s : Summary
    s = (examine now ts ps ([], no_summary)).1

    deadline : HasDeadline s
    deadline = examine-HasDeadline now ts ps ([], no_summary) (λ k. absurd (omega (arith, k)))

-- When the strategy that fills the first provider reports an error, no candidate that is left to try
-- is ready, and the error's code is that of a cooldown exactly if some candidate is left and all that
-- are left are cooling down.
pub fill_first_select-Fails :
    (now : ℕ) (req : Request) (ps : List RuntimeProvider) (tried : List Text) (e : GatewayError)
    → fill_first_select now req ps tried ≡ err e
    → Fails now (normalize_tried tried) ps e
unfolding fill_first_select
fill_first_select-Fails now req ps tried e =
    elim (List-cases (collect_ready_providers req.model ps tried now).0) [
      | inl none' ↦
          rw (none', fill_first_select)
            (λ h. reported (collect-Fails now req.model ps tried none') h)
      | inr (x, rest, some') ↦ rw (some', fill_first_select) (λ h. cc)
    ]
  where
    reported :
        {d : GatewayError}
        → Fails now (normalize_tried tried) ps d
        → ◌≡◌ {A = Result GatewayError RuntimeProvider} (err d) (err e)
        → Fails now (normalize_tried tried) ps e
    reported f h = ground (arith, f, h)

-- And so when round robin reports one.
pub round_robin_select-Fails :
    (now : ℕ) (req : Request) (ps : List RuntimeProvider) (tried : List Text) (s : RoundRobin)
    (e : GatewayError)
    → (round_robin_select now req ps tried s).1 ≡ err e
    → Fails now (normalize_tried tried) ps e
unfolding round_robin_select
round_robin_select-Fails now req ps tried s e =
    elim (List-cases (collect_ready_providers req.model ps tried now).0) [
      | inl none' ↦
          rw (none', round_robin_select)
            (λ h. reported (collect-Fails now req.model ps tried none') h)
      | inr (x, rest, some') ↦ rw (some', round_robin_select) (λ h. cc)
    ]
  where
    reported :
        {d : GatewayError}
        → Fails now (normalize_tried tried) ps d
        → ◌≡◌ {A = Result GatewayError RuntimeProvider} (err d) (err e)
        → Fails now (normalize_tried tried) ps e
    reported f h = ground (arith, f, h)
