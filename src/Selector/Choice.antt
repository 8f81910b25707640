-- ===== src/Selector/Choice.antt =====
-- What every strategy promises of its choice.
use mathlib.Core.List.{Mem}
use aistudio_gemini_gateway.Base.{
  All-mem, All-of_keep_if, All-of_sort_stable, ℕ, ◌≡◌, Bool, true, false, List, [], ◌∷◌, Text,
  nat_eq, text_eq, ℤ, ltb_ℤ, ℤ_beq_iff, to_lower, text_ltb_asym, text_ltb_trans, keep_if, All,
  All-keep_if, All-map, All-sort_stable, sort_stable, sort_stable-IsSorted, IsSorted, ◌==◌, ℤ_eq,
  arith,
}
use aistudio_gemini_gateway.Service.Provider.{RuntimeProvider}
use aistudio_gemini_gateway.Selector.Candidates.{
  ready_before, best_tier, collect_ready_providers, normalize_tried, no_summary,
}
use aistudio_gemini_gateway.Selector.Eligible.{is_ready, examine-ready}

ready_before_asym : (p q : RuntimeProvider) → ready_before p q ≡ true → ready_before q p ≡ false
unfolding ready_before
ready_before_asym p q h = ground (
  arith,
  ℤ_beq_iff p.priority q.priority,
  ℤ_beq_iff q.priority p.priority,
  text_ltb_asym (to_lower p.id) (to_lower q.id),
)

ready_before_trans :
    (p q r : RuntimeProvider)
    → ready_before q p ≡ false
    → ready_before r q ≡ false
    → ready_before r p ≡ false
unfolding ready_before
ready_before_trans p q r h k = ground (
  arith,
  text_ltb_trans (to_lower p.id) (to_lower q.id) (to_lower r.id),
  ℤ_beq_iff q.priority p.priority,
  ℤ_beq_iff r.priority q.priority,
  ℤ_beq_iff r.priority p.priority,
)

-- One that stands later in the order has no higher priority.
priority_of_order :
    (p q : RuntimeProvider) → ready_before q p ≡ false → ltb_ℤ p.priority q.priority ≡ false
unfolding ready_before
priority_of_order p q h = ground (arith, ℤ_beq_iff q.priority p.priority)

-- No priority of the list is above that of the provider.
abbrev pub IsTop : List RuntimeProvider → RuntimeProvider → Type 0
IsTop ps p = All (λ q. ltb_ℤ p.priority q.priority ≡ false) ps

IsTop-same_priority :
    (ps : List RuntimeProvider) (p q : RuntimeProvider)
    → IsTop ps p
    → q.priority ≡ p.priority
    → IsTop ps q
IsTop-same_priority ps p q h e = rw e h

not_above_self : (z : ℤ) → ltb_ℤ z z ≡ false
not_above_self z = ground arith

-- The best tier of a sorted list: what holds of the list, and none of the list is above.
best_tier-IsTop :
    (P : RuntimeProvider → Type 0) (ps : List RuntimeProvider)
    → IsSorted ready_before ps
    → All P ps
    → All (λ q. P q × IsTop ps q) (best_tier ps)
unfolding best_tier
best_tier-IsTop P [] s h = tt
best_tier-IsTop P (p ∷ ps) (front, s) h =
    All-map (λ q. P q × ((q.priority == p.priority) ≡ true)) (λ q. P q × IsTop (p ∷ ps) q)
      (λ q k. (k.0, IsTop-same_priority (p ∷ ps) p q top ((ℤ_beq_iff q.priority p.priority).0 k.1)))
      (keep_if (λ q. q.priority == p.priority) (p ∷ ps))
      (All-keep_if P (λ q. q.priority == p.priority) (p ∷ ps) h)
  where
    top : IsTop (p ∷ ps) p
    top = (
      not_above_self p.priority,
      All-map (λ q. ready_before q p ≡ false) (λ q. ltb_ℤ p.priority q.priority ≡ false)
          (λ q. priority_of_order p q) ps front,
    )

-- A choice that may be made: one of the candidates, not tried, active as the selector sees it, and
-- with no ready candidate of a higher priority.
pub record IsBest (now : ℕ) (tried : List Text) (providers : List RuntimeProvider)
    (p : RuntimeProvider) : Type 0 where
  pub listed : Mem p providers
  pub ready : is_ready now (normalize_tried tried) p ≡ true
  pub top :
      All
        (λ q. is_ready now (normalize_tried tried) q ≡ true → ltb_ℤ p.priority q.priority ≡ false)
        providers

pub collect-IsBest :
    (model : Text) (providers : List RuntimeProvider) (tried : List Text) (now : ℕ)
    → All (IsBest now tried providers) (collect_ready_providers model providers tried now).0
unfolding collect_ready_providers
collect-IsBest model providers tried now =
    rw (examine-ready now (normalize_tried tried) providers ([], no_summary)) (
      All-map _ (IsBest now tried providers) best (best_tier sorted) (
        best_tier-IsTop P sorted
          (sort_stable-IsSorted ready_before ready_before_asym ready_before_trans ready)
          (All-sort_stable ready_before P ready
            (All-keep_if (λ p. Mem p providers) test providers (All-mem providers)))))
  where
    test : RuntimeProvider → Bool
    test = is_ready now (normalize_tried tried)

    ready : List RuntimeProvider
    ready = keep_if test providers

    sorted : List RuntimeProvider
    sorted = sort_stable ready_before ready

    P : RuntimeProvider → Type 0
    P p = Mem p providers × (test p ≡ true)

    best : (p : RuntimeProvider) → P p × IsTop sorted p → IsBest now tried providers p
    best p (h, top) = record {
      listed = h.0;
      ready = h.1;
      top =
          All-of_keep_if (λ q. ltb_ℤ p.priority q.priority ≡ false) test providers
            (All-of_sort_stable ready_before (λ q. ltb_ℤ p.priority q.priority ≡ false) ready top);
    }
