-- ===== src/Registry/Listing.antt =====
-- The listing of the providers.
use mathlib.Core.List.{Perm}
use aistudio_gemini_gateway.Base.{
  ◌≡◌, true, false, to_lower, ℤ_beq_iff, text_ltb_asym, text_ltb_trans, arith, ℤ_eq, IsSorted,
  sort_stable-IsSorted, sort_stable-perm, List, [], ◌∷◌, All, All-map, ltb_ℤ, text_ltb,
}
use aistudio_gemini_gateway.Service.Provider.{RuntimeProvider}
use aistudio_gemini_gateway.Registry.State.{Registry}
use aistudio_gemini_gateway.Registry.Transitions.{list, listed_before, values}

listed_before_asym : (p q : RuntimeProvider) → listed_before p q ≡ true → listed_before q p ≡ false
unfolding listed_before
listed_before_asym p q h = ground (
  arith,
  ℤ_beq_iff p.priority q.priority,
  ℤ_beq_iff q.priority p.priority,
  text_ltb_asym (to_lower p.id) (to_lower q.id),
)

listed_before_trans :
    (p q r : RuntimeProvider)
    → listed_before q p ≡ false
    → listed_before r q ≡ false
    → listed_before r p ≡ false
unfolding listed_before
listed_before_trans p q r h k = ground (
  arith,
  text_ltb_trans (to_lower p.id) (to_lower q.id) (to_lower r.id),
  ℤ_beq_iff q.priority p.priority,
  ℤ_beq_iff r.priority q.priority,
  ℤ_beq_iff r.priority p.priority,
)

-- One provider may stand before another: its priority is not lower, and for equal priorities the
-- lower-cased id of the other is not smaller.
abbrev pub Precedes : RuntimeProvider → RuntimeProvider → Type 0
Precedes p q =
    (ltb_ℤ p.priority q.priority ≡ false)
    × (p.priority ≡ q.priority → text_ltb (to_lower q.id) (to_lower p.id) ≡ false)

abbrev pub IsListed : List RuntimeProvider → Type 0
IsListed [] = Unit
IsListed (p ∷ ps) = All (Precedes p) ps × IsListed ps

listed_before-Precedes : (p q : RuntimeProvider) → listed_before q p ≡ false → Precedes p q
unfolding listed_before
listed_before-Precedes p q h = (
  ground (arith, h, ℤ_beq_iff q.priority p.priority),
  λ e. ground (arith, h, ℤ_beq_iff q.priority p.priority, e),
)

IsSorted-IsListed : (ps : List RuntimeProvider) → IsSorted listed_before ps → IsListed ps
IsSorted-IsListed [] h = tt
IsSorted-IsListed (p ∷ ps) (front, rest) = (
  All-map (λ q. listed_before q p ≡ false) (Precedes p) (listed_before-Precedes p) ps front,
  IsSorted-IsListed ps rest,
)

-- The listing holds the registered providers, each as often, and of two of them the later one has no
-- higher priority, nor, for equal priorities, a lower-cased id that is smaller.
pub list-IsListed : (r : Registry) → Perm (list r) (values r.providers) × IsListed (list r)
unfolding list
list-IsListed r = (
  sort_stable-perm listed_before (values r.providers),
  IsSorted-IsListed (list r) (
      sort_stable-IsSorted listed_before listed_before_asym listed_before_trans
        (values r.providers)),
)
