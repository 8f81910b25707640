-- ===== src/Base/Trimmed.antt =====
-- Texts that trimming leaves as they are.
use Prim.Native.Nat.{ℕ}
use mathlib.Core.Path.{◌≡◌, ◌∙◌, refl, sym, ap, subst}
use mathlib.Core.Bool.{false}
use mathlib.Core.List.{[], ◌∷◌, ◌++◌, append_assoc}
use native.Mathlib.Omega.{arith}
use aistudio_gemini_gateway.Base.Strings.{
  Text, is_empty, is_space, trim_left, trim_right, trim_space, StartsPlain, nil, plain,
  trim_left-StartsPlain, trim_right-StartsPlain, trim_right_idempotent, trim_left_of_StartsPlain,
}

trim_left-append : (s t : Text) → StartsPlain s → trim_left t ≡ t → trim_left (s ++ t) ≡ s ++ t
unfolding trim_left
trim_left-append [] t nil h = h
trim_left-append (c ∷ s) t (plain _ _ e) h = rw e refl

trim_right-append : (s : Text) (c : ℕ) → is_space c ≡ false → trim_right (s ++ c ∷ []) ≡ s ++ c ∷ []
unfolding trim_right
trim_right-append [] c h = rw h refl
trim_right-append (d ∷ []) c h = rw (trim_right-append [] c h) (ground arith)
trim_right-append (d ∷ e ∷ s) c h = rw (trim_right-append (e ∷ s) c h) (ground arith)

-- A trimmed text, then one that begins and ends with other bytes than white space, is trimmed.
pub trim_space-append :
    (s t : Text) (c : ℕ)
    → trim_space s ≡ s
    → trim_left (t ++ c ∷ []) ≡ t ++ c ∷ []
    → is_space c ≡ false
    → trim_space (s ++ (t ++ c ∷ [])) ≡ s ++ (t ++ c ∷ [])
unfolding trim_space
trim_space-append s t c h k e =
    ap trim_right (
      trim_left-append s (t ++ c ∷ [])
        (subst StartsPlain h (trim_right-StartsPlain (trim_left s) (trim_left-StartsPlain s))) k)
    ∙ subst (λ u. trim_right u ≡ u) (append_assoc s t (c ∷ [])) (trim_right-append (s ++ t) c e)

pub trim_right_of_trimmed : (s : Text) → trim_space s ≡ s → trim_right s ≡ s
unfolding trim_space
trim_right_of_trimmed s h = ap trim_right (sym h) ∙ trim_right_idempotent (trim_left s) ∙ h

pub trim_left_of_trimmed : (s : Text) → trim_space s ≡ s → trim_left s ≡ s
unfolding trim_space
trim_left_of_trimmed s h =
    trim_left_of_StartsPlain s
      (subst StartsPlain h (trim_right-StartsPlain (trim_left s) (trim_left-StartsPlain s)))

-- Trimming on the right stops at a text that is trimmed and not empty.
pub trim_right-suffix :
    (s t : Text) → trim_right t ≡ t → is_empty t ≡ false → trim_right (s ++ t) ≡ s ++ t
unfolding trim_right
trim_right-suffix [] t h given = h
trim_right-suffix (c ∷ []) t h given = rw (trim_right, h, given) (ground arith)
trim_right-suffix (c ∷ d ∷ s) t h given = rw (trim_right-suffix (d ∷ s) t h given) (ground arith)
