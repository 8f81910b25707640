-- ===== src/Base/Strings.antt =====
-- Go strings as lists of bytes, with the operations of package `strings` that the gateway calls.
-- Case and white space are those of ASCII; a byte above 127 is a letter of neither case.
use Prim.Native.Nat.{ℕ, ◌+◌, ◌-◌, ◌/◌, ◌%◌}
use Prim.Native.Char.{code}
use Prim.Native.String.{String}
use mathlib.Core.Path.{◌≡◌, refl, ◌∙◌}
use mathlib.Core.Logic.{◌↔◌, inl, inr}
use mathlib.Core.Bool.{Bool, true, false, ◌&&◌, ◌||◌}
use mathlib.Core.List.{List, [], ◌∷◌, ◌++◌, map}
use native.Mathlib.Omega.{arith}
use aistudio_gemini_gateway.Base.Tests.{
  ltb, leb, if◌then◌else◌, Bool-cases, Eq, nat_eq, ◌==◌, ==_iff,
}

abbrev pub Text : Type 0
Text = List ℕ

-- The UTF-8 bytes of a code point.
abbrev pub rune_bytes : ℕ → List ℕ
rune_bytes c =
    if ltb c 128
    then c ∷ []
    else if ltb c 2048
    then (192 + c / 64) ∷ (128 + c % 64) ∷ []
    else if ltb c 65536
    then (224 + c / 4096) ∷ (128 + c / 64 % 64) ∷ (128 + c % 64) ∷ []
    else (240 + c / 262144) ∷ (128 + c / 4096 % 64) ∷ (128 + c / 64 % 64) ∷ (128 + c % 64) ∷ []

-- The bytes of a literal.
abbrev pub bytes : String → Text
bytes String.[] = []
bytes (String.◌∷◌ c s) = rune_bytes (code c) ++ bytes s

abbrev pub text_beq : Text → Text → Bool
text_beq [] [] = true
text_beq [] (_ ∷ _) = false
text_beq (_ ∷ _) [] = false
text_beq (a ∷ s) (b ∷ t) = a == b && text_beq s t

pub text_beq_iff : (s t : Text) → (text_beq s t ≡ true) ↔ (s ≡ t)
text_beq_iff [] [] = ((λ _. refl), λ _. refl)
text_beq_iff [] (b ∷ t) = ((λ h. cc), λ h. cc)
text_beq_iff (a ∷ s) [] = ((λ h. cc), λ h. cc)
text_beq_iff (a ∷ s) (b ∷ t) =
    ((λ h. ground (arith, text_beq_iff s t)), λ h. ground (arith, text_beq_iff s t))

instance abbrev pub text_eq : Eq Text
text_eq = record { equals = text_beq; equals_iff = text_beq_iff }

abbrev pub is_empty : Text → Bool
is_empty [] = true
is_empty (_ ∷ _) = false

-- '\t', '\n', '\v', '\f', '\r' and ' '.
unfoldable pub is_space : ℕ → Bool
is_space c = leb 9 c && leb c 13 || c == 32

unfoldable pub trim_left : Text → Text
trim_left [] = []
trim_left (c ∷ s) = let rest = trim_left s in if is_space c then rest else c ∷ s

unfoldable pub trim_right : Text → Text
trim_right [] = []
trim_right (c ∷ s) = let rest = trim_right s in if is_space c && is_empty rest then [] else c ∷ rest

-- strings.TrimSpace
unfoldable pub trim_space : Text → Text
unfolding trim_left trim_right is_space
trim_space s = trim_right (trim_left s)

unfoldable pub lower_byte : ℕ → ℕ
lower_byte c = if leb b'A' c && leb c b'Z' then c + 32 else c

-- strings.ToLower
unfoldable pub to_lower : Text → Text
unfolding lower_byte
to_lower = map lower_byte

unfoldable pub upper_byte : ℕ → ℕ
upper_byte c = if leb b'a' c && leb c b'z' then c - 32 else c

-- strings.ToUpper
unfoldable pub to_upper : Text → Text
unfolding upper_byte
to_upper = map upper_byte

-- strings.EqualFold
unfoldable pub equal_fold : Text → Text → Bool
unfolding to_lower
equal_fold s t = to_lower s == to_lower t

-- strings.HasPrefix
unfoldable pub has_prefix : Text → Text → Bool
has_prefix [] p = is_empty p
has_prefix (c ∷ s) [] = true
has_prefix (c ∷ s) (d ∷ p) = c == d && has_prefix s p

-- strings.Contains
unfoldable pub contains : Text → Text → Bool
unfolding has_prefix
contains [] p = is_empty p
contains (c ∷ s) p = has_prefix (c ∷ s) p || contains s p

pub equal_fold_refl : (s : Text) → equal_fold s s ≡ true
unfolding equal_fold
equal_fold_refl s = (==_iff (to_lower s) (to_lower s)).1 refl

pub trim_right_idempotent : (s : Text) → trim_right (trim_right s) ≡ trim_right s
unfolding trim_right
trim_right_idempotent [] = refl
trim_right_idempotent (c ∷ s) = elim (Bool-cases (is_space c && is_empty (trim_right s))) [
  | inl drop ↦ rw drop
  | inr keep ↦ rw keep (rw (trim_right_idempotent s) (rw keep))
]

-- No white space in front.
pub data StartsPlain : Text → Type 0 where
  nil : StartsPlain []
  plain : (c : ℕ) (s : Text) → is_space c ≡ false → StartsPlain (c ∷ s)

pub trim_left-StartsPlain : (s : Text) → StartsPlain (trim_left s)
unfolding trim_left
trim_left-StartsPlain [] = nil
trim_left-StartsPlain (c ∷ s) = elim (Bool-cases (is_space c)) [
  | inl space ↦ rw space (trim_left-StartsPlain s)
  | inr other ↦ rw other (plain c s other)
]

pub trim_right-StartsPlain : (s : Text) → StartsPlain s → StartsPlain (trim_right s)
unfolding trim_right
trim_right-StartsPlain [] nil = nil
trim_right-StartsPlain (c ∷ s) (plain _ _ h) = rw h (plain c (trim_right s) h)

pub trim_left_of_StartsPlain : (s : Text) → StartsPlain s → trim_left s ≡ s
unfolding trim_left
trim_left_of_StartsPlain [] nil = refl
trim_left_of_StartsPlain (c ∷ s) (plain _ _ h) = rw h

-- Trimming twice is trimming once.
pub trim_space_idempotent : (s : Text) → trim_space (trim_space s) ≡ trim_space s
unfolding trim_space
trim_space_idempotent s =
    rw (trim_left_of_StartsPlain _ (trim_right-StartsPlain (trim_left s) (trim_left-StartsPlain s)))
      (trim_right_idempotent (trim_left s))

lower_byte_idempotent : (c : ℕ) → lower_byte (lower_byte c) ≡ lower_byte c
unfolding lower_byte
lower_byte_idempotent c = ground arith

-- So is lowering twice.
pub to_lower_idempotent : (s : Text) → to_lower (to_lower s) ≡ to_lower s
unfolding to_lower
to_lower_idempotent [] = refl
to_lower_idempotent (c ∷ s) = cc (lower_byte_idempotent c, to_lower_idempotent s)

-- Go's `<` on strings: by the first byte that differs, a prefix first.
unfoldable pub text_ltb : Text → Text → Bool
text_ltb _ [] = false
text_ltb [] (_ ∷ _) = true
text_ltb (a ∷ s) (b ∷ t) = ltb a b || (a == b && text_ltb s t)

pub text_ltb_asym : (s t : Text) → text_ltb s t ≡ true → text_ltb t s ≡ false
unfolding text_ltb
text_ltb_asym [] [] h = refl
text_ltb_asym [] (b ∷ t) h = refl
text_ltb_asym (a ∷ s) [] h = cc
text_ltb_asym (a ∷ s) (b ∷ t) h = ground (arith, text_ltb_asym s t)

-- "Not before" is transitive.
pub text_ltb_trans :
    (s t u : Text) → text_ltb t s ≡ false → text_ltb u t ≡ false → text_ltb u s ≡ false
unfolding text_ltb
text_ltb_trans [] [] [] h k = refl
text_ltb_trans [] [] (c ∷ u) h k = refl
text_ltb_trans [] (b ∷ t) [] h k = refl
text_ltb_trans [] (b ∷ t) (c ∷ u) h k = refl
text_ltb_trans (a ∷ s) [] u h k = cc
text_ltb_trans (a ∷ s) (b ∷ t) [] h k = cc
text_ltb_trans (a ∷ s) (b ∷ t) (c ∷ u) h k = ground (arith, text_ltb_trans s t u)

-- A text with a byte that is no white space is not blank.
abbrev pub is_solid : Text → Bool
is_solid [] = false
is_solid (c ∷ s) = if is_space c then is_solid s else true

trim_left-is_solid : (s : Text) → is_solid (trim_left s) ≡ is_solid s
unfolding trim_left
trim_left-is_solid [] = refl
trim_left-is_solid (c ∷ s) = elim (Bool-cases (is_space c)) [
  | inl blank ↦ rw blank (trim_left-is_solid s)
  | inr mark ↦ rw (mark, is_solid, mark) refl
]

trim_right-is_solid : (s : Text) → is_solid s ≡ true → is_empty (trim_right s) ≡ false
unfolding trim_right
trim_right-is_solid [] h = cc
trim_right-is_solid (c ∷ s) h = elim (Bool-cases (is_space c)) [
  | inl blank ↦ rw (blank, trim_right-is_solid s (rw blank at h)) refl
  | inr mark ↦ rw mark refl
]

append-is_solid : (s t : Text) → is_solid t ≡ true → is_solid (s ++ t) ≡ true
append-is_solid [] t h = h
append-is_solid (c ∷ s) t h = elim (Bool-cases (is_space c)) [
  | inl blank ↦ rw blank (append-is_solid s t h)
  | inr mark ↦ rw mark refl
]

is_solid-append : (s t : Text) → is_solid s ≡ true → is_solid (s ++ t) ≡ true
is_solid-append [] t h = cc
is_solid-append (c ∷ s) t h = elim (Bool-cases (is_space c)) [
  | inl blank ↦ rw blank (is_solid-append s t (rw blank at h))
  | inr mark ↦ rw mark refl
]

pub trim_space-solid :
    (s t u : Text) → is_solid t ≡ true → is_empty (trim_space (s ++ t ++ u)) ≡ false
unfolding trim_space
trim_space-solid s t u h =
    trim_right-is_solid (trim_left (s ++ t ++ u))
      (trim_left-is_solid (s ++ t ++ u) ∙ is_solid-append (s ++ t) u (append-is_solid s t h))

is_space-lower_byte : (c : ℕ) → is_space (lower_byte c) ≡ is_space c
unfolding is_space lower_byte
is_space-lower_byte c = ground arith

trim_left-to_lower : (s : Text) → trim_left (to_lower s) ≡ to_lower (trim_left s)
unfolding trim_left to_lower
trim_left-to_lower [] = refl
trim_left-to_lower (c ∷ s) = elim (Bool-cases (is_space c)) [
  | inl blank ↦ rw (is_space-lower_byte c, blank) (trim_left-to_lower s)
  | inr mark ↦ rw (is_space-lower_byte c, mark) refl
]

is_empty-to_lower : (s : Text) → is_empty (to_lower s) ≡ is_empty s
unfolding to_lower
is_empty-to_lower [] = refl
is_empty-to_lower (c ∷ s) = refl

trim_right-to_lower : (s : Text) → trim_right (to_lower s) ≡ to_lower (trim_right s)
unfolding trim_right to_lower
trim_right-to_lower [] = refl
trim_right-to_lower (c ∷ s) = elim (Bool-cases (is_space c && is_empty (trim_right s))) [
  | inl end ↦
      rw (is_space-lower_byte c, trim_right-to_lower s, is_empty-to_lower (trim_right s), end) refl
  | inr keep ↦
      rw (is_space-lower_byte c, trim_right-to_lower s, is_empty-to_lower (trim_right s), keep) refl
]

-- White space has no case.
pub trim_space-to_lower : (s : Text) → trim_space (to_lower s) ≡ to_lower (trim_space s)
unfolding trim_space
trim_space-to_lower s = rw (trim_left-to_lower s) (trim_right-to_lower (trim_left s))
