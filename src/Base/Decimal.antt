-- ===== src/Base/Decimal.antt =====
-- Decimal numerals: `%d` of a number, and strconv.ParseInt in base ten on 64 bits.
use Prim.Native.Nat.{ℕ, zero, suc, ◌+◌, ◌-◌, ◌*◌, ◌/◌, ◌%◌, ◌<◌, ◌≤◌}
use mathlib.Core.Path.{◌≡◌, refl, ◌∙◌, ap}
use mathlib.Core.Logic.{inl, inr}
use mathlib.Core.Bool.{Bool, true, false, ◌&&◌}
use mathlib.Core.Option.{Option, none, some}
use mathlib.Core.List.{[], ◌∷◌}
use native.Mathlib.Omega.{arith}
use aistudio_gemini_gateway.Base.Tests.{ltb, leb, if◌then◌else◌, Bool-cases, if-intro, nat_eq}
use aistudio_gemini_gateway.Base.Strings.{Text, is_empty}
use aistudio_gemini_gateway.Base.Int.{ℤ, pos, negsuc}

-- The digits of a number in front of those already written.
unfoldable pub digits : ℕ → ℕ → Text → Text
digits zero n tail = tail
digits (suc fuel) n tail =
    let now = (48 + n % 10) ∷ tail in
    let rest = digits fuel (n / 10) now in if ltb n 10 then now else rest

unfoldable pub decimal : ℕ → Text
unfolding digits
decimal n = digits (suc n) n []

unfoldable pub decimal_ℤ : ℤ → Text
unfolding decimal
decimal_ℤ (pos n) = decimal n
decimal_ℤ (negsuc n) = b'-' ∷ decimal (suc n)

unfoldable pub is_digit : ℕ → Bool
is_digit c = leb 48 c && leb c 57

-- The value of a text of digits in front of which `acc` was read.
unfoldable pub read_digits : ℕ → Text → Option ℕ
unfolding is_digit
read_digits acc [] = some acc
read_digits acc (c ∷ s) =
    let rest = read_digits (acc * 10 + (c - 48)) s in if is_digit c then rest else none

unfoldable pub read_nat : Text → Option ℕ
unfolding read_digits
read_nat [] = none
read_nat (c ∷ s) = read_digits 0 (c ∷ s)

read_digits-cons :
    (k d : ℕ) (tail : Text)
    → d < 10
    → read_digits k ((48 + d) ∷ tail) ≡ read_digits (k * 10 + d) tail
unfolding read_digits is_digit
read_digits-cons k d tail h = rw (low, high) (ap (λ v. read_digits v tail) (omega arith))
  where
    low : leb 48 (48 + d) ≡ true
    low = ground arith

    high : leb (48 + d) 57 ≡ true
    high = ground arith

read_digits-digits :
    (fuel n : ℕ) (tail : Text) → n < fuel → read_digits 0 (digits fuel n tail) ≡ read_digits n tail
unfolding digits
read_digits-digits zero n tail h = absurd (omega arith)
read_digits-digits (suc fuel) n tail h = elim (Bool-cases (ltb n 10)) [
  | inl small ↦
      rw small (
        read_digits-cons 0 (n % 10) tail (omega arith)
        ∙ ap (λ v. read_digits v tail) (ground arith))
  | inr large ↦ rw large (
      read_digits-digits fuel (n / 10) ((48 + n % 10) ∷ tail) (ground arith)
      ∙ read_digits-cons (n / 10) (n % 10) tail (omega arith)
      ∙ ap (λ v. read_digits v tail) (omega arith))
]

-- A property of each digit, and of the tail, holds of the numeral.
abbrev pub AllDigits : Text → Type 0
AllDigits [] = Unit
AllDigits (c ∷ s) = (48 ≤ c) × (c ≤ 57) × AllDigits s

digits-AllDigits : (fuel n : ℕ) (tail : Text) → AllDigits tail → AllDigits (digits fuel n tail)
unfolding digits
digits-AllDigits zero n tail h = h
digits-AllDigits (suc fuel) n tail h = elim (Bool-cases (ltb n 10)) [
  | inl small ↦ rw small (omega arith, omega arith, h)
  | inr large ↦
      rw large (digits-AllDigits fuel (n / 10) ((48 + n % 10) ∷ tail) (omega arith, omega arith, h))
]

pub decimal-AllDigits : (n : ℕ) → AllDigits (decimal n)
unfolding decimal
decimal-AllDigits n = digits-AllDigits (suc n) n [] tt

digits-not_empty :
    (fuel n : ℕ) (tail : Text) → is_empty tail ≡ false → is_empty (digits fuel n tail) ≡ false
unfolding digits
digits-not_empty zero n tail h = h
digits-not_empty (suc fuel) n tail h =
    if-intro (λ t. is_empty t ≡ false) (ltb n 10) (λ _. refl)
      (λ _. digits-not_empty fuel (n / 10) _ refl)

pub decimal-not_empty : (n : ℕ) → is_empty (decimal n) ≡ false
unfolding decimal digits
decimal-not_empty n =
    if-intro (λ t. is_empty t ≡ false) (ltb n 10) (λ _. refl)
      (λ _. digits-not_empty n (n / 10) _ refl)

read_nat-read_digits : (t : Text) → is_empty t ≡ false → read_nat t ≡ read_digits 0 t
unfolding read_nat
read_nat-read_digits [] h = cc
read_nat-read_digits (c ∷ t) h = refl

-- A numeral that is written can be read.
pub read_nat-decimal : (n : ℕ) → read_nat (decimal n) ≡ some n
unfolding decimal read_digits
read_nat-decimal n =
    read_nat-read_digits _ (decimal-not_empty n) ∙ read_digits-digits (suc n) n [] (omega arith)
