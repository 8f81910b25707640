-- ===== src/Thinking/Suffix/RoundTrip.antt =====
-- A budget that is written as the suffix of a model's name is read back.
use mathlib.Core.List.{append_assoc}
use aistudio_gemini_gateway.Base.{
  zero, suc, ℕ, ◌≤◌, ◌<◌, ◌≡◌, ◌∙◌, ◌≢◌, refl, ap, subst, true, false, none, some, [], ◌∷◌, ◌++◌,
  Text, bytes, nat_eq, text_eq, is_empty, trim_space, trim_left, trim_right, is_space, to_lower,
  lower_byte, ne→==_false, ==_refl, trim_space-append, pos, ℤ_eq, read_nat, decimal, AllDigits,
  decimal-AllDigits, decimal-not_empty, read_nat-decimal, ok, arith,
}
use aistudio_gemini_gateway.Thinking.{ThinkingConfig, mode_none, mode_budget}
use aistudio_gemini_gateway.Thinking.Suffix.{
  split_last, ends_with, drop_last, parse_trimmed, parse_suffix, parse_non_negative, within_int64,
  parse_numeric_suffix, special_mode, parse_special_suffix, named_level, parse_level_suffix,
  numeric_config, parse_suffix_to_config,
}

-- No byte opens a parenthesis.
abbrev pub IsFlat : Text → Type 0
IsFlat [] = Unit
IsFlat (c ∷ s) = (c ≢ b'(') × IsFlat s

split_last-none : (s : Text) → IsFlat s → split_last b'(' s ≡ none
unfolding split_last
split_last-none [] h = refl
split_last-none (c ∷ s) (other, h) =
    rw (split_last, split_last-none s h, ne→==_false c b'(' other) refl

split_last-append :
    (before after : Text)
    → IsFlat after
    → split_last b'(' (before ++ b'(' ∷ after) ≡ some (before, after)
unfolding split_last
split_last-append [] after h = rw (split_last, split_last-none after h) refl
split_last-append (c ∷ before) after h = rw (split_last, split_last-append before after h) refl

ends_with-append : (c : ℕ) (s : Text) → ends_with c (s ++ c ∷ []) ≡ true
unfolding ends_with
ends_with-append c [] = ground (arith, ==_refl c)
ends_with-append c (x ∷ []) = ground (arith, ==_refl c)
ends_with-append c (x ∷ y ∷ s) = ends_with-append c (y ∷ s)

drop_last-append : (c : ℕ) (s : Text) → drop_last (s ++ c ∷ []) ≡ s
unfolding drop_last
drop_last-append c [] = refl
drop_last-append c (x ∷ []) = refl
drop_last-append c (x ∷ y ∷ s) = ap (λ t. x ∷ t) (drop_last-append c (y ∷ s))

IsFlat-close : (s : Text) → IsFlat s → IsFlat (s ++ bytes ")")
IsFlat-close [] h = (omega arith, tt)
IsFlat-close (c ∷ s) (other, h) = (other, IsFlat-close s h)

-- A model's name with a suffix.
abbrev pub with_suffix : Text → Text → Text
with_suffix name raw = name ++ b'(' ∷ (raw ++ bytes ")")

pub trim_space-with_suffix :
    (name raw : Text)
    → trim_space name ≡ name
    → trim_space (with_suffix name raw) ≡ with_suffix name raw
unfolding is_space trim_left
trim_space-with_suffix name raw h = trim_space-append name (b'(' ∷ raw) b')' h refl refl

pub split_last-with_suffix :
    (name raw : Text)
    → IsFlat raw
    → split_last b'(' (with_suffix name raw) ≡ some (name, raw ++ bytes ")")
split_last-with_suffix name raw flat =
    split_last-append name (raw ++ bytes ")") (IsFlat-close raw flat)

pub ends_with-with_suffix : (name raw : Text) → ends_with b')' (with_suffix name raw) ≡ true
ends_with-with_suffix name raw =
    subst (λ t. ends_with b')' t ≡ true) (append_assoc name (b'(' ∷ raw) (bytes ")"))
      (ends_with-append b')' (name ++ b'(' ∷ raw))

pub parse_suffix-with_suffix :
    (name raw : Text)
    → trim_space name ≡ name
    → trim_space raw ≡ raw
    → IsFlat raw
    → parse_suffix (with_suffix name raw)
      ≡ record { model_name = name; has_suffix = true; raw_suffix = raw }
unfolding parse_suffix parse_trimmed
parse_suffix-with_suffix name raw h k flat =
    ap parse_trimmed (trim_space-with_suffix name raw h)
    ∙ rw
        (
          parse_trimmed,
          split_last-with_suffix name raw flat,
          ends_with-with_suffix name raw,
          h,
          drop_last-append b')' raw,
          k,
        )
        refl

AllDigits-IsFlat : (s : Text) → AllDigits s → IsFlat s
AllDigits-IsFlat [] h = tt
AllDigits-IsFlat (c ∷ s) (low, high, h) = (omega (arith, low), AllDigits-IsFlat s h)

digit-is_space : (c : ℕ) → 48 ≤ c → is_space c ≡ false
unfolding is_space
digit-is_space c low = ground arith

AllDigits-trim_right : (s : Text) → AllDigits s → trim_right s ≡ s
unfolding trim_right
AllDigits-trim_right [] h = refl
AllDigits-trim_right (c ∷ s) (low, high, h) =
    rw (digit-is_space c low) (ap (λ t. c ∷ t) (AllDigits-trim_right s h))

AllDigits-trim_space : (s : Text) → AllDigits s → trim_space s ≡ s
unfolding trim_space trim_left
AllDigits-trim_space [] h = AllDigits-trim_right [] h
AllDigits-trim_space (c ∷ s) (low, high, h) =
    rw (digit-is_space c low) (AllDigits-trim_right (c ∷ s) (low, high, h))

AllDigits-lower : (s : Text) → AllDigits s → to_lower s ≡ s
unfolding to_lower lower_byte
AllDigits-lower [] h = refl
AllDigits-lower (c ∷ s) (low, high, h) =
    let same : lower_byte c ≡ c = ground (arith, low, high) in
    rw same (ap (λ t. c ∷ t) (AllDigits-lower s h))

parse_non_negative-digits :
    (s : Text) → AllDigits s → is_empty s ≡ false → parse_non_negative s ≡ within_int64 (read_nat s)
unfolding parse_non_negative
parse_non_negative-digits [] h given = cc
parse_non_negative-digits (c ∷ s) (low, high, h) given = ground arith

special_mode-digits : (s : Text) → AllDigits s → special_mode s ≡ none
unfolding special_mode
special_mode-digits [] h = refl
special_mode-digits (c ∷ s) (low, high, h) = ground arith

named_level-digits : (s : Text) → AllDigits s → named_level s ≡ none
unfolding named_level
named_level-digits [] h = refl
named_level-digits (c ∷ s) (low, high, h) = ground arith

within_int64-small : (n : ℕ) → n < 9223372036854775808 → within_int64 (some n) ≡ some n
unfolding within_int64
within_int64-small n small = ground arith

module _ (n : ℕ) where
  digits-special : parse_special_suffix (decimal n) ≡ none
  unfolding parse_special_suffix
  digits-special =
      rw
        (
          AllDigits-trim_space (decimal n) (decimal-AllDigits n),
          AllDigits-lower (decimal n) (decimal-AllDigits n),
        )
        (special_mode-digits (decimal n) (decimal-AllDigits n))

  digits-level : parse_level_suffix (decimal n) ≡ none
  unfolding parse_level_suffix
  digits-level =
      rw
        (
          AllDigits-trim_space (decimal n) (decimal-AllDigits n),
          AllDigits-lower (decimal n) (decimal-AllDigits n),
        )
        (named_level-digits (decimal n) (decimal-AllDigits n))

  digits-numeric : n < 9223372036854775808 → parse_numeric_suffix (decimal n) ≡ some (pos n)
  unfolding parse_numeric_suffix
  digits-numeric small =
      let within : within_int64 (some n) ≡ some n = within_int64-small n small in
      rw
        (
          parse_numeric_suffix,
          AllDigits-trim_space (decimal n) (decimal-AllDigits n),
          parse_non_negative-digits (decimal n) (decimal-AllDigits n) (decimal-not_empty n),
          read_nat-decimal n,
          within,
        )
        refl

-- No thinking for the budget 0, and else the budget as it is.
abbrev pub config_of_number : ℕ → ThinkingConfig
config_of_number zero = record { mode = mode_none; budget = pos 0; level = [] }
config_of_number (suc n) = record { mode = mode_budget; budget = pos (suc n); level = [] }

pub numeric_config-pos : (n : ℕ) → numeric_config (pos n) ≡ config_of_number n
unfolding numeric_config
numeric_config-pos zero = refl
numeric_config-pos (suc n) = ground arith

-- A model's name with a budget below 2 ^ 63 in parentheses, in decimal digits, is split into the name and
-- the digits, which give the configuration of that budget: the mode none for 0, and else the mode of budgets with that
-- number. The name has no white
-- space around it; it may have parentheses of its own.
pub parse_suffix-decimal :
    (name : Text) (n : ℕ)
    → trim_space name ≡ name
    → n < 9223372036854775808
    → (parse_suffix (with_suffix name (decimal n))
        ≡ record { model_name = name; has_suffix = true; raw_suffix = decimal n })
      × (parse_suffix_to_config (decimal n) name ≡ ok (config_of_number n))
unfolding parse_suffix_to_config
parse_suffix-decimal name n h small = (
  parse_suffix-with_suffix name (decimal n) h
      (AllDigits-trim_space (decimal n) (decimal-AllDigits n))
      (AllDigits-IsFlat (decimal n) (decimal-AllDigits n)),
  rw (parse_suffix_to_config, digits-special n, digits-level n, digits-numeric n small)
      (ap ok (numeric_config-pos n)),
)
