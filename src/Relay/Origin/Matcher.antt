-- ===== src/Relay/Origin/Matcher.antt =====
-- The matcher of origins against patterns with stars.
use aistudio_gemini_gateway.Base.{
  ℕ, zero, suc, ◌+◌, ◌*◌, ◌≤◌, ◌<◌, ◌≡◌, ◌∙◌, refl, sym, subst, ◌≢◌, ◌↔◌, inl, inr, Bool, true,
  false, Option, none, some, [], ◌∷◌, Text, nat_eq, ◌==◌, ==_iff, length, Bool-cases, arith,
}
use aistudio_gemini_gateway.Relay.Origin.{only_stars, Restart, go_back, match_loop, enough_fuel}

-- A text that fits a pattern: a star stands for any bytes, another byte for itself.
pub data Fits : Text → Text → Type 0 where
  end : Fits [] []
  literal : (c : ℕ) {p s : Text} → Fits p s → Fits (c ∷ p) (c ∷ s)
  any_byte : {x c : ℕ} {p s : Text} → x ≡ b'*' → Fits (x ∷ p) s → Fits (x ∷ p) (c ∷ s)
  no_byte : {x : ℕ} {p s : Text} → x ≡ b'*' → Fits p s → Fits (x ∷ p) s

-- Some end of the text fits.
data EndFits : Text → Text → Type 0 where
  here : {p s : Text} → Fits p s → EndFits p s
  later : {p s : Text} {c : ℕ} → EndFits p s → EndFits p (c ∷ s)

-- No byte is a star.
abbrev pub IsPlain : Text → Type 0
IsPlain [] = Unit
IsPlain (c ∷ s) = (c ≢ b'*') × IsPlain s

Fits-only_stars : (p : Text) → (only_stars p ≡ true) ↔ Fits p []
unfolding only_stars
Fits-only_stars [] = ((λ _. end), λ _. refl)
Fits-only_stars (x ∷ p) = elim (Bool-cases (x == b'*')) [
  | inl star ↦ rw star (
    (λ h. no_byte ((==_iff x b'*').0 star) ((Fits-only_stars p).0 h)),
    λ f. (Fits-only_stars p).1 (none_left f),
  )
  | inr other ↦ rw other ((λ h. cc), λ f. absurd (ground (arith, ==_iff x b'*', marked f)))
]
  where
    none_left : Fits (x ∷ p) [] → Fits p []
    none_left (no_byte e f) = f

    marked : Fits (x ∷ p) [] → x ≡ b'*'
    marked (no_byte e f) = e

Fits-nil : {c : ℕ} {s : Text} → Fits [] (c ∷ s) → ⊥
Fits-nil f = elim f [ ]

-- A byte that is no star has to stand in the text.
Fits-byte : {x c : ℕ} {p s : Text} → x ≢ b'*' → Fits (x ∷ p) (c ∷ s) → (x ≡ c) × Fits p s
Fits-byte plain (literal c f) = (refl, f)
Fits-byte plain (any_byte e f) = absurd (plain e)
Fits-byte plain (no_byte e f) = absurd (plain e)

EndFits-nil : {p : Text} → EndFits p [] → Fits p []
EndFits-nil (here f) = f

EndFits-tail : {p s : Text} {c : ℕ} → (Fits p (c ∷ s) → ⊥) → EndFits p (c ∷ s) → EndFits p s
EndFits-tail h (here f) = absurd (h f)
EndFits-tail h (later e) = e

EndFits-pass : {x : ℕ} {p s : Text} → x ≢ b'*' → EndFits (x ∷ p) s → EndFits p s
EndFits-pass plain (here (literal c f)) = later (here f)
EndFits-pass plain (here (any_byte e f)) = absurd (plain e)
EndFits-pass plain (here (no_byte e f)) = absurd (plain e)
EndFits-pass plain (later e) = later (EndFits-pass plain e)

-- Past a byte that is no star.
EndFits-byte : {x c : ℕ} {p s : Text} → x ≢ b'*' → EndFits (x ∷ p) (c ∷ s) → EndFits p s
EndFits-byte plain (here f) = here (Fits-byte plain f).1
EndFits-byte plain (later e) = EndFits-pass plain e

-- A star fits what an end of the text fits.
Fits-star : {x : ℕ} {p s : Text} → x ≡ b'*' → EndFits p s → Fits (x ∷ p) s
Fits-star star (here f) = no_byte star f
Fits-star star (later e) = any_byte star (Fits-star star e)

Fits-EndFits : {x : ℕ} {p s : Text} → Fits (x ∷ p) s → x ≡ b'*' → EndFits p s
Fits-EndFits (literal c f) star = later (here f)
Fits-EndFits (any_byte e f) star = later (Fits-EndFits f star)
Fits-EndFits (no_byte e f) star = here f

EndFits-star : {x : ℕ} {p s : Text} → x ≡ b'*' → EndFits (x ∷ p) s → EndFits p s
EndFits-star star (here f) = Fits-EndFits f star
EndFits-star star (later e) = later (EndFits-star star e)

-- The run gives an answer, and it is the truth about `G`.
abbrev Settles : Type 0 → Option Bool → Type 0
Settles G o = (b : Bool) × (o ≡ some b) × ((b ≡ true) ↔ G)

module _ (G : Type 0) (width : ℕ) where
  -- What going back to the last star would find, with at most `left` bytes for it to take.
  abbrev Spare : ℕ → Text → Text → Restart → Type 0
  Spare left p s none = G → Fits p s
  Spare left p s (some (q, from)) =
      (G ↔ EndFits q from)
      × (Fits q from → Fits p s)
      × (length s ≤ length from)
      × (length from ≤ left)
      × (length q < width)
      × IsPlain from

  record Stage (fuel left : ℕ) (p s : Text) (back : Restart) : Type 0 where
    enough : Fits p s → G
    ahead : G → EndFits p s
    spare : Spare left p s back
    plain : IsPlain s
    short : length s ≤ left
    narrow : length p < width
    paid : left * width + length p < fuel

  Stage-star :
      {fuel left x : ℕ} {p s : Text} {back : Restart}
      → Stage (suc fuel) left (x ∷ p) s back
      → x ≡ b'*'
      → Stage fuel left p s (some (p, s))
  Stage-star {p} {s} t star = record {
    enough = λ f. t.enough (no_byte star f);
    ahead = λ g. EndFits-star star (t.ahead g);
    spare = (
      ((λ g. EndFits-star star (t.ahead g)), λ e. t.enough (Fits-star star e)),
      (λ f. f),
      omega arith,
      t.short,
      omega (arith, t.narrow),
      t.plain,
    );
    plain = t.plain;
    short = t.short;
    narrow = omega (arith, t.narrow);
    paid = omega (arith, t.paid);
  }

  Spare-literal :
      (left x : ℕ) (p s : Text) (back : Restart)
      → x ≢ b'*'
      → Spare left (x ∷ p) (x ∷ s) back
      → Spare left p s back
  Spare-literal left x p s none h = λ kept g. (Fits-byte h (kept g)).1
  Spare-literal left x p s (some (q, from)) h =
      λ u. (u.0, (λ f. (Fits-byte h (u.1 f)).1), omega (arith, u.2), u.3, u.4, u.5)

  Stage-literal :
      {fuel left x c : ℕ} {p s : Text} {back : Restart}
      → Stage (suc fuel) left (x ∷ p) (c ∷ s) back
      → x ≡ c
      → Stage fuel left p s back
  Stage-literal {fuel} {left} {x} {c} {p} {s} {back} t same = record {
    enough = λ f. t.enough (subst (λ y. Fits (x ∷ p) (y ∷ s)) same (literal x f));
    ahead = λ g. EndFits-byte h (t.ahead g);
    spare =
        Spare-literal left x p s back h
          (subst (λ y. Spare left (x ∷ p) (y ∷ s) back) (sym same) t.spare);
    plain = t.plain.1;
    short = omega (arith, t.short);
    narrow = omega (arith, t.narrow);
    paid = omega (arith, t.paid);
  }
    where
      h : x ≢ b'*'
      h = λ e. t.plain.0 (sym same ∙ e)

  -- A mismatch costs one byte of the last star.
  go_back-Settles :
      (fuel left c : ℕ) (p s : Text) (back : Restart)
      → (Fits p (c ∷ s) → ⊥)
      → ((l : ℕ) (q r : Text) (b : Restart)
          → Stage fuel l q r b
          → Settles G (match_loop fuel q r b))
      → Stage (suc fuel) left p (c ∷ s) back
      → Settles G (go_back back (match_loop fuel))
  unfolding go_back
  go_back-Settles fuel left c p s none no_fit next t =
      (false, refl, ((λ h. cc), λ g. absurd (no_fit (t.spare g))))
  go_back-Settles fuel left c p s (some (q, [])) no_fit next t = absurd (omega (arith, t.spare.2))
  go_back-Settles fuel zero c p s (some (q, d ∷ from)) no_fit next t =
      absurd (omega (arith, t.spare.3))
  go_back-Settles fuel (suc left) c p s (some (q, d ∷ from)) no_fit next t =
      next left q from (some (q, from)) record {
        enough = λ f. t.spare.0.1 (later (here f));
        ahead = onward;
        spare = (
          (onward, λ e. t.spare.0.1 (later e)),
          (λ f. f),
          omega arith,
          omega (arith, t.spare.3),
          t.spare.4,
          t.spare.5.1,
        );
        plain = t.spare.5.1;
        short = omega (arith, t.spare.3);
        narrow = t.spare.4;
        paid = omega (arith, t.paid, t.spare.4);
      }
    where
      onward : G → EndFits q from
      onward g = EndFits-tail (λ f. no_fit (t.spare.1 f)) (t.spare.0.0 g)

  match_loop-Settles :
      (fuel left : ℕ) (p s : Text) (back : Restart)
      → Stage fuel left p s back
      → Settles G (match_loop fuel p s back)
  unfolding match_loop
  match_loop-Settles zero left p s back t = absurd (omega (arith, t.paid))
  match_loop-Settles (suc fuel) left p [] back t = (
    only_stars p,
    refl,
    (
      (λ h. t.enough ((Fits-only_stars p).0 h)),
      λ g. (Fits-only_stars p).1 (EndFits-nil (t.ahead g)),
    ),
  )
  match_loop-Settles (suc fuel) left [] (c ∷ s) back t =
      go_back-Settles fuel left c [] s back Fits-nil (match_loop-Settles fuel) t
  match_loop-Settles (suc fuel) left (x ∷ p) (c ∷ s) back t = elim (Bool-cases (x == c)) [
    | inl same ↦
        rw same (match_loop-Settles fuel left p s back (Stage-literal t ((==_iff x c).0 same)))
    | inr differs ↦ elim (Bool-cases (x == b'*')) [
      | inl star ↦
          rw (differs, star)
            (match_loop-Settles fuel left p (c ∷ s) (some (p, c ∷ s))
              (Stage-star t ((==_iff x b'*').0 star)))
      | inr other ↦
          rw (differs, other)
            (go_back-Settles fuel left c (x ∷ p) s back
              (λ f. ground (
                arith,
                ==_iff x c,
                ==_iff x b'*',
                (Fits-byte (λ e. ground (arith, ==_iff x b'*')) f).0,
              ))
              (match_loop-Settles fuel) t)
    ]
  ]

-- On an origin with no star in it, the matcher's loop comes to an end within the fuel of the bounds
-- `|origin| + 1` and `|pattern| + 1` multiplied, and it answers yes exactly when the origin fits the
-- pattern, each star of which stands for any bytes.
pub match_loop-answers :
    (p s : Text)
    → IsPlain s
    → (b : Bool) × (match_loop (enough_fuel p s) p s none ≡ some b) × ((b ≡ true) ↔ Fits p s)
match_loop-answers p s plain =
    match_loop-Settles (Fits p s) (suc (length p)) (enough_fuel p s) (length s) p s none record {
      enough = λ f. f;
      ahead = here;
      spare = λ f. f;
      plain = plain;
      short = omega arith;
      narrow = omega arith;
      paid = omega arith;
    }
