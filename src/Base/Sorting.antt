-- ===== src/Base/Sorting.antt =====
-- sort.SliceStable, by insertion: a stable sort by a strict weak order has one result only.
use mathlib.Core.Path.{◌≡◌}
use mathlib.Core.Logic.{inl, inr}
use mathlib.Core.Bool.{Bool, true, false}
use mathlib.Core.List.{List, [], ◌∷◌, Perm}
use mathlib.Core.List.Perm
use aistudio_gemini_gateway.Base.Tests.{if◌then◌else◌, Bool-cases}
use aistudio_gemini_gateway.Base.Lists.{All}

module _ {ℓ} {A : Type ℓ} (less : A → A → Bool) where
  unfoldable pub insert_stable : A → List A → List A
  insert_stable x [] = x ∷ []
  insert_stable x (y ∷ ys) = if less y x then y ∷ insert_stable x ys else x ∷ y ∷ ys

  unfoldable pub sort_stable : List A → List A
  unfolding insert_stable
  sort_stable [] = []
  sort_stable (x ∷ xs) = insert_stable x (sort_stable xs)

  -- No element stands before one that is less.
  abbrev pub IsSorted : List A → Type ℓ
  IsSorted [] = Unit
  IsSorted (x ∷ xs) = All (λ y. less y x ≡ false) xs × IsSorted xs

  All-insert_stable {κ} :
      (P : A → Type κ) (x : A) (ys : List A) → P x → All P ys → All P (insert_stable x ys)
  unfolding insert_stable
  All-insert_stable P x [] p h = (p, tt)
  All-insert_stable P x (y ∷ ys) p (q, h) = elim (Bool-cases (less y x)) [
    | inl before ↦ rw before (q, All-insert_stable P x ys p h)
    | inr after ↦ rw after (p, (q, h))
  ]

  pub All-sort_stable {κ} : (P : A → Type κ) (xs : List A) → All P xs → All P (sort_stable xs)
  unfolding sort_stable
  All-sort_stable P [] h = tt
  All-sort_stable P (x ∷ xs) (p, h) =
      All-insert_stable P x (sort_stable xs) p (All-sort_stable P xs h)

  All-of_insert_stable {κ} :
      (P : A → Type κ) (x : A) (ys : List A) → All P (insert_stable x ys) → P x × All P ys
  unfolding insert_stable
  All-of_insert_stable P x [] = λ h. h
  All-of_insert_stable P x (y ∷ ys) = elim (Bool-cases (less y x)) [
    | inl before ↦ rw before (λ h. let (p, k) = All-of_insert_stable P x ys h.1 in (p, (h.0, k)))
    | inr after ↦ rw after (λ h. h)
  ]

  pub All-of_sort_stable {κ} : (P : A → Type κ) (xs : List A) → All P (sort_stable xs) → All P xs
  unfolding sort_stable
  All-of_sort_stable P [] h = tt
  All-of_sort_stable P (x ∷ xs) h =
      let (p, k) = All-of_insert_stable P x (sort_stable xs) h in (p, All-of_sort_stable P xs k)

  insert_stable-perm : (x : A) (ys : List A) → Perm (insert_stable x ys) (x ∷ ys)
  unfolding insert_stable
  insert_stable-perm x [] = Perm.refl (x ∷ [])
  insert_stable-perm x (y ∷ ys) = elim (Bool-cases (less y x)) [
    | inl before ↦ rw before (Perm.trans (Perm.cons y (insert_stable-perm x ys)) (Perm.swap x y ys))
    | inr after ↦ rw after (Perm.refl (x ∷ y ∷ ys))
  ]

  pub sort_stable-perm : (xs : List A) → Perm (sort_stable xs) xs
  unfolding sort_stable
  sort_stable-perm [] = Perm.refl []
  sort_stable-perm (x ∷ xs) =
      Perm.trans (insert_stable-perm x (sort_stable xs)) (Perm.cons x (sort_stable-perm xs))

  module _ (asym : (a b : A) → less a b ≡ true → less b a ≡ false)
      (not_less_trans : (a b c : A) → less b a ≡ false → less c b ≡ false → less c a ≡ false) where
    All-not_less :
        (a b : A) (xs : List A)
        → less b a ≡ false
        → All (λ y. less y b ≡ false) xs
        → All (λ y. less y a ≡ false) xs
    All-not_less a b [] h k = tt
    All-not_less a b (c ∷ xs) h (p, k) = (not_less_trans a b c h p, All-not_less a b xs h k)

    insert_stable-IsSorted : (x : A) (ys : List A) → IsSorted ys → IsSorted (insert_stable x ys)
    unfolding insert_stable
    insert_stable-IsSorted x [] h = (tt, tt)
    insert_stable-IsSorted x (y ∷ ys) (front, rest) = elim (Bool-cases (less y x)) [
      | inl before ↦ rw before (
        All-insert_stable (λ z. less z y ≡ false) x ys (asym y x before) front,
        insert_stable-IsSorted x ys rest,
      )
      | inr after ↦ rw after ((after, All-not_less x y ys after front), (front, rest))
    ]

    pub sort_stable-IsSorted : (xs : List A) → IsSorted (sort_stable xs)
    unfolding sort_stable
    sort_stable-IsSorted [] = tt
    sort_stable-IsSorted (x ∷ xs) =
        insert_stable-IsSorted x (sort_stable xs) (sort_stable-IsSorted xs)
