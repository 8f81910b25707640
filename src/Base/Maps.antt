-- ===== src/Base/Maps.antt =====
-- Go maps as association lists: writing replaces the entry of a key, or adds one at the end.
-- The order of the entries is that of no Go iteration; what depends on it says so.
use Prim.Native.Nat.{◌+◌, ◌≤◌}
use mathlib.Core.Path.{◌≡◌, refl, subst₂}
use mathlib.Core.Logic.{◌≢◌, inl, inr}
use mathlib.Core.Bool.{Bool}
use mathlib.Core.List.{List, [], ◌∷◌}
use mathlib.Core.Option.{Option, none, some}
use native.Mathlib.Omega.{arith}
use aistudio_gemini_gateway.Base.Tests.{if◌then◌else◌, Bool-cases, Eq, ◌==◌, ==_iff, ==_refl}
use aistudio_gemini_gateway.Base.Lists.{length, All}

abbrev pub Map {ℓ κ} : Type ℓ → Type κ → Type (ℓ ⊔ κ)
Map K V = List (K × V)

abbrev pub unless {ℓ} : {V : Type ℓ} → (V → Bool) → Option V → Option V
unless p none = none
unless p (some v) = if p v then none else some v

module _ {ℓ κ} {K : Type ℓ} {V : Type κ} ⦃e : Eq K⦄ where
  unfoldable pub lookup : K → Map K V → Option V
  lookup key [] = none
  lookup key ((other, v) ∷ rest) = if other == key then some v else lookup key rest

  unfoldable pub insert : K → V → Map K V → Map K V
  insert key value [] = (key, value) ∷ []
  insert key value ((other, old) ∷ rest) =
      if other == key then (key, value) ∷ rest else (other, old) ∷ insert key value rest

  -- Deletes every entry of the key.
  unfoldable pub delete : K → Map K V → Map K V
  delete k [] = []
  delete k ((j, v) ∷ m) = let rest = delete k m in if j == k then rest else (j, v) ∷ rest

  -- Go's `delete` in a `range` over the map: drops every entry that passes the test.
  unfoldable pub delete_if : (V → Bool) → Map K V → Map K V
  delete_if p [] = []
  delete_if p ((j, v) ∷ m) = let rest = delete_if p m in if p v then rest else (j, v) ∷ rest

  -- No key has two entries.
  abbrev pub HasUniqueKeys : Map K V → Type κ
  HasUniqueKeys [] = Unit
  HasUniqueKeys ((k, _) ∷ m) = (lookup k m ≡ none) × HasUniqueKeys m

  pub lookup-insert :
      (key other : K) (value : V) (entries : Map K V)
      → lookup other (insert key value entries)
        ≡ (if key == other then some value else lookup other entries)
  unfolding lookup insert
  lookup-insert key other value [] = refl
  lookup-insert key other value ((i, old) ∷ rest) =
      ground
        (arith, ==_iff key other, ==_iff i key, ==_iff i other, lookup-insert key other value rest)

  pub lookup-delete :
      (k j : K) (m : Map K V) → lookup j (delete k m) ≡ (if k == j then none else lookup j m)
  unfolding lookup delete
  lookup-delete k j [] = ground arith
  lookup-delete k j ((i, w) ∷ m) =
      ground (arith, ==_iff k j, ==_iff i k, ==_iff i j, lookup-delete k j m)

  pub delete_idempotent : (k : K) (m : Map K V) → delete k (delete k m) ≡ delete k m
  unfolding delete
  delete_idempotent k [] = refl
  delete_idempotent k ((i, w) ∷ m) = ground (arith, delete_idempotent k m)

  pub lookup-insert_self : (k : K) (v : V) (m : Map K V) → lookup k (insert k v m) ≡ some v
  lookup-insert_self k v m = ground (arith, lookup-insert k k v m, ==_refl k)

  pub lookup-delete_self : (k : K) (m : Map K V) → lookup k (delete k m) ≡ none
  lookup-delete_self k m = ground (arith, lookup-delete k k m, ==_refl k)

  pub lookup-insert_ne :
      (k j : K) (v : V) (m : Map K V) → k ≢ j → lookup j (insert k v m) ≡ lookup j m
  lookup-insert_ne k j v m h = ground (arith, lookup-insert k j v m, ==_iff k j)

  pub lookup-delete_ne : (k j : K) (m : Map K V) → k ≢ j → lookup j (delete k m) ≡ lookup j m
  lookup-delete_ne k j m h = ground (arith, lookup-delete k j m, ==_iff k j)

  pub length-insert-le : (k : K) (v : V) (m : Map K V) → length (insert k v m) ≤ length m + 1
  unfolding insert
  length-insert-le k v [] = omega arith
  length-insert-le k v ((j, w) ∷ m) = ground (arith, length-insert-le k v m)

  -- Writing a key that is present adds no entry.
  pub length-insert_present :
      (k : K) (v w : V) (m : Map K V) → lookup k m ≡ some w → length (insert k v m) ≡ length m
  unfolding insert lookup
  length-insert_present k v w [] h = absurd (ground arith)
  length-insert_present k v w ((j, x) ∷ m) h = ground (arith, length-insert_present k v w m)

  -- A property of every entry, kept by each write.
  pub All-insert {μ} :
      (P : K × V → Type μ) (k : K) (v : V) (m : Map K V) → All P m → P (k, v) → All P (insert k v m)
  unfolding insert
  All-insert P k v [] h p = (p, tt)
  All-insert P k v ((j, w) ∷ m) h p = elim (Bool-cases (j == k)) [
    | inl same ↦ rw same (p, h.1)
    | inr other ↦ rw other (h.0, All-insert P k v m h.1 p)
  ]

  pub All-delete {μ} : (P : K × V → Type μ) (k : K) (m : Map K V) → All P m → All P (delete k m)
  unfolding delete
  All-delete P k [] h = tt
  All-delete P k ((j, w) ∷ m) h = elim (Bool-cases (j == k)) [
    | inl same ↦ rw same (All-delete P k m h.1)
    | inr other ↦ rw other (h.0, All-delete P k m h.1)
  ]

  -- A property of every entry holds of the one that a lookup finds.
  pub All-lookup {μ} :
      (P : K × V → Type μ) (k : K) (v : V) (m : Map K V) → All P m → lookup k m ≡ some v → P (k, v)
  unfolding lookup
  All-lookup P k v [] h e = absurd (ground arith)
  All-lookup P k v ((j, w) ∷ m) h e = elim (Bool-cases (j == k)) [
    | inl same ↦ subst₂ (λ a b. P (a, b)) ((==_iff j k).0 same) (ground arith) h.0
    | inr other ↦ All-lookup P k v m h.1 (rw other at e)
  ]

  pub insert-HasUniqueKeys :
      (k : K) (v : V) (m : Map K V) → HasUniqueKeys m → HasUniqueKeys (insert k v m)
  unfolding insert lookup
  insert-HasUniqueKeys k v [] u = (refl, tt)
  insert-HasUniqueKeys k v ((j, w) ∷ m) u = elim (Bool-cases (j == k)) [
    | inl same ↦ rw same (rw (← (==_iff j k).0 same) u.0, u.1)
    | inr other ↦ rw other (
      ground (arith, lookup-insert k j v m, ==_iff k j, ==_iff j k, u.0),
      insert-HasUniqueKeys k v m u.1,
    )
  ]

  pub delete-HasUniqueKeys : (k : K) (m : Map K V) → HasUniqueKeys m → HasUniqueKeys (delete k m)
  unfolding delete
  delete-HasUniqueKeys k [] u = tt
  delete-HasUniqueKeys k ((j, w) ∷ m) u = elim (Bool-cases (j == k)) [
    | inl same ↦ rw same (delete-HasUniqueKeys k m u.1)
    | inr other ↦ rw other (ground (arith, lookup-delete k j m, u.0), delete-HasUniqueKeys k m u.1)
  ]

  pub lookup-delete_if :
      (p : V → Bool) (k : K) (m : Map K V)
      → HasUniqueKeys m
      → lookup k (delete_if p m) ≡ unless p (lookup k m)
  unfolding delete_if lookup
  lookup-delete_if p k [] u = refl
  lookup-delete_if p k ((j, w) ∷ m) u =
      ground (arith, lookup-delete_if p k m u.1, lookup-delete_if p j m u.1, ==_iff j k, u.0)

  pub delete_if-HasUniqueKeys :
      (p : V → Bool) (m : Map K V) → HasUniqueKeys m → HasUniqueKeys (delete_if p m)
  unfolding delete_if
  delete_if-HasUniqueKeys p [] u = tt
  delete_if-HasUniqueKeys p ((j, w) ∷ m) u = elim (Bool-cases (p w)) [
    | inl gone ↦ rw gone (delete_if-HasUniqueKeys p m u.1)
    | inr stays ↦
        rw stays (ground (arith, lookup-delete_if p j m u.1, u.0), delete_if-HasUniqueKeys p m u.1)
  ]
