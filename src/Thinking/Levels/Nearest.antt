-- ===== src/Thinking/Levels/Nearest.antt =====
-- A level that a model does not support becomes the nearest one that it does.
use aistudio_gemini_gateway.Base.{
  ℕ, suc, ◌+◌, ◌≤◌, ◌<◌, ◌≡◌, ◌∙◌, ◌⊎◌, inl, inr, refl, sym, ap, subst, Bool, true, false, ◌&&◌,
  ◌||◌, Option, none, some, List, [], ◌∷◌, Text, nat_eq, text_eq, ◌==◌, ==_iff, ==_refl,
  All-get_elem?, trim_space, trim_left, trim_right, is_space, to_lower, to_lower_idempotent,
  equal_fold, ltb, Bool-cases, Option-cases, All, get_elem?, length, arith,
}
use aistudio_gemini_gateway.Thinking.Levels.{
  standard_level_order, find_level, level_index, has_level, has_lowered, distance, best_index,
  pick_level, clamp_level,
}

-- Not farther from the level than another place, and lower where both are as far.
abbrev pub IsNearer : ℕ → ℕ → ℕ → Type 0
IsNearer at q i = (distance at q < distance at i) ⊎ ((distance at q ≡ distance at i) × (q ≤ i))

-- No other place named by an item is nearer; an item that is no standard level names none.
abbrev pub Beats : ℕ → ℕ → Option ℕ → Type 0
Beats at q none = Unit
Beats at q (some i) = IsNearer at q i

IsNearer-trans : (at q b i : ℕ) → IsNearer at q b → IsNearer at b i → IsNearer at q i
IsNearer-trans at q b i h k = ground arith

find_level-fits :
    (order : List Text) (start q : ℕ) (level : Text)
    → find_level start order level ≡ some q
    → (k : ℕ) × (found : Text) × (q ≡ start + k)
      × (get_elem? order k ≡ some found)
      × (equal_fold found level ≡ true)
      × (k < length order)
unfolding find_level
find_level-fits [] start q level e = absurd (cc)
find_level-fits (item ∷ order) start q level e = elim (Bool-cases (equal_fold item level)) [
  | inl same ↦ (0, item, ground (arith, same), refl, same, omega arith)
  | inr other ↦
      let (k, found, at, there, same, short) =
        find_level-fits order (suc start) q level (rw other at e) in
      (suc k, found, omega arith, there, same, omega arith)
]

-- The standard level at a place.
abbrev pub IsStandard : ℕ → Text → Type 0
IsStandard q level = get_elem? standard_level_order q ≡ some level

level_index-fits :
    (item : Text) (q : ℕ)
    → level_index item ≡ some q
    → (level : Text) × IsStandard q level
      × (equal_fold level (to_lower (trim_space item)) ≡ true)
      × (q < 6)
unfolding level_index
level_index-fits item q e =
    let (k, found, at, there, same, short) = find_level-fits standard_level_order 0 q _ e in
    let place : q ≡ k = omega arith in
    (found, subst (λ n. IsStandard n found) (sym place) there, same, omega arith)

-- No standard level has white space around it.
standard-trimmed : All (λ level. trim_space level ≡ level) standard_level_order
unfolding trim_space trim_left trim_right is_space
standard-trimmed = (refl, (refl, (refl, (refl, (refl, (refl, tt))))))

-- A list with an item that names a standard level has that level.
index-has_level :
    (item : Text) (items : List Text) (q : ℕ) (level : Text)
    → level_index item ≡ some q
    → IsStandard q level
    → has_level (item ∷ items) level ≡ true
unfolding has_level has_lowered equal_fold
index-has_level item items q level e at =
    let (found, there, same, _) = level_index-fits item q e in
    let meant : found ≡ level = cc in
    let folded : to_lower level ≡ to_lower (to_lower (trim_space item)) =
      (==_iff (to_lower level) (to_lower (to_lower (trim_space item)))).0
        (subst (λ l. equal_fold l (to_lower (trim_space item)) ≡ true) meant same) in
    let trimmed : trim_space level ≡ level =
      All-get_elem? (λ l. trim_space l ≡ l) standard_level_order q level standard-trimmed at in
    rw
      (
        trimmed,
        to_lower_idempotent level,
        folded,
        to_lower_idempotent (trim_space item),
        ==_refl (to_lower (trim_space item)),
      )
      refl

has_level-cons :
    (item : Text) (items : List Text) (level : Text)
    → has_level items level ≡ true
    → has_level (item ∷ items) level ≡ true
unfolding has_level has_lowered
has_level-cons item items level h = ground (arith, h)

-- What the loop finds: a place as near as every other one, the best so far included, which was the best
-- so far or is that of an item.
Finds : ℕ → List Text → ℕ → Option ℕ → Type 0
Finds at items best o =
    (q : ℕ) × (level : Text) × (o ≡ some q)
    × IsStandard q level
    × IsNearer at q best
    × All (λ item. Beats at q (level_index item)) items
    × ((q ≡ best) ⊎ (has_level items level ≡ true))

from_rest :
    (item : Text) (items : List Text) (q best : ℕ) (level : Text)
    → (q ≡ best) ⊎ (has_level items level ≡ true)
    → (q ≡ best) ⊎ (has_level (item ∷ items) level ≡ true)
from_rest item items q best level (inl same) = inl same
from_rest item items q best level (inr held) = inr (has_level-cons item items level held)

from_item :
    (item : Text) (items : List Text) (q i best : ℕ) (level : Text)
    → level_index item ≡ some i
    → IsStandard q level
    → (q ≡ i) ⊎ (has_level items level ≡ true)
    → (q ≡ best) ⊎ (has_level (item ∷ items) level ≡ true)
from_item item items q i best level index at (inl same) =
    inr (index-has_level item items q level (index ∙ ap some (sym same)) at)
from_item item items q i best level index at (inr held) = inr (has_level-cons item items level held)

-- The loop's test of an item against the best one so far.
abbrev closer : ℕ → ℕ → ℕ → Bool
closer at i best =
    ltb (distance at i) (distance at best) || (distance at i == distance at best && ltb i best)

closer-IsNearer : (at i best : ℕ) → closer at i best ≡ true → IsNearer at i best
closer-IsNearer at i best h = ground arith

not_closer-IsNearer : (at i best : ℕ) → closer at i best ≡ false → IsNearer at best i
not_closer-IsNearer at i best h = ground arith

best_index-Finds :
    (at : ℕ) (items : List Text) (best : ℕ) (level : Text)
    → IsStandard best level
    → Finds at items best (best_index at items (some best) (distance at best))
unfolding best_index Finds
best_index-Finds at [] best level h = (best, level, refl, h, inr (refl, omega arith), tt, inl refl)
best_index-Finds at (item ∷ items) best level h = elim (Option-cases (level_index item)) [
  | inl nothing ↦
      let (q, found, e, there, near, all, origin) = best_index-Finds at items best level h in
      rw (best_index, nothing)
        (q, found, e, there, near, (tt, all), from_rest item items q best found origin)
  | inr (i, index) ↦ elim (Bool-cases (closer at i best)) [
    | inl yes_closer ↦
        let (mine, standard, _, _) = level_index-fits item i index in
        let (q, found, e, there, near, all, origin) = best_index-Finds at items i mine standard in
        rw (best_index, index, yes_closer)
          (
            q,
            found,
            e,
            there,
            IsNearer-trans at q i best near (closer-IsNearer at i best yes_closer),
            (near, all),
            from_item item items q i best found index there origin,
          )
    | inr farther ↦
        let (q, found, e, there, near, all, origin) = best_index-Finds at items best level h in
        rw (best_index, index, farther)
          (
            q,
            found,
            e,
            there,
            near,
            (IsNearer-trans at q best i near (not_closer-IsNearer at i best farther), all),
            from_rest item items q best found origin,
          )
  ]
]

-- The loop from its start: no item names a standard level, or it finds the place of one.
FindsFirst : ℕ → List Text → Option ℕ → Type 0
FindsFirst at items o =
    ((o ≡ none) × All (λ item. level_index item ≡ none) items)
    ⊎ ((q : ℕ) × (level : Text) × (o ≡ some q)
        × IsStandard q level
        × (has_level items level ≡ true)
        × All (λ item. Beats at q (level_index item)) items)

FindsFirst-pass :
    (at : ℕ) (item : Text) (items : List Text) (o : Option ℕ)
    → level_index item ≡ none
    → FindsFirst at items o
    → FindsFirst at (item ∷ items) o
unfolding FindsFirst
FindsFirst-pass at item items o nothing (inl (e, all)) = inl (e, (nothing, all))
FindsFirst-pass at item items o nothing (inr (q, level, e, there, has, all)) =
    inr (q, level, e, there, has_level-cons item items level has, rw nothing (tt, all))

best_index-FindsFirst :
    (at : ℕ) (items : List Text) → at < 6 → FindsFirst at items (best_index at items none 7)
unfolding best_index FindsFirst Finds
best_index-FindsFirst at [] h = inl (refl, tt)
best_index-FindsFirst at (item ∷ items) h = elim (Option-cases (level_index item)) [
  | inl nothing ↦
      let step : best_index at (item ∷ items) none 7 ≡ best_index at items none 7 =
        rw (best_index, nothing) refl in
      subst (FindsFirst at (item ∷ items)) (sym step)
        (FindsFirst-pass at item items _ nothing (best_index-FindsFirst at items h))
  | inr (i, index) ↦
      let (mine, standard, _, small) = level_index-fits item i index in
      let first : ltb (distance at i) 7 ≡ true = ground (arith, small, h) in
      let (q, found, e, there, near, all, origin) = best_index-Finds at items i mine standard in
      rw (best_index, index, first)
        (inr (q, found, e, there, held q i found index there origin, (near, all)))
]
  where
    held :
        (q i : ℕ) (found : Text)
        → level_index item ≡ some i
        → IsStandard q found
        → (q ≡ i) ⊎ (has_level items found ≡ true)
        → has_level (item ∷ items) found ≡ true
    held q i found index there (inl same) =
        index-has_level item items q found (index ∙ ap some (sym same)) there
    held q i found index there (inr has) = has_level-cons item items found has

-- What becomes of a level is as near as can be.
abbrev IsNearest : ℕ → List Text → Text → Text → Type 0
IsNearest at supported level result =
    ((result ≡ level) × All (λ item. level_index item ≡ none) supported)
    ⊎ ((q : ℕ) × IsStandard q result
        × (has_level supported result ≡ true)
        × All (λ item. Beats at q (level_index item)) supported)

pick_level-IsNearest :
    (at : ℕ) (supported : List Text) (level : Text) (o : Option ℕ)
    → FindsFirst at supported o
    → IsNearest at supported level (pick_level o level)
unfolding FindsFirst
pick_level-IsNearest at supported level o (inl (e, all)) = rw e (inl (refl, all))
pick_level-IsNearest at supported level o (inr (q, found, e, there, has, all)) =
    let picked : pick_level o level ≡ found = cc in rw picked (inr (q, there, has, all))

-- A level that is not supported, but has a place in the standard order, becomes a standard level that is
-- supported, and no other supported one is nearer in that order, nor as near and lower. Only if no
-- supported level has a place in that order it stays.
pub clamp_level-nearest :
    (level : Text) (supported : List Text) (at : ℕ)
    → has_level supported level ≡ false
    → level_index level ≡ some at
    → ((clamp_level level supported ≡ level) × All (λ item. level_index item ≡ none) supported)
      ⊎ ((q : ℕ) × IsStandard q (clamp_level level supported)
          × (has_level supported (clamp_level level supported) ≡ true)
          × All (λ item. Beats at q (level_index item)) supported)
unfolding clamp_level
clamp_level-nearest level [] at h index = inl (refl, tt)
clamp_level-nearest level (item ∷ items) at h index =
    let (_, _, _, small) = level_index-fits level at index in
    rw (clamp_level, h, index)
      (pick_level-IsNearest at (item ∷ items) level _
        (best_index-FindsFirst at (item ∷ items) small))
