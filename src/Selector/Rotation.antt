-- ===== src/Selector/Rotation.antt =====
-- How round robin goes round, and what its table of cursors holds.
use aistudio_gemini_gateway.Base.{
  ℕ, ◌+◌, ◌≤◌, ◌<◌, ◌≡◌, refl, ap, inl, inr, true, false, none, some, [], Text, Map, nat_eq,
  text_eq, lookup, insert, lookup-insert, length, length-insert-le, length-insert_present, leb,
  Option-cases, Bool-cases, if◌then◌else◌, ◌==◌, arith,
}
use aistudio_gemini_gateway.Selector.{RoundRobin, make_room, cursor_at, cursor_wrap, advance}

-- The step over the table that is left after room is made.
advance_over : Text → RoundRobin → Map Text ℕ → ℕ × RoundRobin
advance_over key s m = (cursor_at key m, record s { cursors = insert key (cursor_at key m + 1) m })

advance_eq :
    (key : Text) (s : RoundRobin) (m : Map Text ℕ)
    → make_room key s ≡ m
    → advance key s ≡ advance_over key s m
unfolding advance advance_over
advance_eq key s m e = ap (advance_over key s) e

make_room_present :
    (key : Text) (s : RoundRobin) (i : ℕ)
    → lookup key s.cursors ≡ some i
    → make_room key s ≡ s.cursors
make_room_present key s i e = rw (e, make_room) refl

make_room_full :
    (key : Text) (s : RoundRobin)
    → lookup key s.cursors ≡ none
    → leb s.max_keys (length s.cursors) ≡ true
    → make_room key s ≡ []
make_room_full key s e f = rw (e, make_room, f) refl

make_room_free :
    (key : Text) (s : RoundRobin)
    → lookup key s.cursors ≡ none
    → leb s.max_keys (length s.cursors) ≡ false
    → make_room key s ≡ s.cursors
make_room_free key s e f = rw (e, make_room, f) refl

-- The table of cursors never outgrows its limit.
pub advance-bounded :
    (key : Text) (s : RoundRobin)
    → 1 ≤ s.max_keys
    → length s.cursors ≤ s.max_keys
    → (length (advance key s).1.cursors ≤ s.max_keys) × ((advance key s).1.max_keys ≡ s.max_keys)
unfolding advance_over
advance-bounded key s room fits = elim (Option-cases (lookup key s.cursors)) [
  | inr (i, e) ↦
      rw (advance_eq key s s.cursors (make_room_present key s i e))
        (rw (length-insert_present key _ i s.cursors e) fits, refl)
  | inl e ↦ elim (Bool-cases (leb s.max_keys (length s.cursors))) [
    | inl full ↦
        rw (advance_eq key s [] (make_room_full key s e full))
          (omega (arith, length-insert-le key (cursor_at key [] + 1) []), refl)
    | inr free ↦ rw (advance_eq key s s.cursors (make_room_free key s e free)) (
      omega (arith, length-insert-le key (cursor_at key s.cursors + 1) s.cursors, below free),
      refl,
    )
  ]
]
  where
    below : leb s.max_keys (length s.cursors) ≡ false → length s.cursors < s.max_keys
    below h = ground arith

-- A key with a cursor below the wrap gets the cursor's value and moves it by one; the cursors of
-- the other keys stay.
pub advance_counts :
    (key other : Text) (s : RoundRobin) (i : ℕ)
    → lookup key s.cursors ≡ some i
    → i < cursor_wrap
    → let (index, t) = advance key s in
      (index ≡ i)
      × (lookup other t.cursors ≡ (if key == other then some (i + 1) else lookup other s.cursors))
unfolding advance_over
advance_counts key other s i e h =
    rw (advance_eq key s s.cursors (make_room_present key s i e), value)
      (refl, lookup-insert key other (i + 1) s.cursors)
  where
    early : leb cursor_wrap i ≡ false
    early = ground arith

    value : cursor_at key s.cursors ≡ i
    value = rw (e, cursor_at, early) refl
