-- ===== src/Pipeline/StreamAdapter/Framing.antt =====
-- The frames of a buffer do not depend on how it came in.
use mathlib.Core.List.{append_assoc}
use aistudio_gemini_gateway.Base.{
  ℕ, zero, suc, ◌+◌, ◌≤◌, ◌≡◌, ◌∙◌, refl, sym, ap, inl, inr, ◌&&◌, Option, none, some, List, [],
  ◌∷◌, ◌++◌, Text, nat_eq, ◌==◌, length, Bool-cases, Option-cases, ==_iff, arith,
}
use aistudio_gemini_gateway.Pipeline.StreamAdapter.{
  parse_sse_frame, cut_frame, grow, add_payload, feed_loop, feed_buffer,
}

grow-eq :
    (c : ℕ) (o : Option (Text × Text)) (frame rest : Text)
    → grow c o ≡ some (frame, rest)
    → (f : Text) × (o ≡ some (f, rest)) × (frame ≡ c ∷ f)
grow-eq c none frame rest e = absurd (cc)
grow-eq c (some (f, r)) frame rest e = (f, cc, cc)

-- A cut takes two bytes, and what comes after the text stays after the rest.
cut_frame-append :
    (s more frame rest : Text)
    → cut_frame s ≡ some (frame, rest)
    → (cut_frame (s ++ more) ≡ some (frame, rest ++ more)) × (length rest + 2 ≤ length s)
unfolding cut_frame
cut_frame-append [] more frame rest e = absurd (cc)
cut_frame-append (c ∷ []) more frame rest e = absurd (ground arith)
cut_frame-append (c ∷ d ∷ s) more frame rest e = elim (Bool-cases (c == b'\n' && d == b'\n')) [
  | inl break ↦
      let found : ◌≡◌ {A = Option (Text × Text)} (some ([], s)) (some (frame, rest)) =
        rw break at e in
      let nothing : frame ≡ [] = cc in
      let same : rest ≡ s = cc in (rw (break, nothing, same) refl, omega (arith, ap length same))
  | inr on ↦
      let found : grow c (cut_frame (d ∷ s)) ≡ some (frame, rest) = rw on at e in
      let (f, inner, whole) = grow-eq c (cut_frame (d ∷ s)) frame rest found in
      let (later, shorter) = cut_frame-append (d ∷ s) more f rest inner in
      (rw (on, later, whole) refl, omega (arith, shorter))
]

-- With enough fuel for the buffer the loop gives the same.
feed_loop-fuel :
    (n m : ℕ) (buf : Text) → length buf ≤ n → length buf ≤ m → feed_loop n buf ≡ feed_loop m buf
unfolding feed_loop cut_frame
feed_loop-fuel zero zero buf h k = refl
feed_loop-fuel zero (suc m) [] h k = refl
feed_loop-fuel zero (suc m) (c ∷ s) h k = absurd (omega arith)
feed_loop-fuel (suc n) zero [] h k = refl
feed_loop-fuel (suc n) zero (c ∷ s) h k = absurd (omega arith)
feed_loop-fuel (suc n) (suc m) buf h k = elim (Option-cases (cut_frame buf)) [
  | inl whole ↦ rw (feed_loop, whole) refl
  | inr ((frame, rest), cut) ↦
      let (_, shorter) = cut_frame-append buf [] frame rest cut in
      rw (feed_loop, cut)
        (ap (add_payload (parse_sse_frame frame))
          (feed_loop-fuel n m rest (omega (arith, shorter)) (omega (arith, shorter))))
]

feed_loop-cut :
    (n : ℕ) (buf frame rest : Text)
    → cut_frame buf ≡ some (frame, rest)
    → feed_loop (suc n) buf ≡ add_payload (parse_sse_frame frame) (feed_loop n rest)
unfolding feed_loop
feed_loop-cut n buf frame rest cut = rw (feed_loop, cut) refl

-- A round of the loop.
pub feed_buffer-cut :
    (buf frame rest : Text)
    → cut_frame buf ≡ some (frame, rest)
    → feed_buffer buf ≡ add_payload (parse_sse_frame frame) (feed_buffer rest)
unfolding feed_buffer
feed_buffer-cut buf frame rest cut =
    let (_, shorter) = cut_frame-append buf [] frame rest cut in
    feed_loop-fuel (length buf) (suc (length buf)) buf (omega arith) (omega arith)
    ∙ feed_loop-cut (length buf) buf frame rest cut
    ∙ ap (add_payload (parse_sse_frame frame))
        (feed_loop-fuel (length buf) (length rest) rest (omega (arith, shorter)) (omega arith))

-- What comes after a first part of the stream.
abbrev pub fed_on : List Text × Text → Text → List Text × Text
fed_on (payloads, rest) more =
    (payloads ++ (feed_buffer (rest ++ more)).0, (feed_buffer (rest ++ more)).1)

fed_on-add_payload :
    (o : Option Text) (out : List Text × Text) (more : Text)
    → fed_on (add_payload o out) more ≡ add_payload o (fed_on out more)
fed_on-add_payload none out more = refl
fed_on-add_payload (some payload) out more = refl

feed_loop-append :
    (n : ℕ) (buf more : Text)
    → length buf ≤ n
    → fed_on (feed_loop n buf) more ≡ feed_buffer (buf ++ more)
unfolding feed_loop
feed_loop-append zero [] more h = refl
feed_loop-append zero (c ∷ s) more h = absurd (omega arith)
feed_loop-append (suc n) buf more h = elim (Option-cases (cut_frame buf)) [
  | inl whole ↦ rw (feed_loop, whole) refl
  | inr ((frame, rest), cut) ↦
      let (later, shorter) = cut_frame-append buf more frame rest cut in
      rw (feed_loop, cut)
        (fed_on-add_payload (parse_sse_frame frame) (feed_loop n rest) more
          ∙ ap (add_payload (parse_sse_frame frame))
              (feed_loop-append n rest more (omega (arith, shorter)))
          ∙ sym (feed_buffer-cut (buf ++ more) frame (rest ++ more) later))
]

-- Two parts of a stream, one after the other, give what the whole gives.
pub feed_buffer-append :
    (buf more : Text) → fed_on (feed_buffer buf) more ≡ feed_buffer (buf ++ more)
unfolding feed_buffer
feed_buffer-append buf more = feed_loop-append (length buf) buf more (omega arith)

pub feed_buffer-none : (buf : Text) → cut_frame buf ≡ none → feed_buffer buf ≡ ([], buf)
unfolding feed_buffer feed_loop
feed_buffer-none [] e = refl
feed_buffer-none (c ∷ s) e = rw (feed_loop, e) refl

add_payload-rest : (o : Option Text) (out : List Text × Text) → (add_payload o out).1 ≡ out.1
add_payload-rest none out = refl
add_payload-rest (some payload) out = refl

feed_loop-rest : (n : ℕ) (buf : Text) → length buf ≤ n → cut_frame (feed_loop n buf).1 ≡ none
unfolding feed_loop cut_frame
feed_loop-rest zero [] h = refl
feed_loop-rest zero (c ∷ s) h = absurd (omega arith)
feed_loop-rest (suc n) buf h = elim (Option-cases (cut_frame buf)) [
  | inl whole ↦ rw (feed_loop, whole) whole
  | inr ((frame, rest), cut) ↦
      let (_, shorter) = cut_frame-append buf [] frame rest cut in
      rw (feed_loop, cut)
        (rw (add_payload-rest (parse_sse_frame frame) (feed_loop n rest))
          (feed_loop-rest n rest (omega (arith, shorter))))
]

-- No whole frame is left in the buffer.
pub feed_buffer-rest : (buf : Text) → cut_frame (feed_buffer buf).1 ≡ none
unfolding feed_buffer
feed_buffer-rest buf = feed_loop-rest (length buf) buf (omega arith)

pub cut_frame-parts :
    (s frame rest : Text) → cut_frame s ≡ some (frame, rest) → s ≡ frame ++ b'\n' ∷ b'\n' ∷ rest
unfolding cut_frame
cut_frame-parts [] frame rest e = absurd (cc)
cut_frame-parts (c ∷ []) frame rest e = absurd (ground arith)
cut_frame-parts (c ∷ d ∷ s) frame rest e = elim (Bool-cases (c == b'\n' && d == b'\n')) [
  | inl break ↦
      let found : ◌≡◌ {A = Option (Text × Text)} (some ([], s)) (some (frame, rest)) =
        rw break at e in
      let nothing : frame ≡ [] = cc in
      let same : rest ≡ s = cc in
      rw (nothing, same) (ground (arith, break, ==_iff c b'\n', ==_iff d b'\n'))
  | inr on ↦
      let found : grow c (cut_frame (d ∷ s)) ≡ some (frame, rest) = rw on at e in
      let (f, inner, whole) = grow-eq c (cut_frame (d ∷ s)) frame rest found in
      rw whole (ap (λ t. c ∷ t) (cut_frame-parts (d ∷ s) f rest inner))
]

-- What is left of a buffer is its end.
feed_loop-end : (n : ℕ) (buf : Text) → (before : Text) × (buf ≡ before ++ (feed_loop n buf).1)
unfolding feed_loop
feed_loop-end zero buf = ([], refl)
feed_loop-end (suc n) buf = elim (Option-cases (cut_frame buf)) [
  | inl whole ↦ rw (feed_loop, whole) ([], refl)
  | inr ((frame, rest), cut) ↦
      let (before, same) = feed_loop-end n rest in
      rw (feed_loop, cut, add_payload-rest (parse_sse_frame frame) (feed_loop n rest))
        (
          frame ++ b'\n' ∷ b'\n' ∷ before,
          cut_frame-parts buf frame rest cut
              ∙ ap (λ t. frame ++ b'\n' ∷ b'\n' ∷ t) same
              ∙ sym (append_assoc frame (b'\n' ∷ b'\n' ∷ before) (feed_loop n rest).1),
        )
]

pub feed_buffer-end : (buf : Text) → (before : Text) × (buf ≡ before ++ (feed_buffer buf).1)
unfolding feed_buffer
feed_buffer-end buf = feed_loop-end (length buf) buf
