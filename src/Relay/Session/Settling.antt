-- ===== src/Relay/Session/Settling.antt =====
-- The goroutines of a session that is closed come to an end.
use aistudio_gemini_gateway.Base.{
  ℕ, zero, suc, ◌+◌, ◌*◌, ◌≤◌, ◌<◌, ◌≡◌, refl, ap, ◌∙◌, inl, inr, true, false, none, some, List, [],
  ◌∷◌, Bool, subst, sym, ltb, if◌then◌else◌, Text, Map, nat_eq, text_eq, delete, length, List-cases,
  Bool-cases, if-intro, arith,
}
use aistudio_gemini_gateway.Relay.Message.{is_terminal}
use aistudio_gemini_gateway.Relay.Session.{
  Session, Slot, try_send, close, at_slot, is_current, unregister, reap, mark_closed,
  closing_message,
}
use aistudio_gemini_gateway.Relay.Session.Goroutines.{
  Task, registered, writing, closing, delivering, reaping, notifying, System, notify_all, perform,
  Event, shuts, take_out, go_on, shut, step, run, fresh_system,
}
use aistudio_gemini_gateway.Relay.Session.Slots.{Inv, is_open, at_slot-rest, unregister-rest}
use aistudio_gemini_gateway.Relay.Session.Waiting.{
  go_on-Inv, step-Inv, run-Inv, fresh-Inv, idle-all_closed,
}

-- More than the steps that a task and the tasks that it makes can take.
abbrev pub weight : Task → ℕ
weight (registered _ _) = 3
weight (writing _ _) = 2
weight (closing _) = 1
weight (delivering _ _) = 2
weight (reaping _) = 1
weight (notifying _ _ _) = 2

abbrev pub weights : List Task → ℕ
weights [] = 0
weights (t ∷ ts) = weight t + weights ts

abbrev pub burden : System → ℕ
burden y = weights y.tasks + 3 * length y.session.pending

length-delete-le : (id : Text) (m : Map Text ℕ) → length (delete id m) ≤ length m
unfolding delete
length-delete-le id [] = omega arith
length-delete-le id ((j, a) ∷ m) = ground (arith, length-delete-le id m)

length-unregister-le :
    (id : Text) (a : ℕ) (s : Session) → length (unregister id a s).pending ≤ length s.pending
unfolding unregister
length-unregister-le id a s =
    if-intro (λ (t : Session). length t.pending ≤ length s.pending) (is_current id a s)
      (λ _. length-delete-le id s.pending) (λ _. omega arith)

weights-notify_all :
    (cause : Text) (m : Map Text ℕ) (ts : List Task)
    → weights (notify_all cause m ts) ≡ 2 * length m + weights ts
weights-notify_all cause [] ts = omega arith
weights-notify_all cause ((id, a) ∷ m) ts = omega (arith, weights-notify_all cause m ts)

length-at_slot :
    (f : Slot → Slot) (a : ℕ) (s : Session) → length (at_slot f a s).pending ≡ length s.pending
length-at_slot f a s = ap length (at_slot-rest f a s).0

perform-lt :
    (succeeds : Bool) (t : Task) (y : System) → burden (perform succeeds t y) < weight t + burden y
unfolding perform reap
perform-lt succeeds (registered id a) y =
    if-intro (λ (z : System). burden z < 3 + burden y) y.session.closed
      (λ _. omega (arith, length-unregister-le id a y.session)) (λ _. omega arith)
perform-lt true (writing id a) y = omega arith
perform-lt false (writing id a) y = omega (arith, length-unregister-le id a y.session)
perform-lt succeeds (closing a) y = omega (arith, length-at_slot close a y.session)
perform-lt succeeds (delivering msg a) y =
    let same = length-at_slot (λ slot. (try_send msg slot).0) a y.session in
    if-intro (λ (z : System). burden z < 2 + burden y) (is_terminal msg.type)
      (λ _. omega (arith, same)) (λ _. omega (arith, same))
perform-lt succeeds (reaping cause) y =
    omega (arith, weights-notify_all cause y.session.pending y.tasks)
perform-lt succeeds (notifying cause id a) y =
    let same = length-at_slot (λ slot. (try_send (closing_message cause id) slot).0) a y.session in
    omega (arith, same)

-- A closed session stays closed.
perform-closed :
    (succeeds : Bool) (t : Task) (y : System)
    → y.session.closed ≡ true
    → (perform succeeds t y).session.closed ≡ true
unfolding perform reap
perform-closed succeeds (registered id a) y c =
    if-intro (λ (z : System). z.session.closed ≡ true) y.session.closed
      (λ _. (unregister-rest id a y.session).1 ∙ c) (λ _. c)
perform-closed true (writing id a) y c = c
perform-closed false (writing id a) y c = (unregister-rest id a y.session).1 ∙ c
perform-closed succeeds (closing a) y c = (at_slot-rest close a y.session).1 ∙ c
perform-closed succeeds (delivering msg a) y c =
    let kept = (at_slot-rest (λ slot. (try_send msg slot).0) a y.session).1 ∙ c in
    if-intro (λ (z : System). z.session.closed ≡ true) (is_terminal msg.type) (λ _. kept)
      (λ _. kept)
perform-closed succeeds (reaping cause) y c = c
perform-closed succeeds (notifying cause id a) y c =
    (at_slot-rest (λ slot. (try_send (closing_message cause id) slot).0) a y.session).1 ∙ c

-- Which task goes on: the one at the index, or the first if there are not so many.
abbrev pub chosen : ℕ → List Task → ℕ
chosen i ts = if ltb i (length ts) then i else 0

-- The tasks go on in any order, and each write succeeds or fails as it may.
abbrev pub drain : List (ℕ × Bool) → System → System
drain [] y = y
drain (pick ∷ picks) y = drain picks (go_on (chosen pick.0 y.tasks) pick.1 y)

Taken : ℕ → List Task → Type 0
Taken i ts =
    (t : Task) × (rest : List Task) × (take_out i ts ≡ some (t, rest))
    × (weights ts ≡ weight t + weights rest)

take_out-Taken : (i : ℕ) (ts : List Task) → i < length ts → Taken i ts
unfolding Taken
take_out-Taken i [] h = absurd (omega (arith, h))
take_out-Taken zero (t ∷ ts) h = (t, ts, refl, refl)
take_out-Taken (suc i) (t ∷ ts) h =
    let (u, rest, e, w) = take_out-Taken i ts (omega (arith, h)) in
    (u, t ∷ rest, rw e refl, omega (arith, w))

chosen-lt : (i : ℕ) (t : Task) (ts : List Task) → chosen i (t ∷ ts) < length (t ∷ ts)
chosen-lt i t ts = ground arith

Progress : ℕ → Bool → System → Type 0
Progress i succeeds y =
    (burden (go_on i succeeds y) < burden y)
    × (y.session.closed ≡ true → (go_on i succeeds y).session.closed ≡ true)

go_on-Progress : (i : ℕ) (succeeds : Bool) (y : System) → i < length y.tasks → Progress i succeeds y
unfolding go_on Progress Taken
go_on-Progress i succeeds y h =
    let (t, rest, e, whole) = take_out-Taken i y.tasks h in
    rw (go_on, e)
      (
        (let fewer = perform-lt succeeds t (record y { tasks = rest }) in
            omega (arith, fewer, whole)),
        perform-closed succeeds t (record y { tasks = rest }),
      )

next_step : ℕ → Bool → System → List Task → System
next_step i succeeds y ts = elim (take_out i ts) [
  | none ↦ y
  | some r ↦ perform succeeds r.0 (record y { tasks = r.1 })
]

go_on-nothing : (i : ℕ) (succeeds : Bool) (y : System) → y.tasks ≡ [] → go_on i succeeds y ≡ y
unfolding go_on next_step
go_on-nothing i succeeds y e = ap (next_step i succeeds y) e

go_on-chosen :
    (i : ℕ) (succeeds : Bool) (y : System) (t : Task) (ts : List Task)
    → y.tasks ≡ t ∷ ts
    → Progress (chosen i y.tasks) succeeds y
go_on-chosen i succeeds y t ts e =
    go_on-Progress (chosen i y.tasks) succeeds y
      (subst (λ us. chosen i us < length us) (sym e) (chosen-lt i t ts))

drain-idle :
    (picks : List (ℕ × Bool)) (y : System) → burden y ≤ length picks → (drain picks y).tasks ≡ []
unfolding Progress
drain-idle [] y h = elim (List-cases y.tasks) [
  | inl e ↦ e
  | inr (t, ts, e) ↦
      absurd (let (fewer, _) = go_on-chosen 0 true y t ts e in omega (arith, fewer, h))
]
drain-idle (pick ∷ picks) y h = elim (List-cases y.tasks) [
  | inl e ↦
      subst (λ z. (drain picks z).tasks ≡ [])
        (sym (go_on-nothing (chosen pick.0 y.tasks) pick.1 y e)) (drain-still picks y e)
  | inr (t, ts, e) ↦
      drain-idle picks (go_on (chosen pick.0 y.tasks) pick.1 y)
        (let (fewer, _) = go_on-chosen pick.0 pick.1 y t ts e in omega (arith, fewer, h))
]
  where
    drain-still : (picks : List (ℕ × Bool)) (y : System) → y.tasks ≡ [] → (drain picks y).tasks ≡ []
    drain-still [] y e = e
    drain-still (pick ∷ picks) y e =
        subst (λ z. (drain picks z).tasks ≡ [])
          (sym (go_on-nothing (chosen pick.0 y.tasks) pick.1 y e)) (drain-still picks y e)

go_on-closed :
    (i : ℕ) (succeeds : Bool) (y : System)
    → y.session.closed ≡ true
    → (go_on (chosen i y.tasks) succeeds y).session.closed ≡ true
unfolding Progress
go_on-closed i succeeds y c = elim (List-cases y.tasks) [
  | inl e ↦ rw (go_on-nothing (chosen i y.tasks) succeeds y e) c
  | inr (t, ts, e) ↦ (go_on-chosen i succeeds y t ts e).1 c
]

drain-Inv :
    (picks : List (ℕ × Bool)) (y : System)
    → Inv y
    → y.session.closed ≡ true
    → Inv (drain picks y) × ((drain picks y).session.closed ≡ true)
drain-Inv [] y v c = (v, c)
drain-Inv (pick ∷ picks) y v c =
    drain-Inv picks (go_on (chosen pick.0 y.tasks) pick.1 y)
      (go_on-Inv (chosen pick.0 y.tasks) pick.1 y v) (go_on-closed pick.0 pick.1 y c)

shut-closed : (cause : Text) (y : System) → (step (shuts cause) y).session.closed ≡ true
unfolding step shut mark_closed
shut-closed cause y = elim (Bool-cases y.session.closed) [
  | inl c ↦ if-intro (λ (z : System). z.session.closed ≡ true) y.session.closed (λ _. c) (λ _. refl)
  | inr o ↦ if-intro (λ (z : System). z.session.closed ≡ true) y.session.closed (λ c. c) (λ _. refl)
]

-- After any history, when a session is shut and its goroutines then go on in any order, each write of
-- theirs succeeding or failing, as many times as their burden says, which is three times the tasks and
-- the pending requests at most, they all come to an end, and then no request has an open channel: every
-- caller is let go.
pub drain-all_closed :
    (es : List Event) (cause : Text) (picks : List (ℕ × Bool)) (a : ℕ)
    → burden (step (shuts cause) (run es fresh_system)) ≤ length picks
    → ((drain picks (step (shuts cause) (run es fresh_system))).tasks ≡ [])
      × (is_open a (drain picks (step (shuts cause) (run es fresh_system))).session.slots ≡ false)
drain-all_closed es cause picks a h =
    let (v, c) =
      drain-Inv picks y
        (step-Inv (shuts cause) (run es fresh_system) (run-Inv es fresh_system fresh-Inv))
        (shut-closed cause (run es fresh_system)) in
    let idle = drain-idle picks y h in (idle, idle-all_closed (drain picks y) v c idle a)
  where
    y : System
    y = step (shuts cause) (run es fresh_system)
