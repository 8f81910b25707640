-- ===== src/Relay/Session/Slots.antt =====
-- What holds of the slots between the goroutines' steps.
use aistudio_gemini_gateway.Base.{
  ℕ, zero, suc, ◌≡◌, ◌⊎◌, refl, sym, inl, inr, Bool, true, false, not, ◌&&◌, ◌||◌, none, some, List,
  [], ◌∷◌, Text, Map, nat_eq, text_eq, ◌==◌, ==_iff, ==_refl, lookup, insert, lookup-insert,
  lookup-delete, Option-cases, Bool-cases, if◌then◌else◌, arith,
}
use aistudio_gemini_gateway.Relay.Message.{Message, is_terminal}
use aistudio_gemini_gateway.Relay.Session.{
  Session, Slot, try_send, close, at_slot, is_current, unregister,
}
use aistudio_gemini_gateway.Relay.Session.Goroutines.{
  Task, registered, closing, delivering, reaping, notifying, System, notify_all, take_out,
}

abbrev pub has : (Task → Bool) → List Task → Bool
has p [] = false
has p (t ∷ ts) = p t || has p ts

-- The task ends in the slot's closing.
abbrev pub will_close : ℕ → Task → Bool
will_close a (closing b) = a == b
will_close a (notifying _ _ b) = a == b
will_close a (delivering msg b) = is_terminal msg.type && a == b
will_close a _ = false

abbrev pub is_reaping : Task → Bool
is_reaping (reaping _) = true
is_reaping _ = false

abbrev pub is_registered : Text → ℕ → Task → Bool
is_registered id a (registered j b) = j == id && a == b
is_registered id a _ = false

abbrev pub is_open : ℕ → Map ℕ Slot → Bool
is_open a m = elim (lookup a m) [ none ↦ false | some slot ↦ not slot.closed ]

-- An open slot is in the table or will be closed; and once the session is closed, the table is still to
-- be reaped, or else holds requests only that have not looked yet whether the session is closed.
pub record Inv (y : System) : Type 0 where
  pub covered :
      (a : ℕ)
      → is_open a y.session.slots ≡ true
      → ((id : Text) × (lookup id y.session.pending ≡ some a)) ⊎ (has (will_close a) y.tasks ≡ true)
  pub doomed :
      y.session.closed ≡ true
      → (has is_reaping y.tasks ≡ true)
        ⊎ ((id : Text) (a : ℕ)
            → lookup id y.session.pending ≡ some a
            → has (is_registered id a) y.tasks ≡ true)

pub take_out-has :
    (p : Task → Bool) (i : ℕ) (ts : List Task) (r : Task × List Task)
    → take_out i ts ≡ some r
    → has p ts ≡ (p r.0 || has p r.1)
take_out-has p i [] r = λ h. cc
take_out-has p zero (t ∷ ts) r = λ h. let e : (t, ts) ≡ r = cc in rw (sym e) refl
take_out-has p (suc i) (t ∷ ts) r = elim (Option-cases (take_out i ts)) [
  | inl e ↦ rw e (λ h. cc)
  | inr (q, e) ↦
      rw e (λ h.
        let f : (q.0, t ∷ q.1) ≡ r = cc in rw (sym f) (ground (arith, take_out-has p i ts q e)))
]

pub has-notify_all :
    (p : Task → Bool) (cause : Text) (m : Map Text ℕ) (ts : List Task)
    → has p ts ≡ true
    → has p (notify_all cause m ts) ≡ true
has-notify_all p cause [] ts h = h
has-notify_all p cause ((id, a) ∷ m) ts h = ground (arith, has-notify_all p cause m ts h)

pub notify_all-reaches :
    (cause : Text) (m : Map Text ℕ) (ts : List Task) (id : Text) (a : ℕ)
    → lookup id m ≡ some a
    → has (will_close a) (notify_all cause m ts) ≡ true
unfolding lookup
notify_all-reaches cause [] ts id a = λ h. cc
notify_all-reaches cause ((j, b) ∷ m) ts id a = elim (Bool-cases (j == id)) [
  | inl same ↦ rw same (λ h. let e : b ≡ a = cc in rw (e, ==_refl a) refl)
  | inr other ↦ rw other (λ h. ground (arith, notify_all-reaches cause m ts id a h))
]

-- A write to a slot that opens no slot: it leaves the others, and keeps a closed one closed.
unfoldable pub IsCalm : (Slot → Slot) → Type 0
IsCalm f = (slot : Slot) → slot.closed ≡ true → (f slot).closed ≡ true

pub is_open-insert :
    (b a : ℕ) (slot : Slot) (m : Map ℕ Slot)
    → is_open a (insert b slot m) ≡ (if b == a then not slot.closed else is_open a m)
is_open-insert b a slot m = elim (Bool-cases (b == a)) [
  | inl same ↦ rw (is_open, lookup-insert b a slot m, same) refl
  | inr other ↦ rw (is_open, lookup-insert b a slot m, other) refl
]

at_slot-is_open :
    (f : Slot → Slot) (b : ℕ) (s : Session) (a : ℕ)
    → IsCalm f
    → is_open a (at_slot f b s).slots ≡ true
    → is_open a s.slots ≡ true
unfolding at_slot IsCalm
at_slot-is_open f b s a calm = elim (Option-cases (lookup b s.slots)) [
  | inl e ↦ rw (e, at_slot) (λ h. h)
  | inr (slot, e) ↦
      rw (e, at_slot, is_open-insert b a (f slot) s.slots)
        (elim (Bool-cases (b == a)) [
          | inl same ↦
              rw (same, is_open, sym ((==_iff b a).0 same), e) (λ h. ground (arith, calm slot))
          | inr other ↦ rw other (λ h. h)
        ])
]

pub at_slot-rest :
    (f : Slot → Slot) (b : ℕ) (s : Session)
    → ((at_slot f b s).pending ≡ s.pending) × ((at_slot f b s).closed ≡ s.closed)
unfolding at_slot
at_slot-rest f b s = elim (Option-cases (lookup b s.slots)) [
  | inl e ↦ rw (e, at_slot) (refl, refl)
  | inr (slot, e) ↦ rw (e, at_slot) (refl, refl)
]

pub close-closed : (b : ℕ) (s : Session) → is_open b (at_slot close b s).slots ≡ false
unfolding at_slot close
close-closed b s = elim (Option-cases (lookup b s.slots)) [
  | inl e ↦ rw (e, at_slot, is_open, e) refl
  | inr (slot, e) ↦
      rw (e, at_slot, is_open-insert b b (record slot { closed = true }) s.slots, ==_refl b) refl
]

pub IsCalm-send : (msg : Message) → IsCalm (λ slot. (try_send msg slot).0)
unfolding IsCalm try_send
IsCalm-send msg slot h = rw h refl

pub IsCalm-close : IsCalm close
unfolding IsCalm close
IsCalm-close slot h = refl

-- The tasks after a step have all that the tasks before it had, but for the one that was done.
unfoldable pub Keeps : Task → List Task → List Task → Type 0
Keeps t ts us = (p : Task → Bool) → p t ≡ false → has p ts ≡ true → has p us ≡ true

pub at_slot-Inv :
    (f : Slot → Slot) (b : ℕ) (y : System) (t : Task) (us : List Task)
    → IsCalm f
    → Keeps t y.tasks us
    → is_reaping t ≡ false
    → ((id : Text) (a : ℕ) → is_registered id a t ≡ false)
    → ((a : ℕ)
        → will_close a t ≡ true
        → is_open a (at_slot f b y.session).slots ≡ true
        → has (will_close a) us ≡ true)
    → Inv y
    → Inv (record { session = at_slot f b y.session; tasks = us })
unfolding Keeps
at_slot-Inv f b y t us calm keeps unreaping unregistered closes inv = record {
  covered = λ a o. rw (e.0) (elim (inv.covered a (at_slot-is_open f b y.session a calm o)) [
    | inl listed ↦ inl listed
    | inr task ↦ elim (Bool-cases (will_close a t)) [
      | inl mine ↦ inr (closes a mine o)
      | inr other ↦ inr (keeps (will_close a) other task)
    ]
  ]);
  doomed = λ c. elim (inv.doomed (rw (e.1) at c)) [
    | inl r ↦ inl (keeps is_reaping unreaping r)
    | inr d ↦
        inr (λ id a l. keeps (is_registered id a) (unregistered id a) (d id a (rw (e.0) at l)))
  ];
}
  where
    e :
        ((at_slot f b y.session).pending ≡ y.session.pending)
        × ((at_slot f b y.session).closed ≡ y.session.closed)
    e = at_slot-rest f b y.session

-- What is left in the table, and what is gone from it.
pub lookup-unregister :
    (id : Text) (b : ℕ) (s : Session) (j : Text) (a : ℕ)
    → (lookup j (unregister id b s).pending ≡ some a
        → (lookup j s.pending ≡ some a) × ((j ≡ id) × (a ≡ b) → false ≡ true))
      × (lookup j s.pending ≡ some a → (a ≡ b) ⊎ (lookup j (unregister id b s).pending ≡ some a))
unfolding unregister is_current
lookup-unregister id b s j a = elim (Option-cases (lookup id s.pending)) [
  | inl e ↦
      rw (unregister, is_current, e)
        (
          (λ h. (h, λ k. (let f : lookup id s.pending ≡ some a = rw (sym (k.0)) h in cc))),
          λ h. inr h,
        )
  | inr (c, e) ↦ elim (Bool-cases (c == b)) [
    | inr other ↦
        rw (unregister, is_current, e, other)
          (
            (λ h. (
              h,
              λ k.
                  (let f : lookup id s.pending ≡ some a = rw (sym (k.0)) h in
                    ground (arith, e, f, other, k.1)),
            )),
            λ h. inr h,
          )
    | inl same ↦
        rw (unregister, is_current, e, same)
          (
            (λ h. (
              ground (arith, lookup-delete id j s.pending, h),
              λ k. ground (arith, lookup-delete id j s.pending, ==_iff id j, h, k.0),
            )),
            λ h. elim (Bool-cases (id == j)) [
              | inl mine ↦ inl (
                  let f : lookup id s.pending ≡ some a = rw ((==_iff id j).0 mine) h in
                  ground (arith, e, f, same))
              | inr not_mine ↦ inr (ground (arith, lookup-delete id j s.pending, not_mine, h))
            ],
          )
  ]
]

pub unregister-rest :
    (id : Text) (b : ℕ) (s : Session)
    → ((unregister id b s).slots ≡ s.slots) × ((unregister id b s).closed ≡ s.closed)
unfolding unregister
unregister-rest id b s = elim (Bool-cases (is_current id b s)) [
  | inl e ↦ rw (unregister, e) (refl, refl)
  | inr e ↦ rw (unregister, e) (refl, refl)
]

-- A request that is given up leaves the table, and its slot will be closed.
pub unregister-Inv :
    (id : Text) (b : ℕ) (y : System) (t : Task) (us : List Task)
    → Keeps t y.tasks us
    → is_reaping t ≡ false
    → ((a : ℕ) → will_close a t ≡ false)
    → ((j : Text) (a : ℕ) → is_registered j a t ≡ true → (j ≡ id) × (a ≡ b))
    → Inv y
    → Inv (record { session = unregister id b y.session; tasks = closing b ∷ us })
unfolding Keeps
unregister-Inv id b y t us keeps unreaping unclosing mine inv = record {
  covered = λ a o. elim (inv.covered a (rw (e.0) at o)) [
    | inr task ↦ inr (ground (arith, keeps (will_close a) (unclosing a) task))
    | inl listed ↦ elim ((lookup-unregister id b y.session listed.0 a).1 listed.1) [
      | inl same ↦ inr (rw (same, ==_refl b) refl)
      | inr left ↦ inl (listed.0, left)
    ]
  ];
  doomed = λ c. elim (inv.doomed (rw (e.1) at c)) [
    | inl r ↦ inl (keeps is_reaping unreaping r)
    | inr d ↦ inr (λ j a l.
        let (was, free) = (lookup-unregister id b y.session j a).0 l in
        keeps (is_registered j a) (others j a free) (d j a was))
  ];
}
  where
    e :
        ((unregister id b y.session).slots ≡ y.session.slots)
        × ((unregister id b y.session).closed ≡ y.session.closed)
    e = unregister-rest id b y.session

    others : (j : Text) (a : ℕ) → ((j ≡ id) × (a ≡ b) → false ≡ true) → is_registered j a t ≡ false
    others j a free = elim (Bool-cases (is_registered j a t)) [
      | inl it ↦ absurd (let x : false ≡ true = free (mine j a it) in cc)
      | inr not_it ↦ not_it
    ]
