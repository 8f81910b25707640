-- ===== src/Relay/Session/Waiting.antt =====
-- No caller waits for ever on a session that is closed.
use aistudio_gemini_gateway.Base.{
  ℕ, ◌+◌, ◌≡◌, ◌⊎◌, refl, sym, subst, ap, ◌∙◌, inl, inr, Bool, true, false, ◌||◌, Option, none,
  some, List, [], ◌∷◌, Text, nat_eq, text_eq, ◌==◌, ==_iff, ==_refl, lookup, insert, delete,
  lookup-insert, lookup-insert_self, lookup-delete, Option-cases, List-cases, Bool-cases,
  if◌then◌else◌, if-intro, is_empty, arith,
}
use aistudio_gemini_gateway.Relay.Message.{Message, is_terminal}
use aistudio_gemini_gateway.Relay.Session.{
  Session, try_send, close, at_slot, register, is_current, dispatch_lookup, is_control, reap,
  mark_closed, closing_message, receive, new,
}
use aistudio_gemini_gateway.Relay.Session.Goroutines.{
  Task, registered, writing, closing, delivering, reaping, notifying, System, add_task, perform,
  Event, begins, goes_on, comes_in, ends, shuts, takes, take_out, begin_request, go_on, come_in,
  end_context, shut, step, run, fresh_system,
}
use aistudio_gemini_gateway.Relay.Session.Slots.{
  has, will_close, is_reaping, is_registered, is_open, Inv, take_out-has, has-notify_all,
  notify_all-reaches, is_open-insert, close-closed, IsCalm-send, IsCalm-close, Keeps, at_slot-Inv,
  unregister-Inv,
}

-- A task's work, on a system that no longer lists the task.
perform-Inv :
    (succeeds : Bool) (t : Task) (y : System) (ts : List Task)
    → ((p : Task → Bool) → has p y.tasks ≡ (p t || has p ts))
    → Inv y
    → Inv (perform succeeds t (record y { tasks = ts }))
unfolding perform Keeps reap lookup
perform-Inv succeeds (registered id b) y ts split inv =
    if-intro Inv y.session.closed
      (λ c.
        unregister-Inv id b y (registered id b) ts (λ p no h. ground (arith, split p)) refl
          (λ a. refl) (λ j a h. ground (arith, h, ==_iff id j, ==_iff a b)) inv)
      (λ c. passed inv c)
  where
    passed :
        Inv y → y.session.closed ≡ false → Inv (add_task (writing id b) (record y { tasks = ts }))
    passed v c = record {
      covered = λ a o. elim (v.covered a o) [
        | inl listed ↦ inl listed
        | inr task ↦ inr (sym (split (will_close a)) ∙ task)
      ];
      doomed = λ d. absurd (let f : true ≡ false = sym d ∙ c in cc);
    }
perform-Inv true (writing id b) y ts split inv = record {
  covered = λ a o. elim (inv.covered a o) [
    | inl listed ↦ inl listed
    | inr task ↦ inr (sym (split (will_close a)) ∙ task)
  ];
  doomed = λ c. elim (inv.doomed c) [
    | inl r ↦ inl (sym (split is_reaping) ∙ r)
    | inr d ↦ inr (λ id a l. sym (split (is_registered id a)) ∙ d id a l)
  ];
}
perform-Inv false (writing id b) y ts split inv =
    unregister-Inv id b y (writing id b) ts (λ p no h. ground (arith, split p)) refl (λ a. refl)
      (λ j a h. absurd cc) inv
perform-Inv succeeds (closing b) y ts split inv =
    at_slot-Inv close b y (closing b) ts IsCalm-close (λ p no h. ground (arith, split p)) refl
      (λ j a. refl) (λ a mine o. absurd (shut_again a mine o)) inv
  where
    shut_again : (a : ℕ) → (a == b) ≡ true → is_open a (at_slot close b y.session).slots ≡ true → ⊥
    shut_again a mine o =
        let same : a ≡ b = (==_iff a b).0 mine in
        let k : is_open b (at_slot close b y.session).slots ≡ true = rw same at o in
        cc (close-closed b y.session)
perform-Inv succeeds (delivering msg b) y ts split inv =
    if-intro Inv (is_terminal msg.type)
      (λ e.
        at_slot-Inv (λ slot. (try_send msg slot).0) b y (delivering msg b) (closing b ∷ ts)
          (IsCalm-send msg) (λ p no h. ground (arith, split p)) refl (λ j a. refl)
          (λ a mine o. ground arith) inv)
      (λ e.
        at_slot-Inv (λ slot. (try_send msg slot).0) b y (delivering msg b) ts (IsCalm-send msg)
          (λ p no h. ground (arith, split p)) refl (λ j a. refl) (λ a mine o. ground arith) inv)
perform-Inv succeeds (reaping cause) y ts split inv = record {
  covered = λ a o. elim (inv.covered a o) [
    | inl listed ↦ inr (notify_all-reaches cause y.session.pending ts listed.0 a listed.1)
    | inr task ↦ inr (
        has-notify_all (will_close a) cause y.session.pending ts
          (sym (split (will_close a)) ∙ task))
  ];
  doomed = λ c. inr (λ id a l. nothing l);
}
  where
    nothing : {Q : Type 0} {a : ℕ} → ◌≡◌ {A = Option ℕ} none (some a) → Q
    nothing l = absurd cc
perform-Inv succeeds (notifying cause id b) y ts split inv =
    at_slot-Inv (λ slot. (try_send (closing_message cause id) slot).0) b y (notifying cause id b)
      (closing b ∷ ts) (IsCalm-send (closing_message cause id)) (λ p no h. ground (arith, split p))
      refl (λ j a. refl) (λ a mine o. ground arith) inv

pub go_on-Inv : (i : ℕ) (succeeds : Bool) (y : System) → Inv y → Inv (go_on i succeeds y)
unfolding go_on
go_on-Inv i succeeds y inv = elim (Option-cases (take_out i y.tasks)) [
  | inl e ↦ rw (e, go_on) inv
  | inr (r, e) ↦
      rw (e, go_on) (perform-Inv succeeds r.0 y r.1 (λ p. take_out-has p i y.tasks r e) inv)
]

-- A request that begins has an entry, a slot of its own, and a task.
registered-Inv :
    (id : Text) (y : System)
    → lookup id y.session.pending ≡ none
    → Inv y
    → Inv (record {
      session = record y.session {
        slots = insert y.session.next (record { buffer = []; closed = false }) y.session.slots;
        pending = insert id y.session.next y.session.pending;
        next = y.session.next + 1;
      };
      tasks = registered id y.session.next ∷ y.tasks;
    })
registered-Inv id y free inv = record {
  covered = λ a.
      rw (is_open-insert y.session.next a (record { buffer = []; closed = false }) y.session.slots)
        (elim (Bool-cases (y.session.next == a)) [
          | inl same ↦ rw same (λ _. inl (id, listed_now a same))
          | inr other ↦ rw other (λ o. elim (inv.covered a o) [
            | inl (j, l) ↦ inl (j, still j a l)
            | inr task ↦ inr task
          ])
        ]);
  doomed = λ c. elim (inv.doomed c) [
    | inl r ↦ inl r
    | inr d ↦ inr (λ j a l. elim (Bool-cases (id == j)) [
      | inl same ↦
          ground (arith, lookup-insert id j y.session.next y.session.pending, l, same, ==_iff id j)
      | inr other ↦ ground (
        arith,
        d j a (ground (arith, lookup-insert id j y.session.next y.session.pending, l, other)),
      )
    ])
  ];
}
  where
    listed_now :
        (a : ℕ)
        → (y.session.next == a) ≡ true
        → lookup id (insert id y.session.next y.session.pending) ≡ some a
    listed_now a same =
        lookup-insert_self id y.session.next y.session.pending
        ∙ ap some ((==_iff y.session.next a).0 same)

    still :
        (j : Text) (a : ℕ)
        → lookup j y.session.pending ≡ some a
        → lookup j (insert id y.session.next y.session.pending) ≡ some a
    still j a l = elim (Bool-cases (id == j)) [
      | inl same ↦
          absurd (let k : lookup id y.session.pending ≡ some a = rw ((==_iff id j).0 same) l in cc)
      | inr other ↦ ground (arith, lookup-insert id j y.session.next y.session.pending, l, other)
    ]

-- What a request that is let in does to the session.
enter : Text → Session → Session
enter id s = record s {
  slots = insert s.next (record { buffer = []; closed = false }) s.slots;
  pending = insert id s.next s.pending;
  next = s.next + 1;
}

register-cases :
    (id : Text) (s : Session)
    → (register id s ≡ (s, none))
      ⊎ ((lookup id s.pending ≡ none) × (register id s ≡ (enter id s, some s.next)))
unfolding register enter
register-cases id s = elim (Bool-cases (is_empty id)) [
  | inl blank ↦ rw (register, blank) (inl refl)
  | inr named ↦ elim (Option-cases (lookup id s.pending)) [
    | inr (a, e) ↦ rw (register, named, e) (inl refl)
    | inl free ↦ rw (register, named, free) (inr (refl, refl))
  ]
]

begin_request-Inv : (id : Text) (y : System) → Inv y → Inv (begin_request id y)
unfolding begin_request enter
begin_request-Inv id y inv = elim (register-cases id y.session) [
  | inl e ↦ subst Inv (ap after (sym e)) inv
  | inr (free, e) ↦ subst Inv (ap after (sym e)) (registered-Inv id y free inv)
]
  where
    after : Session × Option ℕ → System
    after r = elim r.1 [
      | none ↦ y
      | some address ↦ record { session = r.0; tasks = registered id address ∷ y.tasks }
    ]

-- A terminal message takes the entry out.
taken_out : Message → Session → Session
taken_out msg s = if is_terminal msg.type then record s { pending = delete msg.id s.pending } else s

dispatch_lookup-cases :
    (msg : Message) (s : Session)
    → (dispatch_lookup msg s ≡ (s, none))
      ⊎ ((b : ℕ) × (lookup msg.id s.pending ≡ some b)
          × (dispatch_lookup msg s ≡ (taken_out msg s, some b)))
unfolding dispatch_lookup taken_out
dispatch_lookup-cases msg s = elim (Option-cases (lookup msg.id s.pending)) [
  | inl e ↦ rw (dispatch_lookup, e) (inl refl)
  | inr (b, e) ↦ rw (dispatch_lookup, e) (inr (b, refl, refl))
]

-- And a task that closes the slot comes in.
delivering-Inv :
    (msg : Message) (b : ℕ) (y : System)
    → lookup msg.id y.session.pending ≡ some b
    → Inv y
    → Inv (record { session = taken_out msg y.session; tasks = delivering msg b ∷ y.tasks })
unfolding taken_out
delivering-Inv msg b y e inv = elim (Bool-cases (is_terminal msg.type)) [
  | inr on ↦
      rw (taken_out, on)
        (record {
          covered = λ a o. elim (inv.covered a o) [
            | inl listed ↦ inl listed
            | inr task ↦ inr (ground (arith, on, task))
          ];
          doomed = inv.doomed;
        })
  | inl last ↦
      rw (taken_out, last)
        (record {
          covered = λ a o. elim (inv.covered a o) [
            | inr task ↦ inr (ground (arith, task))
            | inl (j, l) ↦ elim (Bool-cases (msg.id == j)) [
              | inl same ↦ inr (
                  closes a
                    (let k : lookup msg.id y.session.pending ≡ some a =
                        rw ((==_iff msg.id j).0 same) l in
                      k)
                    last)
              | inr other ↦
                  inl (j, ground (arith, lookup-delete msg.id j y.session.pending, other, l))
            ]
          ];
          doomed = λ c. elim (inv.doomed c) [
            | inl r ↦ inl r
            | inr d ↦
                inr (λ j a l. d j a (ground (arith, lookup-delete msg.id j y.session.pending, l)))
          ];
        })
]
  where
    closes :
        (a : ℕ)
        → lookup msg.id y.session.pending ≡ some a
        → is_terminal msg.type ≡ true
        → has (will_close a) (delivering msg b ∷ y.tasks) ≡ true
    closes a k last = ground (arith, e, k, last, ==_refl b)

come_in-Inv : (msg : Message) (y : System) → Inv y → Inv (come_in msg y)
unfolding come_in
come_in-Inv msg y inv =
    if-intro Inv (is_control msg.type) (λ _. inv)
      (λ _. elim (dispatch_lookup-cases msg y.session) [
        | inl e ↦ subst Inv (ap after (sym e)) inv
        | inr (b, l, e) ↦ subst Inv (ap after (sym e)) (delivering-Inv msg b y l inv)
      ])
  where
    after : Session × Option ℕ → System
    after r = elim r.1 [
      | none ↦ record y { session = r.0 }
      | some address ↦ record { session = r.0; tasks = delivering msg address ∷ y.tasks }
    ]

end_context-Inv : (id : Text) (b : ℕ) (y : System) → Inv y → Inv (end_context id b y)
unfolding end_context Keeps
end_context-Inv id b y inv =
    if-intro Inv (is_current id b y.session)
      (λ _.
        unregister-Inv id b y (writing id b) y.tasks (λ p no h. h) refl (λ a. refl)
          (λ j a h. absurd cc) inv)
      (λ _. inv)

shut-Inv : (cause : Text) (y : System) → Inv y → Inv (shut cause y)
unfolding shut mark_closed
shut-Inv cause y inv =
    if-intro Inv y.session.closed (λ _. inv)
      (λ _. record { covered = inv.covered; doomed = λ c. inl refl })

receive-is_open :
    (b : ℕ) (s : Session) (a : ℕ) → is_open a (receive b s).0.slots ≡ is_open a s.slots
unfolding receive
receive-is_open b s a = elim (Option-cases (lookup b s.slots)) [
  | inl e ↦ rw (receive, e) refl
  | inr (slot, e) ↦ elim (List-cases slot.buffer) [
    | inl d ↦ rw (receive, e, d) refl
    | inr (m, rest, d) ↦
        rw (receive, e, d, is_open-insert b a (record slot { buffer = rest }) s.slots)
          (elim (Bool-cases (b == a)) [
            | inl same ↦ rw (same, is_open, sym ((==_iff b a).0 same), e) refl
            | inr other ↦ rw other refl
          ])
  ]
]

receive-rest :
    (b : ℕ) (s : Session)
    → ((receive b s).0.pending ≡ s.pending) × ((receive b s).0.closed ≡ s.closed)
unfolding receive
receive-rest b s = elim (Option-cases (lookup b s.slots)) [
  | inl e ↦ rw (receive, e) (refl, refl)
  | inr (slot, e) ↦ elim (List-cases slot.buffer) [
    | inl d ↦ rw (receive, e, d) (refl, refl)
    | inr (m, rest, d) ↦ rw (receive, e, d) (refl, refl)
  ]
]

pub step-Inv : (e : Event) (y : System) → Inv y → Inv (step e y)
unfolding step
step-Inv (begins id) y inv = begin_request-Inv id y inv
step-Inv (goes_on i succeeds) y inv = go_on-Inv i succeeds y inv
step-Inv (comes_in msg) y inv = come_in-Inv msg y inv
step-Inv (ends id b) y inv = end_context-Inv id b y inv
step-Inv (shuts cause) y inv = shut-Inv cause y inv
step-Inv (takes b) y inv = record {
  covered = λ a o.
      rw ((receive-rest b y.session).0) (inv.covered a (sym (receive-is_open b y.session a) ∙ o));
  doomed =
      λ c. rw ((receive-rest b y.session).0) (inv.doomed (sym ((receive-rest b y.session).1) ∙ c));
}

pub run-Inv : (es : List Event) (y : System) → Inv y → Inv (run es y)
run-Inv [] y inv = inv
run-Inv (e ∷ es) y inv = run-Inv es (step e y) (step-Inv e y inv)

pub fresh-Inv : Inv fresh_system
unfolding new lookup
fresh-Inv = record { covered = λ b o. absurd cc; doomed = λ d. absurd cc }

-- A closed session with nothing left to do has no open slot.
pub idle-all_closed :
    (y : System)
    → Inv y
    → y.session.closed ≡ true
    → y.tasks ≡ []
    → (a : ℕ) → is_open a y.session.slots ≡ false
idle-all_closed y inv c done a = elim (Bool-cases (is_open a y.session.slots)) [
  | inr shut ↦ shut
  | inl still ↦ absurd (nothing (inv.covered a still))
]
  where
    idle : (p : Task → Bool) → has p y.tasks ≡ false
    idle p = rw done refl

    nothing :
        ((id : Text) × (lookup id y.session.pending ≡ some a)) ⊎ (has (will_close a) y.tasks ≡ true)
        → ⊥
    nothing (inr task) = cc (idle (will_close a))
    nothing (inl (id, l)) = elim (inv.doomed c) [
      | inl r ↦ cc (idle is_reaping)
      | inr d ↦
          let k : has (is_registered id a) y.tasks ≡ true = d id a l in
          cc (idle (is_registered id a))
    ]

-- However the goroutines of a session alternate: once the session is closed and none of them has
-- anything left to do, the channel of every request that was ever made is closed, so that no caller
-- waits for a message any more.
pub run-all_closed :
    (es : List Event)
    → (run es fresh_system).session.closed ≡ true
    → (run es fresh_system).tasks ≡ []
    → (a : ℕ) → is_open a (run es fresh_system).session.slots ≡ false
run-all_closed es c done a =
    idle-all_closed (run es fresh_system) (run-Inv es fresh_system fresh-Inv) c done a
