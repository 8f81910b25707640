-- ===== src/Relay/Session/Delivery.antt =====
-- What becomes of a message that comes in for a waiting request.
use aistudio_gemini_gateway.Base.{
  ℕ, ◌≡◌, refl, sym, ap, ◌∙◌, inl, inr, false, Option, none, some, [], ◌∷◌, ◌++◌, nat_eq, text_eq,
  lookup, delete, lookup-insert_self, lookup-delete_self, length, ltb, Bool-cases, if◌then◌else◌,
  if-intro, subst,
}
use aistudio_gemini_gateway.Relay.Message.{Message, is_terminal}
use aistudio_gemini_gateway.Relay.Session.Slots.{at_slot-rest}
use aistudio_gemini_gateway.Relay.Session.{
  Session, Slot, try_send, close, at_slot, dispatch_lookup, dispatch_deliver, dispatch, is_control,
  capacity,
}

-- The slot after the message: the message stands last if there was room, and the channel is closed by
-- a terminal one.
abbrev pub after_message : Message → Slot → Slot
after_message msg slot = record {
  buffer = if ltb (length slot.buffer) capacity then slot.buffer ++ msg ∷ [] else slot.buffer;
  closed = is_terminal msg.type;
}

at_slot-lookup :
    (f : Slot → Slot) (a : ℕ) (s : Session) (slot : Slot)
    → lookup a s.slots ≡ some slot
    → lookup a (at_slot f a s).slots ≡ some (f slot)
unfolding at_slot
at_slot-lookup f a s slot e = rw (at_slot, e) (lookup-insert_self a (f slot) s.slots)

try_send-open :
    (msg : Message) (slot : Slot)
    → slot.closed ≡ false
    → (try_send msg slot).0 ≡ record {
      buffer = if ltb (length slot.buffer) capacity then slot.buffer ++ msg ∷ [] else slot.buffer;
      closed = false;
    }
unfolding try_send
try_send-open msg slot o = elim (Bool-cases (ltb (length slot.buffer) capacity)) [
  | inl room ↦ rw (try_send, o, room) refl
  | inr full ↦ rw (try_send, o, full) refl
]

deliver-lookup :
    (msg : Message) (a : ℕ) (s : Session) (slot : Slot)
    → lookup a s.slots ≡ some slot
    → slot.closed ≡ false
    → lookup a (dispatch_deliver msg (some a) s).slots ≡ some (after_message msg slot)
unfolding dispatch_deliver close
deliver-lookup msg a s slot e o = elim (Bool-cases (is_terminal msg.type)) [
  | inl last ↦
      rw (dispatch_deliver, last)
        (at_slot-lookup close a sent _ there ∙ ap (λ x. some (close x)) (try_send-open msg slot o))
  | inr more ↦ rw (dispatch_deliver, more) (there ∙ ap some (try_send-open msg slot o))
]
  where
    sent : Session
    sent = at_slot (λ x. (try_send msg x).0) a s

    there : lookup a sent.slots ≡ some (try_send msg slot).0
    there = at_slot-lookup (λ x. (try_send msg x).0) a s slot e

taken_out : Message → Session → Session
taken_out msg s = if is_terminal msg.type then record s { pending = delete msg.id s.pending } else s

dispatch_eq :
    (msg : Message) (a : ℕ) (s : Session)
    → is_control msg.type ≡ false
    → lookup msg.id s.pending ≡ some a
    → dispatch msg s ≡ dispatch_deliver msg (some a) (taken_out msg s)
unfolding dispatch dispatch_lookup taken_out
dispatch_eq msg a s content e = rw (dispatch, content) (ap after found)
  where
    after : Session × Option ℕ → Session
    after r = dispatch_deliver msg r.1 r.0

    found : dispatch_lookup msg s ≡ (taken_out msg s, some a)
    found = rw (dispatch_lookup, e) refl

taken_out-rest :
    (msg : Message) (s : Session) (a : ℕ)
    → lookup msg.id s.pending ≡ some a
    → ((taken_out msg s).slots ≡ s.slots)
      × (lookup msg.id (taken_out msg s).pending ≡ (if is_terminal msg.type then none else some a))
unfolding taken_out
taken_out-rest msg s a e = elim (Bool-cases (is_terminal msg.type)) [
  | inl last ↦ rw (taken_out, last) (refl, lookup-delete_self msg.id s.pending)
  | inr more ↦ rw (taken_out, more) (refl, e)
]

deliver-pending :
    (msg : Message) (a : ℕ) (s : Session) → (dispatch_deliver msg (some a) s).pending ≡ s.pending
unfolding dispatch_deliver
deliver-pending msg a s =
    if-intro (λ (t : Session). t.pending ≡ s.pending) (is_terminal msg.type)
      (λ _. (at_slot-rest close a sent).0 ∙ (at_slot-rest (λ x. (try_send msg x).0) a s).0)
      (λ _. (at_slot-rest (λ x. (try_send msg x).0) a s).0)
  where
    sent : Session
    sent = at_slot (λ x. (try_send msg x).0) a s

-- A message for a request that waits: the channel gets it, in the order of arrival, if it holds less
-- than 16 messages; otherwise it is dropped, and nothing tells so. A terminal one closes the channel
-- in either case, and takes the request out of the table, which no other message changes.
pub dispatch-lookup :
    (msg : Message) (a : ℕ) (s : Session) (slot : Slot)
    → is_control msg.type ≡ false
    → lookup msg.id s.pending ≡ some a
    → lookup a s.slots ≡ some slot
    → slot.closed ≡ false
    → (lookup a (dispatch msg s).slots ≡ some (after_message msg slot))
      × (lookup msg.id (dispatch msg s).pending ≡ (if is_terminal msg.type then none else some a))
dispatch-lookup msg a s slot content listed e o =
    let (kept, left) = taken_out-rest msg s a listed in
    subst
      (λ t.
        (lookup a t.slots ≡ some (after_message msg slot))
        × (lookup msg.id t.pending ≡ (if is_terminal msg.type then none else some a)))
      (sym (dispatch_eq msg a s content listed))
      (
        deliver-lookup msg a (taken_out msg s) slot (ap (λ m. lookup a m) kept ∙ e) o,
        ap (λ m. lookup msg.id m) (deliver-pending msg a (taken_out msg s)) ∙ left,
      )
