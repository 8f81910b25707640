-- ===== src/Relay/Session.antt =====
-- internal/wsrelay/session.go: the requests that wait on one connection. A step is what one goroutine
-- does between taking and letting go of a lock, so that the steps of several may alternate: a request
-- is registered, sent, dropped and closed in steps of their own. What a waiting slot is, its channel
-- and whether it is closed, outlives its entry in the table of pending requests.
use aistudio_gemini_gateway.Base.{
  ℕ, zero, suc, ◌+◌, ◌≤◌, Bool, true, false, not, ◌&&◌, Option, none, some, List, [], ◌∷◌, ◌++◌,
  Text, Map, nat_eq, text_eq, bytes, is_empty, lookup, insert, delete, length, ltb, if◌then◌else◌,
  ◌==◌,
}
use aistudio_gemini_gateway.Relay.Message.{
  Message, MessageType, is_terminal, ping, pong, error, Field, text,
}
pub mod Goroutines
pub mod Slots
pub mod Waiting
pub mod Settling
pub mod Delivery

-- A `pendingRequest`: what its channel holds, and whether it is closed.
pub record Slot : Type 0 where
  pub buffer : List Message
  pub closed : Bool

-- The channel's size.
abbrev pub capacity : ℕ
capacity = 16

-- A message that finds the channel full is dropped, and the send counts as done.
unfoldable pub try_send : Message → Slot → Slot × Bool
try_send msg slot =
    if slot.closed
    then (slot, false)
    else if ltb (length slot.buffer) capacity
    then (record slot { buffer = slot.buffer ++ msg ∷ [] }, true)
    else (slot, true)

unfoldable pub close : Slot → Slot
close slot = record slot { closed = true }

-- `slots` is the heap of pending requests by their address; `pending` maps the ids of messages to
-- addresses.
pub record Session : Type 0 where
  pub slots : Map ℕ Slot
  pub pending : Map Text ℕ
  pub next : ℕ
  pub closed : Bool

unfoldable pub new : Session
new = record { slots = []; pending = []; next = 0; closed = false }

-- Does something to the slot at an address.
unfoldable pub at_slot : (Slot → Slot) → ℕ → Session → Session
at_slot f address s = elim (lookup address s.slots) [
  | none ↦ s
  | some slot ↦ record s { slots = insert address (f slot) s.slots }
]

-- `request` up to the call of `send`: the slot, or none for an id that is empty or taken.
unfoldable pub register : Text → Session → Session × Option ℕ
register id s = if is_empty id then (s, none) else elim (lookup id s.pending) [
  | some _ ↦ (s, none)
  | none ↦ (
    record s {
      slots = insert s.next (record { buffer = []; closed = false }) s.slots;
      pending = insert id s.next s.pending;
      next = s.next + 1;
    },
    some s.next,
  )
]

-- Whether the entry of the id is the slot at the address.
unfoldable pub is_current : Text → ℕ → Session → Bool
is_current id address s = elim (lookup id s.pending) [
  | none ↦ false
  | some actual ↦ actual == address
]

-- Takes the entry of the id out, if it is still that of the slot.
unfoldable pub unregister : Text → ℕ → Session → Session
unregister id address s =
    if is_current id address s then record s { pending = delete id s.pending } else s

-- `dispatch` while it holds the lock: the slot of the message, whose entry goes with a terminal one.
unfoldable pub dispatch_lookup : Message → Session → Session × Option ℕ
dispatch_lookup msg s = elim (lookup msg.id s.pending) [
  | none ↦ (s, none)
  | some address ↦ (
    if is_terminal msg.type then record s { pending = delete msg.id s.pending } else s,
    some address,
  )
]

-- The rest of `dispatch`.
unfoldable pub dispatch_deliver : Message → Option ℕ → Session → Session
unfolding try_send close at_slot
dispatch_deliver msg none s = s
dispatch_deliver msg (some address) s =
    let sent = at_slot (λ slot. (try_send msg slot).0) address s in
    if is_terminal msg.type then at_slot close address sent else sent

abbrev pub is_control : MessageType → Bool
is_control ping = true
is_control pong = true
is_control _ = false

unfoldable pub dispatch : Message → Session → Session
unfolding dispatch_lookup dispatch_deliver
dispatch msg s =
    if is_control msg.type
    then s
    else let (t, found) = dispatch_lookup msg s in dispatch_deliver msg found t

-- `cleanup` under its `Once`, which `closed` stands for: it closes the channel that says so,
unfoldable pub mark_closed : Session → Session
mark_closed s = record s { closed = true }

-- then takes all requests out of the table,
unfoldable pub reap : Session → Session × Map Text ℕ
reap s = (record s { pending = [] }, s.pending)

-- and sends each an error before it closes its slot.
abbrev pub closing_message : Text → Text → Message
closing_message cause id = record {
  id = id;
  type = error;
  payload = (bytes "error", text cause) ∷ [];
}

unfoldable pub pending_count : Session → ℕ
pending_count s = length s.pending

-- The caller of `request` takes the message that came first.
unfoldable pub receive : ℕ → Session → Session × Option Message
receive address s = elim (lookup address s.slots) [
  | none ↦ (s, none)
  | some slot ↦ elim slot.buffer [
    | [] ↦ (s, none)
    | msg ∷ rest ↦
        (record s { slots = insert address (record slot { buffer = rest }) s.slots }, some msg)
  ]
]
