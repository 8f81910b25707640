-- ===== src/Relay/Session/Goroutines.antt =====
-- The goroutines around one connection, with what each still has to do, and any order of their steps.
use aistudio_gemini_gateway.Base.{
  ℕ, zero, suc, Bool, true, false, Option, none, some, List, [], ◌∷◌, Text, Map, nat_eq, text_eq,
  if◌then◌else◌,
}
use aistudio_gemini_gateway.Relay.Message.{Message, is_terminal}
use aistudio_gemini_gateway.Relay.Session.{
  Session, try_send, close, at_slot, register, is_current, unregister, dispatch_lookup, is_control,
  reap, mark_closed, closing_message, receive, new,
}

-- What a goroutine does next: `request` looks whether the session is closed, then writes; one that was
-- refused or cancelled closes its slot; `dispatch` sends what it read to the slot that it found;
-- `cleanup` reaps, then sends an error to each slot that it reaped.
pub data Task : Type 0 where
  registered : Text → ℕ → Task
  writing : Text → ℕ → Task
  closing : ℕ → Task
  delivering : Message → ℕ → Task
  reaping : Text → Task
  notifying : Text → Text → ℕ → Task

pub record System : Type 0 where
  pub session : Session
  pub tasks : List Task

abbrev pub add_task : Task → System → System
add_task t y = record y { tasks = t ∷ y.tasks }

abbrev pub notify_all : Text → Map Text ℕ → List Task → List Task
notify_all cause [] ts = ts
notify_all cause ((id, address) ∷ m) ts = notifying cause id address ∷ notify_all cause m ts

-- The next step of a task; the flag says whether the write to the socket succeeds.
unfoldable pub perform : Bool → Task → System → System
perform succeeds (registered id address) y =
    if y.session.closed
    then record { session = unregister id address y.session; tasks = closing address ∷ y.tasks }
    else add_task (writing id address) y
perform true (writing id address) y = y
perform false (writing id address) y = record {
  session = unregister id address y.session;
  tasks = closing address ∷ y.tasks;
}
perform succeeds (closing address) y = record y { session = at_slot close address y.session }
perform succeeds (delivering msg address) y =
    let sent = record y { session = at_slot (λ slot. (try_send msg slot).0) address y.session } in
    if is_terminal msg.type then add_task (closing address) sent else sent
perform succeeds (reaping cause) y =
    let (s, reaped) = reap y.session in
    record { session = s; tasks = notify_all cause reaped y.tasks }
perform succeeds (notifying cause id address) y = record {
  session = at_slot (λ slot. (try_send (closing_message cause id) slot).0) address y.session;
  tasks = closing address ∷ y.tasks;
}

-- What may happen: a request begins; a task goes on; a message comes in; the context of a request ends;
-- the session is to be closed; a caller takes a message.
pub data Event : Type 0 where
  begins : Text → Event
  goes_on : ℕ → Bool → Event
  comes_in : Message → Event
  ends : Text → ℕ → Event
  shuts : Text → Event
  takes : ℕ → Event

-- The task at an index, and the others.
abbrev pub take_out : ℕ → List Task → Option (Task × List Task)
take_out i [] = none
take_out zero (t ∷ ts) = some (t, ts)
take_out (suc i) (t ∷ ts) = elim (take_out i ts) [ none ↦ none | some r ↦ some (r.0, t ∷ r.1) ]

unfoldable pub begin_request : Text → System → System
begin_request id y =
    let (s, given) = register id y.session in
    elim given [
      | none ↦ y
      | some address ↦ record { session = s; tasks = registered id address ∷ y.tasks }
    ]

unfoldable pub go_on : ℕ → Bool → System → System
unfolding perform
go_on i succeeds y = elim (take_out i y.tasks) [
  | none ↦ y
  | some r ↦ perform succeeds r.0 (record y { tasks = r.1 })
]

unfoldable pub come_in : Message → System → System
come_in msg y =
    if is_control msg.type
    then y
    else (let (s, found) = dispatch_lookup msg y.session in
        elim found [
          | none ↦ record y { session = s }
          | some address ↦ record { session = s; tasks = delivering msg address ∷ y.tasks }
        ])

unfoldable pub end_context : Text → ℕ → System → System
end_context id address y =
    if is_current id address y.session
    then record { session = unregister id address y.session; tasks = closing address ∷ y.tasks }
    else y

unfoldable pub shut : Text → System → System
shut cause y =
    if y.session.closed
    then y
    else record { session = mark_closed y.session; tasks = reaping cause ∷ y.tasks }

unfoldable pub step : Event → System → System
unfolding begin_request go_on come_in end_context shut
step (begins id) y = begin_request id y
step (goes_on i succeeds) y = go_on i succeeds y
step (comes_in msg) y = come_in msg y
step (ends id address) y = end_context id address y
step (shuts cause) y = shut cause y
step (takes address) y = record y { session = (receive address y.session).0 }

abbrev pub run : List Event → System → System
run [] y = y
run (e ∷ es) y = run es (step e y)

abbrev pub fresh_system : System
fresh_system = record { session = new; tasks = [] }
