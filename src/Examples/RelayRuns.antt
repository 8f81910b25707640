-- ===== src/Examples/RelayRuns.antt =====
-- The relay's sessions and responses.
use aistudio_gemini_gateway.Base.{
  ℕ, Bool, ◌++◌, ◌≡◌, ◌≢◌, refl, true, false, none, some, List, [], ◌∷◌, Text, bytes, arith,
  text_eq, nat_eq, lookup, insert, delete, map, ok, pos,
}
use aistudio_gemini_gateway.Relay.Message.{Message, stream_chunk, stream_end, text, is_terminal}
use aistudio_gemini_gateway.Relay.Session.{
  Session, Slot, dispatch, register, is_current, unregister, dispatch_lookup, mark_closed, reap,
  at_slot, try_send, close, new,
}
use aistudio_gemini_gateway.Relay.Session.Delivery.{after_message, dispatch-lookup}
use aistudio_gemini_gateway.Relay.Session.Goroutines.{
  Event, begins, goes_on, shuts, run, step, fresh_system, begin_request, go_on, come_in, shut,
  perform,
}
use aistudio_gemini_gateway.Relay.Session.Slots.{is_open}
use aistudio_gemini_gateway.Relay.Session.Settling.{drain, drain-all_closed}
use aistudio_gemini_gateway.Relay.Session.Waiting.{run-all_closed}
use aistudio_gemini_gateway.Relay.Response.{
  fresh_assembly, message, channel_closed, stream, non_stream, Turn, incoming, closed_with,
}
use aistudio_gemini_gateway.Relay.Response.Collected.{collect, view, taken, non_stream-collect}
use aistudio_gemini_gateway.Relay.Response.Endings.{
  EndsOnce, IsCut, stream-EndsOnce, non_stream-unfinished,
}

abbrev piece : Text → Message
piece body = record {
  id = bytes "r";
  type = stream_chunk;
  payload = (bytes "data", text body) ∷ [];
}

abbrev end_of_stream : Message
end_of_stream = record { id = bytes "r"; type = stream_end; payload = [] }

abbrev waiting_slot : Slot
waiting_slot = record { buffer = piece (bytes "x") ∷ []; closed = false }

abbrev waiting_session : Session
waiting_session = record {
  slots = (0, waiting_slot) ∷ [];
  pending = (bytes "r", 0) ∷ [];
  next = 1;
  closed = false;
}

dispatch-lookup_example :
    (lookup 0 (dispatch end_of_stream waiting_session).slots
      ≡ some (after_message end_of_stream waiting_slot))
    × (lookup (bytes "r") (dispatch end_of_stream waiting_session).pending ≡ none)
unfolding lookup is_terminal
dispatch-lookup_example =
    dispatch-lookup end_of_stream 0 waiting_session waiting_slot refl refl refl refl

-- A request begins and is written, the session is closed, and its goroutines finish.
abbrev closing_down : List Event
closing_down =
    begins (bytes "r")
    ∷ goes_on 0 true
    ∷ goes_on 0 true
    ∷ shuts (bytes "gone")
    ∷ goes_on 0 true
    ∷ goes_on 0 true
    ∷ goes_on 0 true
    ∷ []

run-all_closed_example : is_open 0 (run closing_down fresh_system).session.slots ≡ false
unfolding lookup insert delete new step begin_request go_on come_in shut perform register is_current
    unregister dispatch_lookup mark_closed reap at_slot try_send close
run-all_closed_example = run-all_closed closing_down refl refl 0

-- The second task first, where there is one, and no write succeeds.
abbrev any_order : List (ℕ × Bool)
any_order =
    (1, false)
    ∷ (0, false)
    ∷ (1, false)
    ∷ (0, false)
    ∷ (1, false)
    ∷ (0, false)
    ∷ (1, false)
    ∷ (0, false)
    ∷ (1, false)
    ∷ []

drain-all_closed_example :
    ((drain any_order
        (step (shuts (bytes "gone")) (run (begins (bytes "r") ∷ []) fresh_system))).tasks
      ≡ [])
    × (is_open 0
          (drain any_order (
            step (shuts (bytes "gone")) (run (begins (bytes "r") ∷ []) fresh_system))).session.slots
        ≡ false)
unfolding lookup insert delete new step begin_request go_on come_in shut perform register is_current
    unregister dispatch_lookup mark_closed reap at_slot try_send close
drain-all_closed_example =
    drain-all_closed (begins (bytes "r") ∷ []) (bytes "gone") any_order 0 (omega arith)

abbrev same_key : Text → Text
same_key key = key

non_stream-collect_example :
    non_stream same_key false
      (map message (piece (bytes "a") ∷ piece (bytes "b") ∷ end_of_stream ∷ []))
      fresh_assembly
    ≡ collect
        (stream same_key (map taken (piece (bytes "a") ∷ piece (bytes "b") ∷ end_of_stream ∷ [])))
        (view fresh_assembly)
non_stream-collect_example =
    non_stream-collect same_key (piece (bytes "a") ∷ piece (bytes "b") ∷ end_of_stream ∷ [])
      fresh_assembly

-- The caller's context ends while the second piece waits to be taken.
abbrev left_alone : List Turn
left_alone = incoming (piece (bytes "a")) true ∷ incoming (piece (bytes "b")) false ∷ []

stream-EndsOnce_example :
    EndsOnce (stream same_key (map taken (piece (bytes "a") ∷ []) ++ closed_with true ∷ []))
    × IsCut (stream same_key left_alone)
stream-EndsOnce_example = stream-EndsOnce same_key (piece (bytes "a") ∷ []) left_alone

non_stream-unfinished_example :
    non_stream same_key true (message (piece (bytes "a")) ∷ channel_closed ∷ []) fresh_assembly
    ≢ some (ok (record { status = pos 200; headers = []; body = bytes "a" }))
unfolding is_terminal
non_stream-unfinished_example =
    non_stream-unfinished same_key true (message (piece (bytes "a")) ∷ channel_closed ∷ [])
      fresh_assembly (record { status = pos 200; headers = []; body = bytes "a" })
      (refl, (refl, tt))
