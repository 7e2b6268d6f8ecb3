-- ===== src/Core/RingBuffer/Tests.antt =====
-- Runs of the ring buffers of core/ring_buffer.py at small inputs, and instances of their theorems.
use ai_quantum.Common.{ℕ, ◌≡◌, refl, List, [], ◌∷◌, some, none, ok, err}
use ai_quantum.Common.Int.{pos, negsuc}
use ai_quantum.Core.RingBuffer.{
  RingBufferProtocol, capacity_not_positive, deque_protocol, deque_write,
}
use ai_quantum.Core.RingBuffer.Client.{
  Call, Reply, deque_session, numpy_session, window_session, deque_session_refines,
  numpy_session-eq-deque,
}
use ai_quantum.Core.RingBuffer.Lock
use ai_quantum.Core.RingBuffer.Lock.{AsyncRingBuffer, Action, snapshot_isolated, backend-run, step}

-- Five writes round a buffer of three, read in between.
abbrev calls : List (Call ℕ)
calls =
    Call.write 1
    ∷ Call.write 2
    ∷ Call.read_all
    ∷ Call.write 3
    ∷ Call.write 4
    ∷ Call.write 5
    ∷ Call.read_all
    ∷ Call.read_latest (pos 2)
    ∷ Call.read_latest (negsuc 0)
    ∷ Call.len
    ∷ []

abbrev replies : List (Reply ℕ)
replies =
    Reply.done
    ∷ Reply.done
    ∷ Reply.events (1 ∷ 2 ∷ [])
    ∷ Reply.done
    ∷ Reply.done
    ∷ Reply.done
    ∷ Reply.events (3 ∷ 4 ∷ 5 ∷ [])
    ∷ Reply.events (4 ∷ 5 ∷ [])
    ∷ Reply.events []
    ∷ Reply.count 3
    ∷ []

numpy_wraps : numpy_session 0 (pos 3) calls ≡ ok replies
unfolding numpy_session
numpy_wraps = refl

deque_evicts : deque_session (pos 3) calls ≡ ok replies
unfolding deque_session
deque_evicts = refl

zero_capacity : deque_session (pos 0) calls ≡ err capacity_not_positive
unfolding deque_session
zero_capacity = refl

deque_session_refines_example : deque_session (pos 3) calls ≡ window_session (pos 3) calls
deque_session_refines_example = deque_session_refines (pos 3) calls

numpy_session-eq-deque_example : numpy_session 0 (pos 3) calls ≡ deque_session (pos 3) calls
numpy_session-eq-deque_example = numpy_session-eq-deque 0 (pos 3) calls

abbrev shared : RingBufferProtocol ℕ
shared = deque_protocol ℕ

abbrev idle : AsyncRingBuffer shared
idle = record { backend = record { maxlen = 2; buf = 7 ∷ [] }; holder = none }

abbrev held : AsyncRingBuffer shared
held = record { backend = record { maxlen = 2; buf = 7 ∷ [] }; holder = some 1 }

-- Task 2 asks for the length while task 1 is inside `snapshot`.
abbrev during : List (Action shared)
during = Action.len 2 ∷ Action.capacity 2 ∷ []

enters : step shared idle (Action.enter_snapshot 1) ≡ some (Lock.Seen.events (7 ∷ []), held)
unfolding step
enters = refl

waits : step shared held (Action.write 2 9) ≡ none
unfolding step
waits = refl

reads_on : Lock.run shared held during ≡ some held
unfolding Lock.run
reads_on = refl

snapshot_isolated_example :
    (held.backend ≡ idle.backend)
    × (held.holder ≡ some 1)
    × (◌≡◌ {A = Lock.Seen shared} (Lock.Seen.events (7 ∷ [])) (Lock.Seen.events held.backend.buf))
snapshot_isolated_example = snapshot_isolated shared during idle 1 enters (tt) reads_on

abbrev schedule : List (Action shared)
schedule =
    Action.enter_snapshot 1
    ∷ Action.len 2
    ∷ Action.exit_snapshot 1
    ∷ Action.write 2 8
    ∷ Action.write 3 9
    ∷ []

abbrev written : AsyncRingBuffer shared
written = record { backend = record { maxlen = 2; buf = 8 ∷ 9 ∷ [] }; holder = none }

schedule_runs : Lock.run shared idle schedule ≡ some written
unfolding Lock.run deque_write
schedule_runs = refl

backend-run_example :
    written.backend ≡ Lock.apply_writes shared idle.backend (Lock.writes shared schedule)
backend-run_example = backend-run shared schedule idle schedule_runs
