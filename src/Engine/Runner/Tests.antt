-- ===== src/Engine/Runner/Tests.antt =====
-- Runs of the engine process's queue, and instances of its theorems.
use ai_quantum.Common.{
  ℕ, ◌≡◌, ◌≤◌, refl, [], ◌∷◌, ◌++◌, Option, none, some, length, drop, take, if◌then◌else◌, ◌==◌,
  arith, ◌+◌, List, true, false,
}
use ai_quantum.Engine.Runner.{
  frame, stop, EngineProcess, is_full, submit, request_stop, worker, worker_takes,
}
use ai_quantum.Engine.Runner.Stops.{Event, submits, takes, session, started, worker-stops}
use ai_quantum.Engine.Runner.Submit.{gone, is_refused, submit_lem}
use ai_quantum.Engine.Runner.Worker.{results, frames}

-- A full queue of two.
abbrev busy : EngineProcess ℕ
busy = record { max_queue = 2; queue = frame 1 ∷ frame 2 ∷ []; taken = []; lost = []; dropped = 0 }

evicts_oldest : submit 0 false 0 3 busy ≡ record {
  max_queue = 2;
  queue = frame 2 ∷ frame 3 ∷ [];
  taken = [];
  lost = frame 1 ∷ [];
  dropped = 1;
}
unfolding submit
evicts_oldest = refl

-- Nothing is evicted: the new frame is dropped, and counted twice.
drops_new : submit 0 true 0 3 busy ≡ record busy { dropped = 2 }
unfolding submit
drops_new = refl

-- The stop signal is lost.
loses_stop : request_stop 0 true 0 busy ≡ busy
unfolding request_stop
loses_stop = refl

submit_lem_example :
    let s' = submit 1 false 0 3 busy in
    (s'.queue ≡ drop (gone 1 false 0 busy) busy.queue ++ frame 3 ∷ [])
    × (length s'.queue ≤ s'.max_queue)
    × (s'.lost ≡ (if is_full busy then busy.lost ++ take 1 (drop 1 busy.queue) else busy.lost))
    × (s'.taken ≡ (
        if is_full busy
        then busy.taken ++ (take 1 busy.queue ++ take 0 (drop 2 busy.queue))
        else busy.taken))
    × (s'.dropped ≡ (if is_full busy then busy.dropped + 1 else busy.dropped))
    × (s'.max_queue ≡ 2)
submit_lem_example = submit_lem 1 false 0 3 busy (omega arith) (omega arith)

-- A detector that raises on 2.
abbrev picky : ℕ → Option ℕ
picky n = if n == 2 then none else some (n + 100)

skips_failure : worker picky (frame 1 ∷ frame 2 ∷ frame 3 ∷ stop ∷ frame 4 ∷ []) ≡ 101 ∷ 103 ∷ []
unfolding worker
skips_failure = refl

abbrev echo : ℕ → Option ℕ
echo n = some n

abbrev session_events : List (Event ℕ)
session_events = submits 0 false 0 5 ∷ submits 0 true 0 6 ∷ takes 1 ∷ submits 1 false 0 7 ∷ []

accepted : is_refused 0 false 0 (session session_events (started 1)) ≡ false
unfolding session submit worker_takes
accepted = refl

worker-stops_example :
    let s = worker_takes 2 (request_stop 0 false 0 (session session_events (started 1))) in
    (xs : List ℕ) × (s.queue ≡ [])
    × (s.taken ≡ frames echo xs ++ stop ∷ [])
    × (worker echo s.taken ≡ results echo xs)
worker-stops_example =
    worker-stops echo 1 session_events 0 false 0 2 (omega arith) (omega arith) accepted
