-- ===== src/Engine/Runner.antt =====
-- engine/runner.py: the queue in front of the engine process. The worker runs in another process, so
-- between two queue operations of a method it may take any number of messages: the methods have
-- these numbers as arguments. At a queue that is not empty `get_nowait` raises `queue.Empty` too, where
-- the worker holds the queue's lock or a message is still in the feeder's buffer; `missed` says
-- whether it does. Only this process puts messages in.
pub mod Submit
pub mod Worker
pub mod Stops
mod Tests
use ai_quantum.Common.{
  ℕ, zero, suc, ◌+◌, Bool, true, false, List, [], ◌∷◌, ◌++◌, Option, none, some, ltb, if◌then◌else◌,
  length, take, drop, Outcome, ok, err,
}
use ai_quantum.Common.Int.{ℤ, pos, negsuc}

-- The tags of a queue message.
pub data Message (A : Type 0) : Type 0 where
  frame : A → Message A
  stop : Message A

pub data ValueError : Type 0 where
  queue_too_small : ValueError

-- `taken` is what the worker has received; `lost` is what was evicted, and `dropped` is
-- `engine_frames_dropped_total`.
pub record EngineProcess (A : Type 0) : Type 0 where
  pub max_queue : ℕ
  pub queue : List (Message A)
  pub taken : List (Message A)
  pub lost : List (Message A)
  pub dropped : ℕ

module _ {A : Type 0} where
  pub init : ℤ → Outcome ValueError (EngineProcess A)
  init (pos (suc n)) =
      ok (record { max_queue = suc n; queue = []; taken = []; lost = []; dropped = 0 })
  init _ = err queue_too_small

  -- The worker takes `n` messages, or all that there are.
  unfoldable pub worker_takes : ℕ → EngineProcess A → EngineProcess A
  worker_takes n s = record s { queue = drop n s.queue; taken = s.taken ++ take n s.queue }

  abbrev pub is_full : EngineProcess A → Bool
  is_full s = if ltb (length s.queue) s.max_queue then false else true

  -- `put_nowait` at a queue that is not full.
  abbrev pub put : Message A → EngineProcess A → EngineProcess A
  put m s = record s { queue = s.queue ++ m ∷ [] }

  -- `get_nowait`, its `queue.Empty` passed over.
  abbrev evict : Bool → List (Message A) → EngineProcess A → EngineProcess A
  evict true ms s = s
  evict false [] s = s
  evict false (m ∷ ms) s = record s { queue = ms; lost = s.lost ++ m ∷ [] }

  abbrev count_drop : EngineProcess A → EngineProcess A
  count_drop s = record s { dropped = s.dropped + 1 }

  -- The second attempt to put a frame, whose `queue.Full` drops the new frame too.
  abbrev put_or_drop : A → EngineProcess A → EngineProcess A
  put_or_drop x s = if is_full s then count_drop s else put (frame x) s

  -- The second attempt to put the stop signal, whose `queue.Full` is passed over.
  abbrev put_stop : EngineProcess A → EngineProcess A
  put_stop s = if is_full s then s else put stop s

  -- `submit`: the worker takes `w₁` messages before the eviction and `w₂` after it.
  unfoldable pub submit : ℕ → Bool → ℕ → A → EngineProcess A → EngineProcess A
  unfolding worker_takes
  submit w₁ missed w₂ x s =
      if is_full s
      then (let s₁ = worker_takes w₁ s in
          put_or_drop x (worker_takes w₂ (count_drop (evict missed s₁.queue s₁))))
      else put (frame x) s

  -- The queue part of `stop`: the stop signal goes in, past an evicted message if need be.
  unfoldable pub request_stop : ℕ → Bool → ℕ → EngineProcess A → EngineProcess A
  unfolding worker_takes
  request_stop w₁ missed w₂ s =
      if is_full s
      then (let s₁ = worker_takes w₁ s in put_stop (worker_takes w₂ (evict missed s₁.queue s₁)))
      else put stop s

module _ {A R : Type 0} (detector : A → Option R) where
  -- `_worker`: the results of the messages up to the stop signal. `none` is a detector that raises;
  -- its frame is skipped.
  unfoldable pub worker : List (Message A) → List R
  worker [] = []
  worker (stop ∷ ms) = []
  worker (frame x ∷ ms) =
      let rest = worker ms in elim (detector x) [ none ↦ rest | some r ↦ r ∷ rest ]

-- `poll_results` drains what has arrived, in order.
pub poll_results {ℓ} : {R : Type ℓ} → List R → List R × List R
poll_results out = (out, [])
