-- ===== src/Engine/Runner/Stops.antt =====
-- Sessions of the engine process, up to its stop.
use ai_quantum.Common.{
  Bool, true, false, ◌&&◌, ◌==◌, if◌then◌else◌, ℕ, zero, suc, ◌+◌, ◌≤◌, ◌<◌, ◌≡◌, refl, sym, ap,
  ◌∙◌, subst, inl, inr, Bool-cases, List, [], ◌∷◌, ◌++◌, length, length-append, length-drop, take,
  drop, take_all, drop_all, append_assoc, Option, arith,
}
use ai_quantum.Engine.Runner.{
  EngineProcess, Message, frame, stop, is_full, put, worker_takes, submit, request_stop, worker,
}
use ai_quantum.Engine.Runner.Submit.{
  evictions, evicted, gone, is_refused, submit_lem, request_stop-full,
}
use ai_quantum.Engine.Runner.Worker.{frames, results, worker-frames}

-- What happens to a running process: a submission, or a turn of the worker.
pub data Event (A : Type 0) : Type 0 where
  submits : ℕ → Bool → ℕ → A → Event A
  takes : ℕ → Event A

module _ {A : Type 0} where
  unfoldable pub session : List (Event A) → EngineProcess A → EngineProcess A
  session [] s = s
  session (submits w₁ missed w₂ x ∷ es) s = session es (submit w₁ missed w₂ x s)
  session (takes n ∷ es) s = session es (worker_takes n s)

  abbrev pub started : ℕ → EngineProcess A
  started max_queue = record {
    max_queue = max_queue;
    queue = [];
    taken = [];
    lost = [];
    dropped = 0;
  }

  abbrev AreFrames : List (Message A) → Type 0
  AreFrames [] = Unit
  AreFrames (frame x ∷ ms) = AreFrames ms
  AreFrames (stop ∷ ms) = ⊥

  AreFrames-append : (ms ns : List (Message A)) → AreFrames ms → AreFrames ns → AreFrames (ms ++ ns)
  AreFrames-append [] ns h k = k
  AreFrames-append (frame x ∷ ms) ns h k = AreFrames-append ms ns h k
  AreFrames-append (stop ∷ ms) ns h k = absurd h

  AreFrames-take : (n : ℕ) (ms : List (Message A)) → AreFrames ms → AreFrames (take n ms)
  AreFrames-take zero ms h = tt
  AreFrames-take (suc n) [] h = tt
  AreFrames-take (suc n) (frame x ∷ ms) h = AreFrames-take n ms h
  AreFrames-take (suc n) (stop ∷ ms) h = absurd h

  AreFrames-drop : (n : ℕ) (ms : List (Message A)) → AreFrames ms → AreFrames (drop n ms)
  AreFrames-drop zero ms h = h
  AreFrames-drop (suc n) [] h = tt
  AreFrames-drop (suc n) (frame x ∷ ms) h = AreFrames-drop n ms h
  AreFrames-drop (suc n) (stop ∷ ms) h = absurd h

  -- A process that has not been asked to stop.
  record IsRunning (max_queue : ℕ) (s : EngineProcess A) : Type 0 where
    queued : AreFrames s.queue
    received : AreFrames s.taken
    fits : length s.queue ≤ s.max_queue
    bound : s.max_queue ≡ max_queue

  IsRunning-worker_takes :
      (m n : ℕ) (s : EngineProcess A) → IsRunning m s → IsRunning m (worker_takes n s)
  unfolding worker_takes
  IsRunning-worker_takes m n s r = record {
    queued = AreFrames-drop n s.queue r.queued;
    received =
        AreFrames-append s.taken (take n s.queue) r.received (AreFrames-take n s.queue r.queued);
    fits = omega (arith, length-drop n s.queue, r.fits);
    bound = r.bound;
  }

  -- What the worker takes while messages are evicted.
  taken_between :
      (w₁ k w₂ : ℕ) (s : EngineProcess A)
      → AreFrames s.queue
      → AreFrames s.taken
      → AreFrames (s.taken ++ (take w₁ s.queue ++ take w₂ (drop (w₁ + k) s.queue)))
  taken_between w₁ k w₂ s q t =
      AreFrames-append s.taken (take w₁ s.queue ++ take w₂ (drop (w₁ + k) s.queue)) t (
        AreFrames-append (take w₁ s.queue) (take w₂ (drop (w₁ + k) s.queue))
          (AreFrames-take w₁ s.queue q)
          (AreFrames-take w₂ (drop (w₁ + k) s.queue) (AreFrames-drop (w₁ + k) s.queue q)))

  at_most_frame : (refused : Bool) (x : A) → AreFrames (if refused then [] else frame x ∷ [])
  at_most_frame true x = tt
  at_most_frame false x = tt

  IsRunning-submit :
      (m w₁ : ℕ) (missed : Bool) (w₂ : ℕ) (x : A) (s : EngineProcess A)
      → 0 < m
      → IsRunning m s
      → IsRunning m (submit w₁ missed w₂ x s)
  IsRunning-submit m w₁ missed w₂ x s p r =
      let (queue, within, lost, taken, dropped, same) =
        submit_lem w₁ missed w₂ x s r.fits (omega (arith, r.bound)) in
      record {
        queued = subst AreFrames (sym queue) (
            AreFrames-append (drop (gone w₁ missed w₂ s) s.queue) _
              (AreFrames-drop (gone w₁ missed w₂ s) s.queue r.queued)
              (at_most_frame (is_refused w₁ missed w₂ s) x));
        received = subst AreFrames (sym taken) (elim (Bool-cases (is_full s)) [
          | inl full ↦ rw full (taken_between w₁ (evictions missed) w₂ s r.queued r.received)
          | inr room ↦ rw room r.received
        ]);
        fits = within;
        bound = same ∙ r.bound;
      }

  IsRunning-session :
      (m : ℕ) (es : List (Event A)) (s : EngineProcess A)
      → 0 < m
      → IsRunning m s
      → IsRunning m (session es s)
  unfolding session
  IsRunning-session m [] s p r = r
  IsRunning-session m (submits w₁ missed w₂ x ∷ es) s p r =
      IsRunning-session m es (submit w₁ missed w₂ x s) p (IsRunning-submit m w₁ missed w₂ x s p r)
  IsRunning-session m (takes n ∷ es) s p r =
      IsRunning-session m es (worker_takes n s) p (IsRunning-worker_takes m n s r)

  -- The stop signal is the last message in a queue of frames.
  record IsStopping (m : ℕ) (s : EngineProcess A) : Type 0 where
    ahead : List (Message A)
    queued : s.queue ≡ ahead ++ stop ∷ []
    waiting : AreFrames ahead
    received : AreFrames s.taken
    short : length ahead < m

  IsStopping-put :
      (m : ℕ) (s : EngineProcess A)
      → AreFrames s.queue
      → AreFrames s.taken
      → length s.queue < m
      → IsStopping m (put stop s)
  IsStopping-put m s q t l = record {
    ahead = s.queue;
    queued = refl;
    waiting = q;
    received = t;
    short = l;
  }

  IsStopping-request_stop :
      (m w₁ : ℕ) (missed : Bool) (w₂ : ℕ) (s : EngineProcess A)
      → 0 < m
      → is_refused w₁ missed w₂ s ≡ false
      → IsRunning m s
      → IsStopping m (request_stop w₁ missed w₂ s)
  unfolding request_stop
  IsStopping-request_stop m w₁ missed w₂ s p accepted r = elim (Bool-cases (is_full s)) [
    | inr room ↦
        rw (room, request_stop)
          (IsStopping-put m s r.queued r.received (ground (arith, r.bound, room)))
    | inl full ↦
        let n = w₁ + evictions missed + w₂ in
        let moved : (n == 0) ≡ false = ap (λ (b : Bool). b && n == 0) (sym full) ∙ accepted in
        let gap : 0 < n = ground (arith, moved) in
        rw (request_stop-full w₁ missed w₂ s r.fits (omega (arith, r.bound)) full gap) (
          IsStopping-put m (evicted w₁ (evictions missed) w₂ s.dropped s)
            (AreFrames-drop n s.queue r.queued)
            (taken_between w₁ (evictions missed) w₂ s r.queued r.received)
            (omega (arith, length-drop n s.queue, r.fits, r.bound, gap)))
  ]

module _ {A R : Type 0} (detector : A → Option R) where
  AreFrames-frames :
      (ms : List (Message A)) → AreFrames ms → (xs : List A) × (ms ≡ frames detector xs)
  AreFrames-frames [] h = ([], refl)
  AreFrames-frames (frame x ∷ ms) h =
      let (xs, e) = AreFrames-frames ms h in (x ∷ xs, ap (λ (t : List (Message A)). frame x ∷ t) e)
  AreFrames-frames (stop ∷ ms) h = absurd h

  -- A stop whose signal is put is served: after any session of a process with a queue of
  -- `max_queue`, however its submissions, their missed evictions and the worker's turns fall, once
  -- the process is asked to stop, and it is not that the queue is full, `get_nowait` misses and the
  -- worker takes nothing between the two attempts to put the signal, the worker empties the queue
  -- within `max_queue` messages; the last that it receives is the stop signal, all before it are
  -- frames, and its results are those of these frames.
  pub worker-stops :
      (max_queue : ℕ) (events : List (Event A)) (w₁ : ℕ) (missed : Bool) (w₂ n : ℕ)
      → 0 < max_queue
      → max_queue ≤ n
      → is_refused w₁ missed w₂ (session events (started max_queue)) ≡ false
      → let s = worker_takes n (request_stop w₁ missed w₂ (session events (started max_queue))) in
        (xs : List A) × (s.queue ≡ [])
        × (s.taken ≡ frames detector xs ++ stop ∷ [])
        × (worker detector s.taken ≡ results detector xs)
  unfolding worker_takes
  worker-stops max_queue events w₁ missed w₂ n p enough accepted =
      let running =
        IsRunning-session max_queue events (started max_queue) p
          (record { queued = tt; received = tt; fits = omega arith; bound = refl }) in
      let s = request_stop w₁ missed w₂ (session events (started max_queue)) in
      let i =
        IsStopping-request_stop max_queue w₁ missed w₂ (session events (started max_queue)) p
          accepted running in
      let (xs, e) =
        AreFrames-frames (s.taken ++ i.ahead)
          (AreFrames-append s.taken i.ahead i.received i.waiting) in
      let size : length s.queue ≤ n =
        omega (arith, ap length i.queued, length-append i.ahead (stop ∷ []), i.short) in
      let all : s.taken ++ take n s.queue ≡ frames detector xs ++ stop ∷ [] =
        ap (λ (t : List (Message A)). s.taken ++ t) (take_all n s.queue size ∙ i.queued)
        ∙ sym (append_assoc s.taken i.ahead (stop ∷ []))
        ∙ ap (λ (t : List (Message A)). t ++ stop ∷ []) e in
      (xs, drop_all n s.queue size, all, ap (worker detector) all ∙ worker-frames detector xs [])
