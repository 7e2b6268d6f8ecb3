-- ===== src/Engine/Runner/Submit.antt =====
-- Backpressure: what `submit` and `stop` do to the queue, whatever the worker takes meanwhile.
use ai_quantum.Common.{
  ℕ, ◌+◌, ◌≤◌, ◌<◌, ◌≡◌, refl, ◌∙◌, ap, true, false, List, [], ◌∷◌, ◌++◌, arith, if◌then◌else◌,
  length, take, drop, drop-drop, length-append, length-drop, ◌==◌, ◌&&◌, Bool, sym, append_assoc,
  append-nil, lt→ltb, Bool-cases, inl, inr, drop_all,
}
use ai_quantum.Engine.Runner.{
  Message, frame, stop, EngineProcess, worker_takes, is_full, put, evict, count_drop, put_or_drop,
  put_stop, submit, request_stop,
}

-- How many messages `get_nowait` evicts from a queue that is not empty.
abbrev pub evictions : Bool → ℕ
evictions missed = if missed then 0 else 1

module _ {A : Type 0} where
  -- The state after `k` evictions between two rounds of the worker, from a full queue.
  abbrev pub evicted : ℕ → ℕ → ℕ → ℕ → EngineProcess A → EngineProcess A
  evicted w₁ k w₂ n s = record s {
    queue = drop (w₁ + k + w₂) s.queue;
    taken = s.taken ++ (take w₁ s.queue ++ take w₂ (drop (w₁ + k) s.queue));
    lost = s.lost ++ take k (drop w₁ s.queue);
    dropped = n;
  }

  evict_lem :
      (missed : Bool) (q : List (Message A)) (s : EngineProcess A)
      → s.queue ≡ q
      → evict missed q s
        ≡ record s { queue = drop (evictions missed) q; lost = s.lost ++ take (evictions missed) q }
  evict_lem true q s e = cc (append-nil s.lost, e)
  evict_lem false [] s e = cc (append-nil s.lost)
  evict_lem false (m ∷ ms) s e = refl

  between :
      (w₁ : ℕ) (missed : Bool) (w₂ : ℕ) (s : EngineProcess A)
      → let s₁ = worker_takes w₁ s in
        worker_takes w₂ (evict missed s₁.queue s₁) ≡ evicted w₁ (evictions missed) w₂ s.dropped s
  unfolding worker_takes
  between w₁ missed w₂ s =
      let e = evict_lem missed (drop w₁ s.queue) (worker_takes w₁ s) refl in
      ap (worker_takes w₂) e
      ∙ cc (
        drop-drop (evictions missed) w₁ s.queue,
        drop-drop w₂ (w₁ + evictions missed) s.queue,
        append_assoc s.taken (take w₁ s.queue) (take w₂ (drop (w₁ + evictions missed) s.queue)),
      )

  room_after :
      (w₁ k w₂ n : ℕ) (s : EngineProcess A)
      → length s.queue ≤ s.max_queue
      → 0 < s.max_queue
      → 0 < w₁ + k + w₂
      → is_full (evicted w₁ k w₂ n s) ≡ false
  room_after w₁ k w₂ n s h p gap = rw (
      lt→ltb (length (drop (w₁ + k + w₂) s.queue)) s.max_queue
        (omega (arith, length-drop (w₁ + k + w₂) s.queue)))

  full_after :
      (w₁ k w₂ n : ℕ) (s : EngineProcess A)
      → w₁ + k + w₂ ≡ 0
      → is_full s ≡ true
      → is_full (evicted w₁ k w₂ n s) ≡ true
  full_after w₁ k w₂ n s none_gone full = rw none_gone full

  -- How many of the oldest messages leave the queue before the second attempt to put.
  abbrev pub gone : ℕ → Bool → ℕ → EngineProcess A → ℕ
  gone w₁ missed w₂ s = if is_full s then w₁ + evictions missed + w₂ else 0

  -- The queue is full, and between the two attempts nothing leaves it: `get_nowait` misses and the
  -- worker takes nothing.
  abbrev pub is_refused : ℕ → Bool → ℕ → EngineProcess A → Bool
  is_refused w₁ missed w₂ s = is_full s && w₁ + evictions missed + w₂ == 0

  -- At a full queue `submit` counts one drop, and puts the new frame last if a message is gone.
  pub submit-full :
      (w₁ : ℕ) (missed : Bool) (w₂ : ℕ) (x : A) (s : EngineProcess A)
      → length s.queue ≤ s.max_queue
      → 0 < s.max_queue
      → is_full s ≡ true
      → 0 < w₁ + evictions missed + w₂
      → submit w₁ missed w₂ x s ≡ put (frame x) (evicted w₁ (evictions missed) w₂ (s.dropped + 1) s)
  unfolding submit worker_takes
  submit-full w₁ missed w₂ x s h p full gap =
      rw (full, submit)
        (ap (λ (t : EngineProcess A). put_or_drop x (count_drop t)) (between w₁ missed w₂ s)
          ∙ rw (room_after w₁ (evictions missed) w₂ (s.dropped + 1) s h p gap))

  -- Where none is gone the new frame is dropped, and two drops are counted.
  pub submit-refused :
      (w₁ : ℕ) (missed : Bool) (w₂ : ℕ) (x : A) (s : EngineProcess A)
      → is_full s ≡ true
      → w₁ + evictions missed + w₂ ≡ 0
      → submit w₁ missed w₂ x s ≡ evicted w₁ (evictions missed) w₂ (s.dropped + 1 + 1) s
  unfolding submit worker_takes
  submit-refused w₁ missed w₂ x s full none_gone =
      rw (full, submit)
        (ap (λ (t : EngineProcess A). put_or_drop x (count_drop t)) (between w₁ missed w₂ s)
          ∙ rw (full_after w₁ (evictions missed) w₂ (s.dropped + 1) s none_gone full))

  pub submit-room :
      (w₁ : ℕ) (missed : Bool) (w₂ : ℕ) (x : A) (s : EngineProcess A)
      → is_full s ≡ false
      → submit w₁ missed w₂ x s ≡ put (frame x) s
  unfolding submit
  submit-room w₁ missed w₂ x s room = rw (room, submit)

  -- At a full queue a submission evicts what is oldest, unless `get_nowait` misses: the submitted
  -- frame is then the last of the queue, behind all but the oldest messages. It is dropped in one
  -- case only, a full queue where `get_nowait` misses and the worker takes nothing between the two
  -- attempts, and the queue is then as it was. The queue stays within its maximum; every message that
  -- was in it is received, lost or still queued, in order; at most one is lost, and none if
  -- `get_nowait` misses. A submission at a full queue adds one to the drop counter, or two if the
  -- new frame is dropped.
  pub submit_lem :
      (w₁ : ℕ) (missed : Bool) (w₂ : ℕ) (x : A) (s : EngineProcess A)
      → length s.queue ≤ s.max_queue
      → 0 < s.max_queue
      → let s' = submit w₁ missed w₂ x s in
        let k = evictions missed in
        let refused = is_refused w₁ missed w₂ s in
        (s'.queue ≡ drop (gone w₁ missed w₂ s) s.queue ++ (if refused then [] else frame x ∷ []))
        × (length s'.queue ≤ s'.max_queue)
        × (s'.lost ≡ (if is_full s then s.lost ++ take k (drop w₁ s.queue) else s.lost))
        × (s'.taken ≡ (
            if is_full s
            then s.taken ++ (take w₁ s.queue ++ take w₂ (drop (w₁ + k) s.queue))
            else s.taken))
        × (s'.dropped
            ≡ (if is_full s then (if refused then s.dropped + 2 else s.dropped + 1) else s.dropped))
        × (s'.max_queue ≡ s.max_queue)
  submit_lem w₁ missed w₂ x s h p = elim (Bool-cases (is_full s)) [
    | inl full ↦ elim (Bool-cases (w₁ + evictions missed + w₂ == 0)) [
      | inl still ↦
          let none_gone : w₁ + evictions missed + w₂ ≡ 0 = ground (arith, still) in
          rw (submit-refused w₁ missed w₂ x s full none_gone, full, still)
            (
              sym (append-nil (drop (w₁ + evictions missed + w₂) s.queue)),
              omega (arith, length-drop (w₁ + evictions missed + w₂) s.queue),
              refl,
              refl,
              omega arith,
              refl,
            )
      | inr moved ↦
          let gap : 0 < w₁ + evictions missed + w₂ = ground (arith, moved) in
          rw (submit-full w₁ missed w₂ x s h p full gap, full, moved)
            (
              refl,
              omega (
                arith,
                length-append (drop (w₁ + evictions missed + w₂) s.queue) (frame x ∷ []),
                length-drop (w₁ + evictions missed + w₂) s.queue,
              ),
              refl,
              refl,
              refl,
              refl,
            )
    ]
    | inr room ↦ rw (submit-room w₁ missed w₂ x s room) (
        rw room (
          refl,
          ground (arith, length-append s.queue (frame x ∷ []), room),
          refl,
          refl,
          refl,
          refl,
        ))
  ]

  -- `engine_frames_dropped_total` counts frames that were not dropped: at a full queue that the
  -- worker drains before the eviction, the counter goes up and no message is lost.
  submit_overcounts :
      (w₁ w₂ : ℕ) (x : A) (s : EngineProcess A)
      → length s.queue ≡ s.max_queue
      → 0 < s.max_queue
      → length s.queue ≤ w₁
      → let s' = submit w₁ false w₂ x s in (s'.dropped ≡ s.dropped + 1) × (s'.lost ≡ s.lost)
  submit_overcounts w₁ w₂ x s h p drained =
      let full : is_full s ≡ true = ground arith in
      rw (submit-full w₁ false w₂ x s (omega arith) p full (omega arith))
        (refl, rw (drop_all w₁ s.queue drained) (append-nil s.lost))

  pub request_stop-full :
      (w₁ : ℕ) (missed : Bool) (w₂ : ℕ) (s : EngineProcess A)
      → length s.queue ≤ s.max_queue
      → 0 < s.max_queue
      → is_full s ≡ true
      → 0 < w₁ + evictions missed + w₂
      → request_stop w₁ missed w₂ s ≡ put stop (evicted w₁ (evictions missed) w₂ s.dropped s)
  unfolding request_stop
  request_stop-full w₁ missed w₂ s h p full gap =
      rw (full, request_stop)
        (ap put_stop (between w₁ missed w₂ s)
          ∙ rw (room_after w₁ (evictions missed) w₂ s.dropped s h p gap))

  -- A stop whose signal is refused changes nothing but what the worker took: the signal is lost.
  request_stop-refused :
      (w₁ : ℕ) (missed : Bool) (w₂ : ℕ) (s : EngineProcess A)
      → is_full s ≡ true
      → w₁ + evictions missed + w₂ ≡ 0
      → request_stop w₁ missed w₂ s ≡ evicted w₁ (evictions missed) w₂ s.dropped s
  unfolding request_stop
  request_stop-refused w₁ missed w₂ s full none_gone =
      rw (full, request_stop)
        (ap put_stop (between w₁ missed w₂ s)
          ∙ rw (full_after w₁ (evictions missed) w₂ s.dropped s none_gone full))
